-- ===== src/Queue/Index.antt =====
-- mpmc_queue.hpp: the mask in place of the remainder.
use native.Mathlib.Nat.{mod-lt, div-add-mod'}
use mpmc_logger.Prelude.{ℕ, ◌+◌, ◌%◌, ◌≤◌, ◌<◌, ◌≡◌, sym, ◌∙◌, arith, dec_le}
use mpmc_logger.Prelude.Bits.{bit_and-mask}
use mpmc_logger.Queue.{IsSize, slot_index}

-- The mask of a position is its remainder by SIZE, for every size that the static assertions admit.
pub slot_index-eq-mod : {size : ℕ} (v : IsSize size) (pos : ℕ) → slot_index size pos ≡ pos % size
unfolding slot_index
slot_index-eq-mod {size} v pos =
    bit_and-mask size size pos (omega arith) (omega (arith, v.large)) v.power

pub slot_index-lt : {size : ℕ} (v : IsSize size) (pos : ℕ) → slot_index size pos < size
slot_index-lt {size} v pos =
    omega (arith, v.large, slot_index-eq-mod v pos, mod-lt pos {m = size} (omega (arith, v.large)))

mod_window : (m p q : ℕ) → 0 < m → p ≤ q → q < p + m → p % m ≡ q % m → p ≡ q
mod_window m p q h le lt e = grind (arith, div-add-mod' p m, div-add-mod' q m)

-- Two positions less than SIZE apart have different slots.
pub slot_index-injective :
    {size : ℕ} (v : IsSize size) (p q : ℕ)
    → p < q + size
    → q < p + size
    → slot_index size p ≡ slot_index size q
    → p ≡ q
slot_index-injective {size} v p q a b e = elim (dec_le p q) [
  | yes le ↦ mod_window size p q (omega (arith, v.large)) le b same
  | no gt ↦ sym (mod_window size q p (omega (arith, v.large)) (omega arith) a (sym same))
]
  where
    same : p % size ≡ q % size
    same = sym (slot_index-eq-mod v p) ∙ e ∙ slot_index-eq-mod v q
