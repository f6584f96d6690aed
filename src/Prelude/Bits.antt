-- ===== src/Prelude/Bits.antt =====
-- Masks: `x & (m - 1)` for an `m` that shares no binary digit with `m - 1`.
use Prim.Native.Nat.{
  ℕ, zero, suc, ◌+◌, ◌-◌, ◌*◌, ◌/◌, ◌%◌, ◌≤◌, ◌<◌, min, bit_and, digits, bit_and-bitwise,
}
use mathlib.Core.Path.{◌≡◌, refl, sym, ap, ◌∙◌}
use native.Mathlib.Decide.{ℕ_discrete}
use native.Mathlib.Nat.{div-add-mod', mod-lt, mod-eq_of_lt, mul-add-mod_self_right}
use native.Mathlib.Omega.{arith}

abbrev conj : (rounds x y : ℕ) → ℕ
conj rounds x y = digits (λ _. 0) min rounds x y

-- As many rounds as the first number are enough.
conj_settled : (top rounds x y : ℕ) → rounds ≤ top → x ≤ rounds → conj rounds x y ≡ conj x x y
conj_settled top zero zero y t h = refl
conj_settled top zero (suc x) y t h = absurd (omega arith)
conj_settled top (suc rounds) zero y t h = refl
conj_settled zero (suc rounds) (suc x) y t h = absurd (omega arith)
conj_settled (suc top) (suc rounds) (suc x) y t h =
    let long = conj_settled top rounds (suc x / 2) (y / 2) (omega arith) (omega arith) in
    let short = conj_settled top x (suc x / 2) (y / 2) (omega arith) (omega arith) in
    omega (arith, long, short)

-- The rest of the digits, and the last one.
last_digit : (x y : ℕ) → bit_and x y ≡ bit_and (x / 2) (y / 2) * 2 + min (x % 2) (y % 2)
last_digit zero y = omega (arith, bit_and-bitwise 0 y, bit_and-bitwise 0 (y / 2))
last_digit (suc x) y =
    let inner = conj_settled x x (suc x / 2) (y / 2) (omega arith) (omega arith) in
    omega (arith, inner, bit_and-bitwise (suc x) y, bit_and-bitwise (suc x / 2) (y / 2))

-- What `x & 0` and `x & x` are.
bit_and_diagonal : (top x : ℕ) → x ≤ top → (bit_and x 0 ≡ 0) × (bit_and x x ≡ x)
bit_and_diagonal top zero h = (bit_and-bitwise 0 0, bit_and-bitwise 0 0)
bit_and_diagonal zero (suc x) h = absurd (omega arith)
bit_and_diagonal (suc top) (suc x) h =
    let (none_left, all_left) = bit_and_diagonal top (suc x / 2) (omega arith) in
    (
      omega (arith, none_left, last_digit (suc x) 0),
      omega (arith, all_left, last_digit (suc x) (suc x)),
    )

-- The remainder by an even number, from that of the half.
mod_double : (x h : ℕ) → 0 < h → x / 2 % h * 2 + x % 2 ≡ x % (h * 2)
mod_double x h pos =
    let r = x / 2 % h * 2 + x % 2 in
    let parts : x ≡ x / 2 / h * (h * 2) + r = omega (arith, div-add-mod' (x / 2) h) in
    sym (
      ap (λ z. z % (h * 2)) parts
      ∙ mul-add-mod_self_right (x / 2 / h) (h * 2) r
      ∙ mod-eq_of_lt {n = r} (omega (arith, mod-lt (x / 2) pos)))

-- The mask by `m - 1` is the remainder by `m`, where `m & (m - 1)` is 0.
pub bit_and-mask :
    (top m x : ℕ) → m ≤ top → 0 < m → bit_and m (m - 1) ≡ 0 → bit_and x (m - 1) ≡ x % m
bit_and-mask zero m x t pos e = absurd (omega arith)
bit_and-mask (suc top) m x t pos e =
    let h = m / 2 in
    elim (ℕ_discrete (m % 2) 0) [
      | yes even ↦
          let below : (m - 1) / 2 ≡ h - 1 = omega arith in
          let half : bit_and h ((m - 1) / 2) ≡ 0 = omega (arith, e, last_digit m (m - 1)) in
          let mask =
            bit_and-mask top h (x / 2) (omega arith) (omega arith)
              (ap (bit_and h) (sym below) ∙ half) in
          last_digit x (m - 1)
          ∙ omega (
            arith,
            ap (bit_and (x / 2)) below ∙ mask,
            mod_double x h (omega arith) ∙ ap (λ k. x % k) {y = m} (omega arith),
          )
      | no odd ↦
          let below : (m - 1) / 2 ≡ h = omega arith in
          let nothing : h ≡ 0 = omega (
            arith,
            e,
            last_digit m (m - 1),
            ap (bit_and h) below,
            (bit_and_diagonal h h (omega arith)).1,
          ) in
          ap (bit_and x) {y = 0} (omega arith)
          ∙ (bit_and_diagonal x x (omega arith)).0
          ∙ sym (ap (λ k. x % k) {y = 1} (omega arith) ∙ omega arith)
    ]
