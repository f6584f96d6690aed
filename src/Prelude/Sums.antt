-- ===== src/Prelude/Sums.antt =====
-- Sums over an array.
use Prim.Native.Nat.{ℕ, zero, suc, ◌+◌, ◌*◌, ◌≤◌, ◌<◌}
use mathlib.Core.Path.{◌≡◌, refl, ap}
use native.Mathlib.Decide.{ℕ_discrete}
use native.Mathlib.Omega.{arith}
use mpmc_logger.Prelude.Arrays.{update, update_self, update_ne}

-- `f i + ... + f (i + rounds - 1)`
unfoldable pub sum_from : (rounds i : ℕ) → (ℕ → ℕ) → ℕ
sum_from zero i f = 0
sum_from (suc rounds) i f = f i + sum_from rounds (i + 1) f

sum_from-update_below :
    (rounds i j v : ℕ) (f : ℕ → ℕ) → j < i → sum_from rounds i (update f j v) ≡ sum_from rounds i f
unfolding sum_from
sum_from-update_below zero i j v f lt = refl
sum_from-update_below (suc rounds) i j v f lt = omega (
  arith,
  update_ne f j i v (λ e. omega arith),
  sum_from-update_below rounds (i + 1) j v f (omega arith),
)

-- One summand changes.
pub sum_from-update :
    (rounds i j v : ℕ) (f : ℕ → ℕ)
    → i ≤ j
    → j < i + rounds
    → sum_from rounds i (update f j v) + f j ≡ sum_from rounds i f + v
unfolding sum_from
sum_from-update zero i j v f le lt = absurd (omega arith)
sum_from-update (suc rounds) i j v f le lt = elim (ℕ_discrete j i) [
  | yes e ↦ omega (
    arith,
    ap (update f j v) e,
    ap f e,
    update_self f j v,
    sum_from-update_below rounds (i + 1) j v f (omega arith),
  )
  | no ne ↦ omega (
    arith,
    update_ne f j i v ne,
    sum_from-update rounds (i + 1) j v f (omega arith) (omega arith),
  )
]

pub le_sum_from : (rounds i j : ℕ) (f : ℕ → ℕ) → i ≤ j → j < i + rounds → f j ≤ sum_from rounds i f
unfolding sum_from
le_sum_from zero i j f le lt = absurd (omega arith)
le_sum_from (suc rounds) i j f le lt = elim (ℕ_discrete j i) [
  | yes e ↦ omega (arith, ap f e)
  | no ne ↦ omega (arith, le_sum_from rounds (i + 1) j f (omega arith) (omega arith))
]

pub sum_from-const :
    (rounds i n : ℕ) (f : ℕ → ℕ) → ((j : ℕ) → f j ≡ n) → sum_from rounds i f ≡ rounds * n
unfolding sum_from
sum_from-const zero i n f same = omega arith
sum_from-const (suc rounds) i n f same =
    omega (arith, same i, sum_from-const rounds (i + 1) n f same)

pub sum_from-update_above :
    (rounds i j v : ℕ) (f : ℕ → ℕ)
    → i + rounds ≤ j
    → sum_from rounds i (update f j v) ≡ sum_from rounds i f
unfolding sum_from
sum_from-update_above zero i j v f le = refl
sum_from-update_above (suc rounds) i j v f le = omega (
  arith,
  update_ne f j i v (λ e. omega arith),
  sum_from-update_above rounds (i + 1) j v f (omega arith),
)
