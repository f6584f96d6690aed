-- ===== src/Prelude/Arrays.antt =====
-- Fixed arrays as functions of the index, written at one index. The accesses of the source are
-- shown to be in range where the array has a bound.
use Prim.Native.Nat.{ℕ}
use mathlib.Core.Path.{◌≡◌, subst, fun_ext}
use mathlib.Core.Logic.{◌≢◌}
use native.Mathlib.Decide.{ℕ_discrete}
use native.Mathlib.Omega.{arith}
use mpmc_logger.Prelude.Tests.{◌==◌, if◌then◌else◌}

abbrev pub update {ℓ} : {A : Type ℓ} → (ℕ → A) → ℕ → A → ℕ → A
update f i a j = if i == j then a else f j

module _ {ℓ} {A : Type ℓ} (f : ℕ → A) where
  pub update_self : (i : ℕ) (a : A) → update f i a i ≡ a
  update_self i a = ground arith

  pub update_ne : (i j : ℕ) (a : A) → i ≢ j → update f i a j ≡ f j
  update_ne i j a h = ground arith

  -- A write that a reading `g` does not see leaves every reading as it was.
  pub update_invisible {κ} :
      {B : Type κ} (g : A → B) (i : ℕ) (a : A)
      → g a ≡ g (f i)
      → ◌≡◌ {A = ℕ → B} (λ j. g (update f i a j)) (λ j. g (f j))
  update_invisible g i a h = fun_ext λ j. ground arith

-- What holds of the value written, and of the others at their indices, holds everywhere.
pub update_elim {ℓ κ} :
    {A : Type ℓ} (P : ℕ → A → Type κ) (f : ℕ → A) (i : ℕ) (a : A)
    → P i a
    → ((j : ℕ) → i ≢ j → P j (f j))
    → (j : ℕ) → P j (update f i a j)
update_elim P f i a here there j = elim (ℕ_discrete i j) [
  | yes e ↦ subst (λ k. P k (update f i a k)) e (rw (update_self f i a) here)
  | no ne ↦ rw (update_ne f i j a ne) (there j ne)
]

-- A reading of an updated array is an update of the reading.
pub map-update {ℓ κ} :
    {A : Type ℓ} {B : Type κ} (g : A → B) (f : ℕ → A) (i : ℕ) (a : A)
    → ◌≡◌ {A = ℕ → B} (update (λ j. g (f j)) i (g a)) (λ j. g (update f i a j))
map-update g f i a = fun_ext λ j. ground arith

pub map2-update {ℓ} :
    {A B C : Type ℓ} (g : A → B → C) (f : ℕ → A) (h : ℕ → B) (i : ℕ) (a : A) (b : B)
    → ◌≡◌ {A = ℕ → C}
        (λ j. g (update f i a j) (update h i b j))
        (update (λ j. g (f j) (h j)) i (g a b))
map2-update g f h i a b = fun_ext λ j. ground arith

pub map_at-update {ℓ κ} :
    {A : Type ℓ} {B : Type κ} (g : ℕ → A → B) (f : ℕ → A) (i : ℕ) (a : A)
    → ◌≡◌ {A = ℕ → B} (λ j. g j (update f i a j)) (update (λ j. g j (f j)) i (g i a))
map_at-update g f i a = fun_ext λ j. ground arith
