-- ===== src/Shm/Attach.antt =====
-- `ShmQueueManager`: waiting for the creator of the segment.
use mpmc_logger.Prelude.{
  ℕ, zero, suc, ◌-◌, ◌≤◌, ◌<◌, ◌≡◌, refl, ap, ◌∙◌, false, Option, none, some, List, arith,
  ℕ_discrete,
}
use mpmc_logger.Shm.{ShmOs, attach}

-- A segment that can be opened after `delay w` sleeps, and then under the descriptor `fd`.
pub record Appears {W : Type 0} (os : ShmOs W) (name : List ℕ) (delay : W → ℕ) (fd : ℕ)
    : Type 0 where
  pub ready : (w : W) → delay w ≡ 0 → (os.shm_open name false w).0 ≡ some fd
  pub absent : (w : W) → 0 < delay w → (os.shm_open name false w).0 ≡ none
  pub passes : (us : ℕ) (w : W) → delay (os.usleep us (os.shm_open name false w).1) ≡ delay w - 1

module _ {W : Type 0} {os : ShmOs W} (size : ℕ) {name : List ℕ} {delay : W → ℕ} {fd : ℕ}
    (appears : Appears os name delay fd) where
  step :
      (n : ℕ) (w : W) (o : Option ℕ)
      → (os.shm_open name false w).0 ≡ o
      → attach os size (suc n) name w ≡ elim o [
        | some d ↦ (some d, (os.shm_open name false w).1)
        | none ↦ attach os size n name (os.usleep 10_000 (os.shm_open name false w).1)
      ]
  unfolding attach
  step n w o e =
      ap
        (λ o'. elim o' [
          | some d ↦ (some d, (os.shm_open name false w).1)
          | none ↦ attach os size n name (os.usleep 10_000 (os.shm_open name false w).1)
        ])
        e

  -- A segment that appears after fewer sleeps than there are attempts is opened.
  pub attach_found :
      (attempts : ℕ) (w : W) → delay w < attempts → (attach os size attempts name w).0 ≡ some fd
  attach_found zero w lt = absurd (omega arith)
  attach_found (suc n) w lt = elim (ℕ_discrete (delay w) 0) [
    | yes e ↦ ap (λ r. r.0) (step n w (some fd) (appears.ready w e))
    | no ne ↦
        ap (λ r. r.0) (step n w none (appears.absent w (omega arith)))
        ∙ attach_found n (os.usleep 10_000 (os.shm_open name false w).1)
            (omega (arith, appears.passes 10_000 w))
  ]

  -- A segment that appears only after as many sleeps as there are attempts, or more, is given up.
  pub attach_given_up :
      (attempts : ℕ) (w : W) → attempts ≤ delay w → (attach os size attempts name w).0 ≡ none
  unfolding attach
  attach_given_up zero w le = refl
  attach_given_up (suc n) w le =
      ap (λ r. r.0) (step n w none (appears.absent w (omega arith)))
      ∙ attach_given_up n (os.usleep 10_000 (os.shm_open name false w).1)
          (omega (arith, appears.passes 10_000 w))
