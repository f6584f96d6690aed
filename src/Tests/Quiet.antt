-- ===== src/Tests/Quiet.antt =====
-- Tests of include/mpmc_logger/mpmc_queue.hpp with a registration between two calls of `push`.
use mpmc_logger.Prelude.{
  ℕ, ◌+◌, ◌≤◌, ◌≡◌, refl, arith, update, update_elim, update_ne, subst, sym, ◌∙◌,
}
use mpmc_logger.Queue.{new_queue}
use mpmc_logger.Concurrent.{idle, Produce}
use mpmc_logger.Concurrent.Late.{Registrar, outside, counted, headed, placed, Register, LateSystem}
use mpmc_logger.Concurrent.Quiet.{IsPlacing, QuietReach, start, produced, enrolled}
use mpmc_logger.Concurrent.Quiet.Inv.{HasSegment}
use mpmc_logger.Concurrent.Quiet.Safety.{late_in_order}
use mpmc_logger.Tests.Queue.{sixteen}

record QuietRun : Type 0 where
  last : LateSystem ℕ
  reach : QuietReach 16 0 last

-- Consumer 0 registers.
abbrev one_enrolled : QuietRun
unfolding new_queue
one_enrolled = record {
  last = _;
  reach =
      enrolled
        (enrolled
          (enrolled (enrolled start 0 (Register.count (omega arith)) (λ p. absurd p) (omega arith))
            0 Register.load_head (λ p k. refl) (omega arith))
          0 Register.store_tail (λ p k. refl) (omega arith))
        0 Register.activate (λ p. absurd p) (omega arith);
}

outside_elsewhere :
    (a b d : Registrar) (j : ℕ)
    → ¬ IsPlacing (update (update (update (update (λ _. outside) 0 a) 0 b) 0 d) 0 outside j)
outside_elsewhere a b d =
    update_elim (λ j g. ¬ IsPlacing g) _ 0 outside (λ p. p)
      (λ j ne.
        subst (λ g. ¬ IsPlacing g)
          (sym (
            update_ne (update (update (λ _. outside) 0 a) 0 b) 0 j d ne
            ∙ update_ne (update (λ _. outside) 0 a) 0 j b ne
            ∙ update_ne (λ _. outside) 0 j a ne))
          (λ p. p))

calm : (j : ℕ) → ¬ IsPlacing (one_enrolled.last.registrars j)
unfolding one_enrolled new_queue
calm = outside_elsewhere (counted 0) (headed 0 0) (placed 0)

-- Producer 0 pushes an item.
abbrev one_pushed : QuietRun
unfolding new_queue
one_pushed = record {
  last = _;
  reach =
      produced
        (produced
          (produced
            (produced
              (produced
                (produced (produced one_enrolled.reach calm 0 (Produce.call 5)) calm 0
                  Produce.load_head)
                calm 0 Produce.load_min_tail)
              calm 0 (Produce.room refl))
            calm 0 (Produce.win refl))
          calm 0 Produce.copy)
        calm 0 Produce.publish;
}

resting : (k : ℕ) → one_pushed.last.system.producers k ≡ idle
unfolding one_pushed one_enrolled new_queue
resting k = ground arith

-- Consumer 1 registers, at the second position.
abbrev both_enrolled : QuietRun
unfolding new_queue
both_enrolled = record {
  last = _;
  reach =
      enrolled
        (enrolled
          (enrolled
            (enrolled one_pushed.reach 0 (Register.count (omega arith)) (λ p. absurd p)
              (omega arith))
            0 Register.load_head (λ p. resting) (omega arith))
          0 Register.store_tail (λ p. resting) (omega arith))
        0 Register.activate (λ p. absurd p) (omega arith);
}

late_in_order_example :
    HasSegment both_enrolled.last.system 1
    × (1 ≤ (both_enrolled.last.system.memory.consumers 1).tail + 16)
    × (both_enrolled.last.system.memory.min_tail
        ≤ (both_enrolled.last.system.memory.consumers 1).tail)
unfolding new_queue
late_in_order_example = late_in_order sixteen both_enrolled.reach (omega arith) 1 refl

late_tail : (both_enrolled.last.system.memory.consumers 1).tail ≡ 1
unfolding new_queue
late_tail = refl
