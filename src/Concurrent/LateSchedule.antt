-- ===== src/Concurrent/LateSchedule.antt =====
-- mpmc_queue.hpp with registrations at any time: states that are reached, by running the threads in
-- a given order.
use mpmc_logger.Prelude.{ℕ, zero, suc, Option, none, some, List, [], ◌∷◌, dec_lt}
use mpmc_logger.Queue.{MpmcQueue, max_consumers}
use mpmc_logger.Concurrent.{produce, consume}
use mpmc_logger.Concurrent.Schedule.{next_move, next_take}
use mpmc_logger.Concurrent.Late.{
  Registrar, outside, counted, headed, placed, Register, LateSystem, act, register, LateReach,
  start, later,
}

module _ {ℓ} {T : Type ℓ} where
  next_registration :
      (q : MpmcQueue T) (g : Registrar)
      → Option ((q' : MpmcQueue T) × (g' : Registrar) × Register q g q' g')
  unfolding dec_lt
  next_registration q outside = elim (dec_lt q.num_consumers max_consumers) [
    | yes lt ↦ some (_, _, Register.count lt)
    | no ge ↦ none
  ]
  next_registration q (counted id) = some (_, _, Register.load_head)
  next_registration q (headed id h) = some (_, _, Register.store_tail)
  next_registration q (placed id) = some (_, _, Register.activate)

-- Whose turn it is.
pub data LateTurn {ℓ} (T : Type ℓ) : Type ℓ where
  push_turn : (i : ℕ) (x : T) → LateTurn T
  pop_turn : (c : ℕ) → LateTurn T
  register_turn : (i : ℕ) → LateTurn T

pub record LateRun {ℓ} {T : Type ℓ} (size : ℕ) (blank : T) : Type ℓ where
  pub last : LateSystem T
  pub reach : LateReach size blank last

module _ {ℓ} {T : Type ℓ} {size : ℕ} {blank : T} where
  late_turn : LateRun {T = T} size blank → LateTurn T → LateRun {T = T} size blank
  unfolding next_move next_take next_registration
  late_turn r (push_turn i x) =
      elim (next_move size x r.last.system.memory (r.last.system.producers i)) [
        | none ↦ r
        | some (q, p, xs, st) ↦ record { last = _; reach = later r.reach (act (produce i st)) }
      ]
  late_turn r (pop_turn c) =
      elim (next_take size c r.last.system.memory (r.last.system.consumers c)) [
        | none ↦ r
        | some (q, p, xs, st) ↦ record { last = _; reach = later r.reach (act (consume c st)) }
      ]
  late_turn r (register_turn i) =
      elim (next_registration r.last.system.memory (r.last.registrars i)) [
        | none ↦ r
        | some (q, g, st) ↦ record { last = _; reach = later r.reach (register i st) }
      ]

  unfoldable pub late_run :
      LateRun {T = T} size blank → List (LateTurn T) → LateRun {T = T} size blank
  unfolding late_turn
  late_run r [] = r
  late_run r (t ∷ ts) = late_run (late_turn r t) ts

abbrev pub late_fresh {ℓ} : {T : Type ℓ} (size : ℕ) (blank : T) → LateRun {T = T} size blank
late_fresh size blank = record { last = _; reach = start }

-- `k` turns of the same thread.
abbrev pub late_turns {ℓ} : {T : Type ℓ} → ℕ → LateTurn T → List (LateTurn T)
late_turns zero t = []
late_turns (suc k) t = t ∷ late_turns k t
