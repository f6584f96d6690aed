-- ===== src/Concurrent/Schedule.antt =====
-- mpmc_queue.hpp with its threads: states that are reached, by running the threads in a given order.
use mpmc_logger.Prelude.{
  ℕ, zero, suc, ◌≡◌, refl, ◌⊎◌, inl, inr, Bool, true, false, Option, none, some, List, [], ◌∷◌,
  ℕ_discrete, dec_lt,
}
use mpmc_logger.Queue.{MpmcQueue, is_full, slot_index, max_consumers}
use mpmc_logger.Concurrent.{
  for_push, for_refresh, Producer, idle, begin, loaded, compared, scanning, reading, scanned,
  rechecked, ready, claimed, written, Produce, Consumer, waiting, entered, at, matched, copied,
  Consume, System, produce, consume, Reach, start, later,
}

-- As `Bool-cases`, but it runs.
abbrev split_on : (b : Bool) → (b ≡ true) ⊎ (b ≡ false)
split_on true = inl refl
split_on false = inr refl

module _ {ℓ} {T : Type ℓ} (size : ℕ) where
  abbrev pub Next : MpmcQueue T → Producer T → Type ℓ
  Next q p = (q' : MpmcQueue T) × (p' : Producer T) × (xs : List T) × Produce size q p q' p' xs

  -- An idle producer takes up item `x`.
  unfoldable pub next_move : (x : T) (q : MpmcQueue T) (p : Producer T) → Option (Next q p)
  unfolding dec_lt ℕ_discrete
  next_move x q idle = some (_, _, _, Produce.call x)
  next_move x q (begin y) = some (_, _, _, Produce.load_head)
  next_move x q (loaded y h) = some (_, _, _, Produce.load_min_tail)
  next_move x q (compared y h m) = elim (split_on (is_full size h m)) [
    | inl yes_full ↦ some (_, _, _, Produce.full yes_full)
    | inr not_full ↦ some (_, _, _, Produce.room not_full)
  ]
  next_move x q (scanning g i m) = elim (dec_lt i max_consumers) [
    | yes lt ↦ elim (split_on (q.consumers i).active) [
      | inl on ↦ some (_, _, _, Produce.see lt on)
      | inr off ↦ some (_, _, _, Produce.skip lt off)
    ]
    | no ge ↦ elim (ℕ_discrete i max_consumers) [
      | yes e ↦ some (_, _, _, Produce.finish e)
      | no ne ↦ none
    ]
  ]
  next_move x q (reading g i m) = some (_, _, _, Produce.read_tail)
  next_move x q (scanned (for_push y h m) found) = elim (ℕ_discrete found m) [
    | yes e ↦ some (_, _, _, Produce.keep_min_tail e)
    | no ne ↦ some (_, _, _, Produce.store_min_tail ne)
  ]
  next_move x q (scanned for_refresh found) = some (_, _, _, Produce.store_refresh)
  next_move x q (rechecked y h m) = elim (split_on (is_full size h m)) [
    | inl yes_full ↦ some (_, _, _, Produce.refuse yes_full)
    | inr not_full ↦ some (_, _, _, Produce.room_now not_full)
  ]
  next_move x q (ready y h) = elim (ℕ_discrete q.head h) [
    | yes e ↦ some (_, _, _, Produce.win e)
    | no ne ↦ some (_, _, _, Produce.lose)
  ]
  next_move x q (claimed y h) = some (_, _, _, Produce.copy)
  next_move x q (written y h) = some (_, _, _, Produce.publish)

  abbrev pub Take : ℕ → MpmcQueue T → Consumer T → Type ℓ
  Take c q p = (q' : MpmcQueue T) × (p' : Consumer T) × (xs : List T) × Consume size c q p q' p' xs

  unfoldable pub next_take : (c : ℕ) (q : MpmcQueue T) (p : Consumer T) → Option (Take c q p)
  unfolding ℕ_discrete
  next_take c q waiting = elim (split_on (q.consumers c).active) [
    | inl on ↦ some (_, _, _, Consume.enter on)
    | inr off ↦ none
  ]
  next_take c q entered = some (_, _, _, Consume.load_tail)
  next_take c q (at t) = elim (ℕ_discrete (q.slots (slot_index size t)).sequence t) [
    | yes e ↦ some (_, _, _, Consume.is_ready e)
    | no ne ↦ some (_, _, _, Consume.not_ready ne)
  ]
  next_take c q (matched t) = some (_, _, _, Consume.read)
  next_take c q (copied t x) = some (_, _, _, Consume.store_tail)

-- Whose turn it is.
pub data Turn {ℓ} (T : Type ℓ) : Type ℓ where
  push_turn : (i : ℕ) (x : T) → Turn T
  pop_turn : (c : ℕ) → Turn T

pub record Run {ℓ} {T : Type ℓ} (size : ℕ) (blank : T) (n : ℕ) : Type ℓ where
  pub last : System T
  pub open last use *
  pub reach : Reach size blank n last

module _ {ℓ} {T : Type ℓ} {size : ℕ} {blank : T} {n : ℕ} where
  turn : Run size blank n → Turn T → Run size blank n
  unfolding next_move next_take
  turn r (push_turn i x) = elim (next_move size x r.memory (r.producers i)) [
    | none ↦ r
    | some (q, p, xs, st) ↦ record { last = _; reach = later r.reach (produce i st) }
  ]
  turn r (pop_turn c) = elim (next_take size c r.memory (r.consumers c)) [
    | none ↦ r
    | some (q, p, xs, st) ↦ record { last = _; reach = later r.reach (consume c st) }
  ]

  unfoldable pub run : Run size blank n → List (Turn T) → Run size blank n
  unfolding turn
  run r [] = r
  run r (t ∷ ts) = run (turn r t) ts

abbrev pub fresh {ℓ} : {T : Type ℓ} (size : ℕ) (blank : T) (n : ℕ) → Run size blank n
fresh size blank n = record { last = _; reach = start }

-- `k` turns of the same thread.
abbrev pub turns {ℓ} : {T : Type ℓ} → ℕ → Turn T → List (Turn T)
turns zero t = []
turns (suc k) t = t ∷ turns k t
