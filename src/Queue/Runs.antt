-- ===== src/Queue/Runs.antt =====
-- mpmc_queue.hpp: whole runs of calls, and the registration of consumers.
use mpmc_logger.Prelude.{
  lt→leb_false, ℕ, suc, ◌+◌, ◌≤◌, ◌<◌, ◌≡◌, refl, true, none, some, List, [], ◌∷◌, ◌++◌, arith,
  length, update, leb, length-append, dec_lt,
}
use mpmc_logger.Broadcast
use mpmc_logger.Broadcast.{Broadcast, Call, put, get, Reply, pushed, popped}
use mpmc_logger.Queue.{IsSize, MpmcQueue, invalid_pos, max_consumers, push, pop, register_consumer}
use mpmc_logger.Queue.Inv.{Fits}
use mpmc_logger.Queue.Push.{Idle, view, push-Pushed}
use mpmc_logger.Queue.Refine.{push_refines, pop_refines}

ge→leb : {a b : ℕ} → ¬ (a < b) → leb b a ≡ true
ge→leb h = ground arith

-- The calls of a script that put an item.
unfoldable pub puts {ℓ} : {T : Type ℓ} → List (Call T) → ℕ
puts [] = 0
puts (put x ∷ calls) = suc (puts calls)
puts (get id ∷ calls) = puts calls

unfoldable pub run {ℓ} : {T : Type ℓ} → ℕ → MpmcQueue T → List (Call T) → List (Reply T)
run size q [] = []
run size q (put x ∷ calls) = let (ok, q') = push size x q in pushed ok ∷ run size q' calls
run size q (get id ∷ calls) = let (out, q') = pop size id q in popped out ∷ run size q' calls

module _ {ℓ} {T : Type ℓ} {size : ℕ} (v : IsSize size) where
  active-push :
      (c : ℕ) (x : T) {q : MpmcQueue T} {log : List T}
      → Fits size (log ++ (x ∷ []))
      → Idle size q log
      → (q.consumers c).active ≡ true
      → ((push size x q).1.consumers c).active ≡ true
  active-push c x fits core on = rw (push-Pushed v x fits core).same_readers on

  active-pop :
      (c d : ℕ) (q : MpmcQueue T)
      → (q.consumers c).active ≡ true
      → ((pop size d q).1.consumers c).active ≡ true
  unfolding pop
  active-pop c d q on = ground arith

  -- Beside an active consumer, and with fewer than 2^64 - 1 - SIZE items, every sequence of calls of
  -- `push` and `pop` answers as the broadcast log that specifies the queue.
  pub run_refines :
      (calls : List (Call T)) {q : MpmcQueue T} {log : List T} (c : ℕ)
      → length log + puts calls + size < invalid_pos
      → Idle size q log
      → (q.consumers c).active ≡ true
      → run size q calls ≡ Broadcast.run size (view q log) calls
  unfolding run Broadcast.run puts
  run_refines [] c fits core on = refl
  run_refines (put x ∷ calls) {q} {log} c fits core on =
      let room : Fits size (log ++ (x ∷ [])) = omega (arith, length-append log (x ∷ [])) in
      let (log', grown, kept, same) = push_refines v c x room core on in
      rw
        (run_refines calls {log = log'} c (omega arith) kept (active-push c x room core on), ← same)
  run_refines (get d ∷ calls) {q} {log} c fits core on =
      let (kept, same) = pop_refines v d (omega arith) core in
      rw (run_refines calls c (omega arith) kept (active-pop c d q on), ← same)

  module _ {q : MpmcQueue T} {log : List T} (core : Idle size q log) (n : ℕ) where
    recount-Idle : Idle size (record q { num_consumers = n }) log
    recount-Idle = record {
      count = core.count;
      ids = core.ids;
      tail_le = core.tail_le;
      tail_held = core.tail_held;
      window_tail = core.window_tail;
      held_lt = core.held_lt;
      window_held = core.window_held;
      unique = core.unique;
      behind = record {
        le_head = core.behind.le_head;
        le_tail = core.behind.le_tail;
        le_held = core.behind.le_held;
      };
      seq_lt = core.seq_lt;
      unpublished = core.unpublished;
      published = core.published;
    }

    enrol-Idle :
        {id : ℕ}
        → id < max_consumers
        → Idle size
            (record q {
              num_consumers = n;
              consumers = update q.consumers id (record { tail = q.head; active = true });
            })
            log
    enrol-Idle {id} lt = record {
      count = core.count;
      ids = λ c on. ground (arith, core.ids c);
      tail_le = λ c. ground (arith, core.tail_le c);
      tail_held = λ c i h e. cc;
      window_tail = λ c on. ground (arith, core.window_tail c);
      held_lt = core.held_lt;
      window_held = core.window_held;
      unique = core.unique;
      behind = record {
        le_head = core.behind.le_head;
        le_tail = λ c on. ground (arith, core.behind.le_tail c, core.behind.le_head);
        le_held = core.behind.le_held;
      };
      seq_lt = core.seq_lt;
      unpublished = core.unpublished;
      published = core.published;
    }

  -- Between calls, a registration before the 33rd returns the number of the consumer, makes it
  -- active at the head, and keeps the invariant with the same log.
  pub register_consumer-Idle :
      {q : MpmcQueue T} {log : List T}
      → Idle size q log
      → q.num_consumers < max_consumers
      → Idle size (register_consumer q).1 log
        × ((register_consumer q).0 ≡ some q.num_consumers)
        × (((register_consumer q).1.consumers q.num_consumers).active ≡ true)
        × (((register_consumer q).1.consumers q.num_consumers).tail ≡ length log)
  unfolding register_consumer
  register_consumer-Idle {q} {log} core lt =
      rw (lt→leb_false lt) (enrol-Idle core _ lt, refl, ground arith, ground (arith, core.count))

  -- Whether it is accepted or not, a registration keeps the invariant.
  pub register_consumer_keeps :
      {q : MpmcQueue T} {log : List T} → Idle size q log → Idle size (register_consumer q).1 log
  unfolding register_consumer
  register_consumer_keeps {q} {log} core = elim (dec_lt q.num_consumers max_consumers) [
    | yes lt ↦ rw (lt→leb_false lt) (enrol-Idle core _ lt)
    | no ge ↦ rw (ge→leb ge) (recount-Idle core _)
  ]

  -- The 33rd registration is refused; the invariant holds with the same log, and no consumer has
  -- changed.
  pub register_consumer_refused :
      {q : MpmcQueue T} {log : List T}
      → Idle size q log
      → max_consumers ≤ q.num_consumers
      → Idle size (register_consumer q).1 log
        × ((register_consumer q).0 ≡ none)
        × ((register_consumer q).1.consumers ≡ q.consumers)
  unfolding register_consumer
  register_consumer_refused {q} {log} core ge =
      rw (ge→leb {a = q.num_consumers} {b = max_consumers} (omega arith))
        (recount-Idle core _, refl, refl)
