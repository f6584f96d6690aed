-- ===== src/Tests/Queue.antt =====
-- Tests of include/mpmc_logger/mpmc_queue.hpp, one call at a time.
use mpmc_logger.Prelude.{
  ℕ, zero, suc, ◌≡◌, refl, true, false, none, some, List, [], ◌∷◌, ◌++◌, arith,
}
use mpmc_logger.Broadcast
use mpmc_logger.Broadcast.{Call, put, get, pushed, popped}
use mpmc_logger.Queue.{
  IsSize, MpmcQueue, new_queue, register_consumer, slot_index, compute_min_tail, scan_tails,
  refresh_min_tail, push, pop, max_consumers,
}
use mpmc_logger.Queue.Push.{Idle, view, new_queue-Idle, refused}
use mpmc_logger.Queue.Lagging.{refused-eq-lagging}
use mpmc_logger.Queue.Runs.{run, puts, run_refines, register_consumer_keeps}

abbrev pub sixteen : IsSize 16
sixteen = record { power = refl; large = omega arith }

abbrev pub ring : MpmcQueue ℕ
ring = (register_consumer (new_queue 0)).1

ring-Idle : Idle 16 ring []
ring-Idle = register_consumer_keeps sixteen (new_queue-Idle sixteen 0)

ring-active : (ring.consumers 0).active ≡ true
unfolding register_consumer new_queue
ring-active = refl

-- Two calls of `pop` at the end, the second with nothing to read.
abbrev pub script : List (Call ℕ)
script = put 7 ∷ put 8 ∷ get 0 ∷ get 0 ∷ get 0 ∷ []

run-script :
    run 16 ring script
    ≡ pushed true ∷ pushed true ∷ popped (some 7) ∷ popped (some 8) ∷ popped none ∷ []
unfolding run push pop register_consumer new_queue slot_index compute_min_tail refresh_min_tail
run-script = refl

abbrev fill : ℕ → List (Call ℕ) → List (Call ℕ)
fill zero calls = calls
fill (suc n) calls = put n ∷ fill n calls

-- The seventeenth item is refused until the consumer has read one.
run_full :
    run 16 ring (fill 16 (put 17 ∷ get 0 ∷ put 17 ∷ put 18 ∷ []))
    ≡ run 16 ring (fill 16 [])
      ++ (pushed false ∷ popped (some 15) ∷ pushed true ∷ pushed false ∷ [])
unfolding run push pop register_consumer new_queue slot_index compute_min_tail refresh_min_tail
    scan_tails
run_full = refl

run_refines_example : run 16 ring script ≡ Broadcast.run 16 (view ring []) script
unfolding puts
run_refines_example = run_refines sixteen script 0 (omega arith) ring-Idle ring-active

refused-eq-lagging_example : refused 16 ring ≡ Broadcast.lagging 16 max_consumers (view ring [])
refused-eq-lagging_example = refused-eq-lagging sixteen 0 (omega arith) ring-Idle ring-active

abbrev crowded : ℕ → MpmcQueue ℕ
crowded zero = new_queue 0
crowded (suc n) = (register_consumer (crowded n)).1

crowded-Idle : (n : ℕ) → Idle 16 (crowded n) []
crowded-Idle zero = new_queue-Idle sixteen 0
crowded-Idle (suc n) = register_consumer_keeps sixteen (crowded-Idle n)
