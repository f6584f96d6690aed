-- ===== src/Tests/Concurrent.antt =====
-- Tests of include/mpmc_logger/mpmc_queue.hpp with its threads.
use mpmc_logger.Prelude.{
  ℕ, ◌+◌, ◌≤◌, ◌≡◌, ◌≢◌, refl, some, [], ◌∷◌, ◌++◌, arith, length, take, get_elem?,
}
use mpmc_logger.Queue.{slot_index, register_consumer, new_queue}
use mpmc_logger.Queue.Inv.{slot_of}
use mpmc_logger.Concurrent.{registered, absorb}
use mpmc_logger.Concurrent.Schedule.{push_turn, pop_turn, Run, fresh, run, turns}
use mpmc_logger.Concurrent.Safety.{
  received_in_order, producers_apart, consumer_undisturbed, next_item_ready, never_lapped,
}
use mpmc_logger.Tests.Queue.{sixteen}

-- Producers 0 and 1 both load the head; 0 wins and is about to copy, 1 has lost and starts again
-- and claims the next position. Producer 2 has published nothing.
abbrev racing : Run {T = ℕ} 16 0 1
racing = run (fresh 16 0 1) (
    turns 3 (push_turn 0 5)
    ++ (turns 4 (push_turn 1 6) ++ (turns 2 (push_turn 0 5) ++ turns 5 (push_turn 1 6))))

racing_log : racing.log ≡ 5 ∷ 6 ∷ []
unfolding run registered register_consumer new_queue slot_index absorb
racing_log = refl

-- Item 5 is published; the consumer is about to copy it out; producers 1 and 2 have claimed the
-- next two positions.
abbrev busy : Run {T = ℕ} 16 0 1
busy = run (fresh 16 0 1) (
    turns 7 (push_turn 0 5)
    ++ (turns 3 (pop_turn 0) ++ (turns 5 (push_turn 1 6) ++ turns 5 (push_turn 2 7))))

-- One item, pushed and popped.
abbrev served : Run {T = ℕ} 16 0 1
served = run (fresh 16 0 1) (turns 7 (push_turn 0 5) ++ turns 5 (pop_turn 0))

-- One item, pushed.
abbrev waiting_item : Run {T = ℕ} 16 0 1
waiting_item = run (fresh 16 0 1) (turns 7 (push_turn 0 5))

received_in_order_example :
    (served.received 0 ≡ take (served.memory.consumers 0).tail served.log)
    × ((served.memory.consumers 0).tail ≤ length served.log)
unfolding run registered register_consumer new_queue slot_index absorb
received_in_order_example = received_in_order sixteen served.reach (omega arith) 0

served_received : served.received 0 ≡ 5 ∷ []
unfolding run registered register_consumer new_queue slot_index absorb
served_received = refl

producers_apart_example : slot_index 16 1 ≢ slot_index 16 2
unfolding run registered register_consumer new_queue slot_index absorb
producers_apart_example =
    producers_apart sixteen busy.reach (omega arith) 1 2 1 2 refl refl (omega arith)

consumer_undisturbed_example : slot_index 16 1 ≢ slot_index 16 0
unfolding run registered register_consumer new_queue slot_index absorb
consumer_undisturbed_example =
    consumer_undisturbed sixteen busy.reach (omega arith) 1 0 1 0 refl refl

next_item_ready_example :
    ((slot_of 16 waiting_item.memory (waiting_item.memory.consumers 0).tail).sequence
      ≡ (waiting_item.memory.consumers 0).tail)
    × (get_elem? waiting_item.log (waiting_item.memory.consumers 0).tail
        ≡ some (slot_of 16 waiting_item.memory (waiting_item.memory.consumers 0).tail).item)
unfolding run registered register_consumer new_queue slot_index absorb
next_item_ready_example =
    next_item_ready sixteen waiting_item.reach (omega arith) 0 refl (omega arith)
      (λ i. ground arith)

never_lapped_example :
    (length busy.log ≤ (busy.memory.consumers 0).tail + 16)
    × (busy.memory.min_tail ≤ (busy.memory.consumers 0).tail)
unfolding run registered register_consumer new_queue slot_index absorb
never_lapped_example = never_lapped sixteen busy.reach (omega arith) 0 refl
