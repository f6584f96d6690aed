-- ===== src/Tests/Contention.antt =====
-- Tests of bench/bench_contention.cpp: one producer with one entry, and one consumer.
use mpmc_logger.Prelude.{ℕ, ◌≤◌, ◌≡◌, refl, false, [], ◌∷◌, arith}
use mpmc_logger.Queue.{is_full, slot_index, new_queue, register_consumer}
use mpmc_logger.Queue.Inv.{slot_of}
use mpmc_logger.Concurrent.{registered, Produce, Consume}
use mpmc_logger.Bench.Contention.{
  Plan, total, consumer_scaling, Contention, ContentionReach, start, later, push_step, pop_step,
}
use mpmc_logger.Bench.Contention.Outcome.{push_finds_room, counted_entries, pop_goes_on}
use mpmc_logger.Tests.Queue.{sixteen}

-- The producers of `BM_ConsumerScaling` push fewer entries than the queue has slots.
fits_in_ring : total (consumer_scaling 8) ≤ 1048576
fits_in_ring = omega arith

abbrev single : Plan
single = record { num_producers = 1; ops_per_producer = 1; num_consumers = 1 }

record ContentionRun : Type 0 where
  last : Contention ℕ
  reach : ContentionReach 16 single 5 0 last

abbrev compared_run : ContentionRun
unfolding registered new_queue register_consumer
compared_run = record {
  last = _;
  reach =
      later
        (later (later start (push_step 0 (omega arith) (Produce.call 5) (λ e. (refl, omega arith))))
          (push_step 0 (omega arith) Produce.load_head (λ e. absurd cc)))
        (push_step 0 (omega arith) Produce.load_min_tail (λ e. absurd cc));
}

push_finds_room_example : is_full 16 0 0 ≡ false
unfolding registered new_queue register_consumer
push_finds_room_example =
    push_finds_room sixteen compared_run.reach (omega arith) (omega arith) 0 5 0 0 (omega arith)
      (omega arith) refl

abbrev pushed_run : ContentionRun
unfolding registered new_queue register_consumer
pushed_run = record {
  last = _;
  reach =
      later
        (later
          (later
            (later compared_run.reach
              (push_step 0 (omega arith) (Produce.room refl) (λ e. absurd cc)))
            (push_step 0 (omega arith) (Produce.win refl) (λ e. absurd cc)))
          (push_step 0 (omega arith) Produce.copy (λ e. absurd cc)))
        (push_step 0 (omega arith) Produce.publish (λ e. absurd cc));
}

pop_goes_on_example :
    ((slot_of 16 pushed_run.last.system.memory
        (pushed_run.last.system.memory.consumers 0).tail).sequence
      ≡ (pushed_run.last.system.memory.consumers 0).tail)
    × ((slot_of 16 pushed_run.last.system.memory
          (pushed_run.last.system.memory.consumers 0).tail).item
        ≡ 5)
unfolding registered new_queue register_consumer
pop_goes_on_example =
    pop_goes_on sixteen pushed_run.reach (omega arith) (omega arith) 0 (λ i lt. ground arith)
      (omega arith) (omega arith)

abbrev popped_run : ContentionRun
unfolding registered new_queue register_consumer slot_index
popped_run = record {
  last = _;
  reach =
      later
        (later
          (later
            (later
              (later pushed_run.reach
                (pop_step 0 (omega arith) (omega arith) (Consume.enter refl) refl))
              (pop_step 0 (omega arith) (omega arith) Consume.load_tail refl))
            (pop_step 0 (omega arith) (omega arith) (Consume.is_ready {t = 0} refl) refl))
          (pop_step 0 (omega arith) (omega arith) (Consume.read {t = 0}) refl))
        (pop_step 0 (omega arith) (omega arith) Consume.store_tail refl);
}

counted_entries_example : (popped_run.last.system.received 0 ≡ 5 ∷ []) × (1 ≤ 1)
unfolding registered new_queue register_consumer slot_index
counted_entries_example = counted_entries sixteen popped_run.reach (omega arith) (omega arith) 0
