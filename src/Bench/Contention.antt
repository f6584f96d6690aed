-- ===== src/Bench/Contention.antt =====
-- bench/bench_contention.cpp: one iteration of `BM_ConsumerScaling`. The threads of the benchmark
-- make the steps of `Concurrent`: producers that push their entries, consumers that count what they
-- pop, and a helper that recomputes the cached minimum. `join` is the main thread.
pub mod Thread
pub mod Accounts
pub mod Outcome
use mpmc_logger.Prelude.{
  ℕ, zero, suc, ◌+◌, ◌-◌, ◌*◌, ◌<◌, ◌≡◌, ◌≢◌, ◌⊎◌, Bool, true, false, List, [], ◌∷◌, ◌++◌, length,
  update, codes, drop,
}
use mpmc_logger.Queue.{MpmcQueue}
use mpmc_logger.Entry.{LogEntry, lvl_info, new_entry}
use mpmc_logger.Concurrent.{
  Producer, idle, begin, scanning, for_refresh, written, Produce, Consumer, waiting, Consume,
  System, registered,
}
use mpmc_logger.Queue.{no_mins}

-- The entry of the producers, in memory that held `memory`.
unfoldable pub make_cons_entry : List ℕ → LogEntry
make_cons_entry memory =
    let e = new_entry memory in
    record e {
      timestamp_ns = 0;
      thread_id = 1;
      level = lvl_info;
      payload_len = 4;
      payload = codes "cons" ++ drop 4 e.payload;
    }

-- NUM_PRODUCERS, OPS_PER_PRODUCER and the number of consumers.
pub record Plan : Type 0 where
  pub num_producers : ℕ
  pub ops_per_producer : ℕ
  pub num_consumers : ℕ

abbrev pub consumer_scaling : ℕ → Plan
consumer_scaling num_consumers = record {
  num_producers = 4;
  ops_per_producer = 200000;
  num_consumers = num_consumers;
}

abbrev pub total : Plan → ℕ
total plan = plan.num_producers * plan.ops_per_producer

-- The queue with its threads, the pushes that each producer has left, the counts of the consumers,
-- `producers_done`, and the rounds that the helper has left after it.
pub record Contention {ℓ} (T : Type ℓ) : Type ℓ where
  pub system : System T
  pub left : ℕ → ℕ
  pub counts : ℕ → ℕ
  pub producers_done : Bool
  pub rounds : ℕ

-- `push` returns `true` after its store of the sequence number; then the loop goes on to the next
-- entry. After `false` it tries again.
abbrev pub after_step {ℓ} : {T : Type ℓ} → Producer T → ℕ → ℕ
after_step (written x h) n = n - 1
after_step _ n = n

-- Once the producers have been joined, each call of the helper is one of its last rounds.
abbrev pub next_rounds {ℓ} : {T : Type ℓ} → Producer T → Bool → ℕ → ℕ
next_rounds idle true n = n - 1
next_rounds _ done n = n

module _ {ℓ} {T : Type ℓ} (size : ℕ) (plan : Plan) (entry : T) where
  pub data ContentionStep (s : Contention T) : Contention T → Type ℓ where
    -- A step of a producer's loop: it calls `push` with its entry, as long as it has one left.
    push_step :
        (i : ℕ) {q : MpmcQueue T} {p : Producer T} {xs : List T}
        → i < plan.num_producers
        → Produce size s.system.memory (s.system.producers i) q p xs
        → (s.system.producers i ≡ idle → (p ≡ begin entry) × (0 < s.left i))
        → ContentionStep s (record s {
          system = record s.system {
            memory = q;
            producers = update s.system.producers i p;
            log = s.system.log ++ xs;
          };
          left = update s.left i (after_step (s.system.producers i) (s.left i));
        })
    -- A step of `pop`, while the count is below TOTAL. Nobody is unregistered.
    pop_step :
        (c : ℕ) {q : MpmcQueue T} {p : Consumer T} {xs : List T}
        → c < plan.num_consumers
        → s.counts c < total plan
        → Consume size c s.system.memory (s.system.consumers c) q p xs
        → (q.consumers c).active ≡ true
        → ContentionStep s (record s {
          system = record s.system {
            memory = q;
            consumers = update s.system.consumers c p;
            received = update s.system.received c (s.system.received c ++ xs);
          };
          counts = update s.counts c (s.counts c + length xs);
        })
    -- A step of the helper, which has the number after the producers'.
    helper_step :
        {q : MpmcQueue T} {p : Producer T} {xs : List T}
        → Produce size s.system.memory (s.system.producers plan.num_producers) q p xs
        → (s.system.producers plan.num_producers ≡ idle
            → (p ≡ scanning for_refresh 0 no_mins) × ((s.producers_done ≡ false) ⊎ (0 < s.rounds)))
        → ContentionStep s (record s {
          system = record s.system {
            memory = q;
            producers = update s.system.producers plan.num_producers p;
            log = s.system.log ++ xs;
          };
          rounds = next_rounds (s.system.producers plan.num_producers) s.producers_done s.rounds;
        })
    join :
        ((i : ℕ) → i < plan.num_producers → (s.left i ≡ 0) × (s.system.producers i ≡ idle))
        → ContentionStep s (record s { producers_done = true })

  pub data ContentionReach (blank : T) : Contention T → Type ℓ where
    start : ContentionReach blank (record {
      system = record {
        memory = registered blank plan.num_consumers;
        producers = λ _. idle;
        consumers = λ _. waiting;
        log = [];
        received = λ _. [];
      };
      left = λ _. plan.ops_per_producer;
      counts = λ _. 0;
      producers_done = false;
      rounds = 1000;
    })
    later :
        {s t : Contention T}
        → ContentionReach blank s
        → ContentionStep s t
        → ContentionReach blank t
