-- ===== src/Tests/Late.antt =====
-- Tests of include/mpmc_logger/mpmc_queue.hpp with a registration while items are pushed.
use mpmc_logger.Prelude.{
  ℕ, zero, suc, ◌+◌, ◌≤◌, ◌≡◌, refl, true, List, [], ◌∷◌, ◌++◌, arith, update, replicate,
  if◌then◌else◌, ◌==◌, ltb,
}
use mpmc_logger.Queue.{slot_index, new_queue}
use mpmc_logger.Concurrent.{absorb, idle, System, Consume, waiting, entered, at, consume}
use mpmc_logger.Concurrent.Late.{here, next, LateSystem, LateReach}
use mpmc_logger.Concurrent.LateSchedule.{
  push_turn, pop_turn, register_turn, LateRun, late_fresh, late_run, late_turns, LateTurn,
}
use mpmc_logger.Concurrent.Stuck.{IsStuck, IsStuck-forever}

abbrev many : ℕ → List (LateTurn ℕ) → List (LateTurn ℕ)
many zero ts = []
many (suc k) ts = ts ++ many k ts

-- Consumer 0 registers. A second thread has the number 1 and the head 0 when producer 0 fills the
-- ring, consumer 0 empties it, and producer 0 pushes one item more; then it stores its tail.
abbrev lapped : LateRun {T = ℕ} 16 0
lapped = late_run (late_fresh 16 0) (
    late_turns 4 (register_turn 0)
    ++ (late_turns 2 (register_turn 1)
        ++ (many 16 (late_turns 7 (push_turn 0 5))
            ++ (many 16 (late_turns 5 (pop_turn 0))
                ++ (late_turns 43 (push_turn 0 6) ++ late_turns 2 (register_turn 1))))))

-- Consumer 1 is registered at the first position, which has been overwritten, and the cached
-- minimum is ahead of it.
lapped_facts :
    ((lapped.last.system.memory.consumers 1).active ≡ true)
    × ((lapped.last.system.memory.consumers 1).tail ≡ 0)
    × (lapped.last.system.memory.head ≡ 17)
    × (lapped.last.system.memory.min_tail ≡ 16)
    × ((lapped.last.system.memory.slots 0).sequence ≡ 16)
    × (lapped.last.system.producers 0 ≡ idle)
unfolding late_run new_queue slot_index absorb
lapped_facts = (refl, refl, refl, refl, refl, refl)

beyond : (h t : ℕ) → h ≡ 17 → t ≡ 0 → ¬ (h ≤ t + 16)
beyond h t e f le = omega arith

-- What holds of consumers that are registered before the first call fails in this state.
lapped_fails : ¬ (
    (s : LateSystem ℕ)
    → LateReach 16 0 s
    → (c : ℕ) → (s.system.memory.consumers c).active ≡ true
    → s.system.memory.head ≤ (s.system.memory.consumers c).tail + 16)
lapped_fails all =
    beyond lapped.last.system.memory.head (lapped.last.system.memory.consumers 1).tail
      lapped_facts.2 lapped_facts.1 (all lapped.last lapped.reach 1 lapped_facts.0)

-- The state, written out.
abbrev after_lap : System ℕ
after_lap = record {
  memory = record {
    consumers = λ c. record { tail = if c == 0 then 16 else 0; active = ltb c 2 };
    head = 17;
    num_consumers = 2;
    min_tail = 16;
    slots = λ j.
        if j == 0 then record { sequence = 16; item = 6 } else record { sequence = j; item = 5 };
  };
  producers = λ _. idle;
  consumers = λ _. waiting;
  log = replicate 16 5 ++ (6 ∷ []);
  received = λ c. if c == 0 then replicate 16 5 else [];
}

after_lap-IsStuck : IsStuck 16 1 after_lap
unfolding slot_index
after_lap-IsStuck = record {
  count = refl;
  tail = 0;
  tail_eq = refl;
  lost = record { behind = omega arith; overwritten = λ e. omega arith };
  unheld = λ i e. cc;
  before = tt;
}

-- After a `pop` of the lapped consumer.
abbrev tried : System ℕ
tried = record after_lap {
  consumers = update (update (update after_lap.consumers 1 entered) 1 (at 0)) 1 waiting;
  received = update (update (update after_lap.received 1 []) 1 []) 1 [];
}

IsStuck-forever_example : IsStuck 16 1 tried × (tried.received 1 ≡ [])
unfolding slot_index
IsStuck-forever_example =
    IsStuck-forever 16 1
      (next (next (next here (consume 1 (Consume.enter refl))) (consume 1 Consume.load_tail))
        (consume 1 (Consume.not_ready (λ e. omega arith))))
      after_lap-IsStuck (omega arith)
