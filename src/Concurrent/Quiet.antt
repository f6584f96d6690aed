-- ===== src/Concurrent/Quiet.antt =====
-- mpmc_queue.hpp: registrations at any time during which no producer is inside a call, from the load
-- of the head to the end. Consumers go on meanwhile.
pub mod Registers
pub mod Inv
pub mod Enrol
pub mod Safety
use mpmc_logger.Prelude.{ℕ, ◌+◌, ◌<◌, ◌≡◌, Option, none, some, List, [], ◌++◌, update}
use mpmc_logger.Queue.{MpmcQueue, u32_mod}
use mpmc_logger.Concurrent.{Producer, idle, Produce, Consumer, Consume, System}
use mpmc_logger.Concurrent.Late.{
  Registrar, outside, counted, headed, placed, Register, LateSystem, unregistered,
}

-- Between the load of the head and the end.
abbrev pub IsPlacing : Registrar → Type 0
IsPlacing outside = ⊥
IsPlacing (counted id) = ⊥
IsPlacing (headed id h) = Unit
IsPlacing (placed id) = Unit

-- From a new queue. The counter of the consumers has not wrapped around.
pub data QuietReach {ℓ} {T : Type ℓ} (size : ℕ) (blank : T) : LateSystem T → Type ℓ where
  start : QuietReach size blank (unregistered blank)
  produced :
      {s : LateSystem T}
      → QuietReach size blank s
      → ((j : ℕ) → ¬ IsPlacing (s.registrars j))
      → (i : ℕ) {q : MpmcQueue T} {p : Producer T} {xs : List T}
      → Produce size s.system.memory (s.system.producers i) q p xs
      → QuietReach size blank (record s {
        system = record s.system {
          memory = q;
          producers = update s.system.producers i p;
          log = s.system.log ++ xs;
        };
      })
  consumed :
      {s : LateSystem T}
      → QuietReach size blank s
      → (c : ℕ) {q : MpmcQueue T} {p : Consumer T} {xs : List T}
      → Consume size c s.system.memory (s.system.consumers c) q p xs
      → QuietReach size blank (record s {
        system = record s.system {
          memory = q;
          consumers = update s.system.consumers c p;
          received = update s.system.received c (s.system.received c ++ xs);
        };
      })
  enrolled :
      {s : LateSystem T}
      → QuietReach size blank s
      → (i : ℕ) {q : MpmcQueue T} {g : Registrar} → Register s.system.memory (s.registrars i) q g
      → (IsPlacing g → (k : ℕ) → s.system.producers k ≡ idle)
      → s.system.memory.num_consumers + 1 < u32_mod
      → QuietReach size blank (record s {
        system = record s.system { memory = q };
        registrars = update s.registrars i g;
      })
