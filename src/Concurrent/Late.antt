-- ===== src/Concurrent/Late.antt =====
-- mpmc_queue.hpp: `register_consumer` while other threads use the queue. Its counter, its load of the
-- head and its two stores are a step each, as in `Concurrent`.
use mpmc_logger.Prelude.{ℕ, ◌+◌, ◌%◌, ◌≤◌, ◌<◌, true, [], update}
use mpmc_logger.Queue.{MpmcQueue, max_consumers, u32_mod, new_queue}
use mpmc_logger.Concurrent.{idle, waiting, System, Step}

-- Where a thread stands in `register_consumer`.
pub data Registrar : Type 0 where
  outside : Registrar
  counted : (id : ℕ) → Registrar
  headed : (id head : ℕ) → Registrar
  placed : (id : ℕ) → Registrar

abbrev pub count_one {ℓ} : {T : Type ℓ} → MpmcQueue T → MpmcQueue T
count_one q = record q { num_consumers = (q.num_consumers + 1) % u32_mod }

abbrev pub place_tail {ℓ} : {T : Type ℓ} → (id head : ℕ) → MpmcQueue T → MpmcQueue T
place_tail id head q = record q {
  consumers = update q.consumers id (record (q.consumers id) { tail = head });
}

abbrev pub activate_consumer {ℓ} : {T : Type ℓ} → ℕ → MpmcQueue T → MpmcQueue T
activate_consumer id q = record q {
  consumers = update q.consumers id (record (q.consumers id) { active = true });
}

pub data Register {ℓ} {T : Type ℓ} (q : MpmcQueue T)
    : Registrar → MpmcQueue T → Registrar → Type ℓ where
  count :
      q.num_consumers < max_consumers → Register q outside (count_one q) (counted q.num_consumers)
  -- The exception.
  too_many : max_consumers ≤ q.num_consumers → Register q outside (count_one q) outside
  load_head : {id : ℕ} → Register q (counted id) q (headed id q.head)
  store_tail : {id h : ℕ} → Register q (headed id h) (place_tail id h q) (placed id)
  activate : {id : ℕ} → Register q (placed id) (activate_consumer id q) outside

pub record LateSystem {ℓ} (T : Type ℓ) : Type ℓ where
  pub system : System T
  pub registrars : ℕ → Registrar

pub data LateStep {ℓ} {T : Type ℓ} (size : ℕ) (s : LateSystem T) : LateSystem T → Type ℓ where
  act : {t : System T} → Step size s.system t → LateStep size s (record s { system = t })
  register :
      (i : ℕ) {q : MpmcQueue T} {g : Registrar}
      → Register s.system.memory (s.registrars i) q g
      → LateStep size s
          (record { system = record s.system { memory = q }; registrars = update s.registrars i g })

-- A new queue, and threads outside their calls.
abbrev pub unregistered {ℓ} : {T : Type ℓ} → T → LateSystem T
unregistered blank = record {
  system = record {
    memory = new_queue blank;
    producers = λ _. idle;
    consumers = λ _. waiting;
    log = [];
    received = λ _. [];
  };
  registrars = λ _. outside;
}

-- From a new queue, with registrations at any time.
pub data LateReach {ℓ} {T : Type ℓ} (size : ℕ) (blank : T) : LateSystem T → Type ℓ where
  start : LateReach size blank (unregistered blank)
  later : {s t : LateSystem T} → LateReach size blank s → LateStep size s t → LateReach size blank t

-- The steps of producers and consumers from a state.
pub data Runs {ℓ} {T : Type ℓ} (size : ℕ) (s : System T) : System T → Type ℓ where
  here : Runs size s s
  next : {t u : System T} → Runs size s t → Step size t u → Runs size s u
