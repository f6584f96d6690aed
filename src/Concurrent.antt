-- ===== src/Concurrent.antt =====
-- include/mpmc_logger/mpmc_queue.hpp with its threads: every load, store and compare-exchange of
-- `push`, `pop`, `unregister_consumer` and `recompute_and_store_min_tail` is one step, and the
-- steps of all threads interleave in any order. The copy of an item is one step too: `Safety` has
-- that no other thread can reach the slot meanwhile. The memory is sequentially consistent.
pub mod Local
pub mod Steps
pub mod Produces
pub mod Consumes
pub mod Inv
pub mod Safety
pub mod Schedule
pub mod Late
pub mod Quiet
pub mod Stuck
pub mod LateSchedule
use mpmc_logger.Prelude.{
  ℕ, zero, suc, ◌+◌, ◌%◌, ◌<◌, ◌≡◌, ◌≢◌, Bool, true, false, Option, none, some, List, [], ◌∷◌, ◌++◌,
  if◌then◌else◌, ◌==◌, update,
}
use mpmc_logger.Queue.{
  ConsumerInfo, MpmcQueue, Mins, no_mins, scan_result, take_tail, is_full, slot_index, write_item,
  write_sequence, advance_head, advance_tail, unregister_consumer, max_consumers, new_queue,
  register_consumer,
}

-- Who scans the tails: a `push` with its item, its head and the cached minimum that it saw, or
-- `recompute_and_store_min_tail`.
pub data Purpose {ℓ} (T : Type ℓ) : Type ℓ where
  for_push : (x : T) (head min_tail : ℕ) → Purpose T
  for_refresh : Purpose T

-- Where a producer stands, with its live local variables.
pub data Producer {ℓ} (T : Type ℓ) : Type ℓ where
  idle : Producer T
  begin : (x : T) → Producer T
  loaded : (x : T) (head : ℕ) → Producer T
  compared : (x : T) (head min_tail : ℕ) → Producer T
  scanning : (g : Purpose T) (i : ℕ) (m : Mins) → Producer T
  reading : (g : Purpose T) (i : ℕ) (m : Mins) → Producer T
  scanned : (g : Purpose T) (found : ℕ) → Producer T
  rechecked : (x : T) (head min_tail : ℕ) → Producer T
  ready : (x : T) (head : ℕ) → Producer T
  claimed : (x : T) (head : ℕ) → Producer T
  written : (x : T) (head : ℕ) → Producer T

-- `min{i % 4} = std::min(min{i % 4}, tail)`
unfoldable pub absorb : ℕ → ConsumerInfo → Mins → Mins
absorb i c m =
    if i % 4 == 0
    then record m { min0 = take_tail c m.min0 }
    else if i % 4 == 1
    then record m { min1 = take_tail c m.min1 }
    else if i % 4 == 2
    then record m { min2 = take_tail c m.min2 }
    else record m { min3 = take_tail c m.min3 }

-- One step of a producer: the memory before, the producer before, the memory after, the producer
-- after, and the items that the step claims a position for.
pub data Produce {ℓ} {T : Type ℓ} (size : ℕ) (q : MpmcQueue T)
    : Producer T → MpmcQueue T → Producer T → List T → Type ℓ where
  call : (x : T) → Produce size q idle q (begin x) []
  load_head : {x : T} → Produce size q (begin x) q (loaded x q.head) []
  load_min_tail : {x : T} {h : ℕ} → Produce size q (loaded x h) q (compared x h q.min_tail) []
  room :
      {x : T} {h m : ℕ}
      → is_full size h m ≡ false
      → Produce size q (compared x h m) q (ready x h) []
  full :
      {x : T} {h m : ℕ}
      → is_full size h m ≡ true
      → Produce size q (compared x h m) q (scanning (for_push x h m) 0 no_mins) []
  refresh : Produce size q idle q (scanning for_refresh 0 no_mins) []
  skip :
      {g : Purpose T} {i : ℕ} {m : Mins}
      → i < max_consumers
      → (q.consumers i).active ≡ false
      → Produce size q (scanning g i m) q (scanning g (i + 1) m) []
  see :
      {g : Purpose T} {i : ℕ} {m : Mins}
      → i < max_consumers
      → (q.consumers i).active ≡ true
      → Produce size q (scanning g i m) q (reading g i m) []
  read_tail :
      {g : Purpose T} {i : ℕ} {m : Mins}
      → Produce size q
          (reading g i m)
          q
          (scanning g (i + 1) (absorb i (record (q.consumers i) { active = true }) m))
          []
  finish :
      {g : Purpose T} {i : ℕ} {m : Mins}
      → i ≡ max_consumers
      → Produce size q (scanning g i m) q (scanned g (scan_result m)) []
  store_min_tail :
      {x : T} {h m found : ℕ}
      → found ≢ m
      → Produce size q
          (scanned (for_push x h m) found)
          (record q { min_tail = found })
          (rechecked x h found)
          []
  keep_min_tail :
      {x : T} {h m found : ℕ}
      → found ≡ m
      → Produce size q (scanned (for_push x h m) found) q (rechecked x h m) []
  store_refresh :
      {found : ℕ}
      → Produce size q (scanned for_refresh found) (record q { min_tail = found }) idle []
  room_now :
      {x : T} {h m : ℕ}
      → is_full size h m ≡ false
      → Produce size q (rechecked x h m) q (ready x h) []
  -- `return false`
  refuse : {x : T} {h m : ℕ} → is_full size h m ≡ true → Produce size q (rechecked x h m) q idle []
  win :
      {x : T} {h : ℕ}
      → q.head ≡ h
      → Produce size q (ready x h) (advance_head h q) (claimed x h) (x ∷ [])
  -- A weak compare-exchange may fail for no reason.
  lose : {x : T} {h : ℕ} → Produce size q (ready x h) q (begin x) []
  copy : {x : T} {h : ℕ} → Produce size q (claimed x h) (write_item size h x q) (written x h) []
  publish : {x : T} {h : ℕ} → Produce size q (written x h) (write_sequence size h q) idle []

pub data Consumer {ℓ} (T : Type ℓ) : Type ℓ where
  waiting : Consumer T
  entered : Consumer T
  at : (tail : ℕ) → Consumer T
  matched : (tail : ℕ) → Consumer T
  copied : (tail : ℕ) (x : T) → Consumer T

-- One step of the thread that owns consumer `c`, with the items that its `pop` returns.
pub data Consume {ℓ} {T : Type ℓ} (size c : ℕ) (q : MpmcQueue T)
    : Consumer T → MpmcQueue T → Consumer T → List T → Type ℓ where
  inactive :
      c < max_consumers → (q.consumers c).active ≡ false → Consume size c q waiting q waiting []
  enter : (q.consumers c).active ≡ true → Consume size c q waiting q entered []
  load_tail : Consume size c q entered q (at (q.consumers c).tail) []
  not_ready :
      {t : ℕ} → (q.slots (slot_index size t)).sequence ≢ t → Consume size c q (at t) q waiting []
  is_ready :
      {t : ℕ}
      → (q.slots (slot_index size t)).sequence ≡ t
      → Consume size c q (at t) q (matched t) []
  read : {t : ℕ} → Consume size c q (matched t) q (copied t (q.slots (slot_index size t)).item) []
  store_tail : {t : ℕ} {x : T} → Consume size c q (copied t x) (advance_tail c t q) waiting (x ∷ [])
  unregister : c < max_consumers → Consume size c q waiting (unregister_consumer c q) waiting []

-- The shared memory, the threads, and two ghosts: the items by claimed position, and what each
-- consumer has been given.
pub record System {ℓ} (T : Type ℓ) : Type ℓ where
  pub memory : MpmcQueue T
  pub producers : ℕ → Producer T
  pub consumers : ℕ → Consumer T
  pub log : List T
  pub received : ℕ → List T

pub data Step {ℓ} {T : Type ℓ} (size : ℕ) (s : System T) : System T → Type ℓ where
  produce :
      (i : ℕ) {q : MpmcQueue T} {p : Producer T} {xs : List T}
      → Produce size s.memory (s.producers i) q p xs
      → Step size s (record s { memory = q; producers = update s.producers i p; log = s.log ++ xs })
  consume :
      (c : ℕ) {q : MpmcQueue T} {p : Consumer T} {xs : List T}
      → Consume size c s.memory (s.consumers c) q p xs
      → Step size s (record s {
        memory = q;
        consumers = update s.consumers c p;
        received = update s.received c (s.received c ++ xs);
      })

-- `n` consumers registered on a new queue before any other call, as `Logger::init` does with one.
unfoldable pub registered {ℓ} : {T : Type ℓ} → T → ℕ → MpmcQueue T
registered blank zero = new_queue blank
registered blank (suc n) = (register_consumer (registered blank n)).1

pub data Reach {ℓ} {T : Type ℓ} (size : ℕ) (blank : T) (n : ℕ) : System T → Type ℓ where
  start : Reach size blank n (record {
    memory = registered blank n;
    producers = λ _. idle;
    consumers = λ _. waiting;
    log = [];
    received = λ _. [];
  })
  later : {s t : System T} → Reach size blank n s → Step size s t → Reach size blank n t
