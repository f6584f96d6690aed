-- ===== src/Concurrent/Local.antt =====
-- mpmc_queue.hpp with its threads: what the local variables of a thread say of the shared memory,
-- and why the steps of the other threads leave that true.
use mpmc_logger.Prelude.{
  ℕ, ◌≤◌, ◌<◌, ◌≡◌, ◌≢◌, refl, ◌∙◌, ◌⊎◌, inl, inr, true, Option, none, some, List, arith, get_elem?,
}
use mpmc_logger.Queue.{MpmcQueue, Mins, least, scan_result, max_consumers}
use mpmc_logger.Queue.Inv.{IsBehind, HasRoom, slot_of}
use mpmc_logger.Concurrent.{
  Purpose, for_push, for_refresh, Producer, idle, begin, loaded, compared, scanning, reading,
  scanned, rechecked, ready, claimed, written, Consumer, waiting, entered, at, matched, copied,
}

-- The position that a producer has claimed and not yet published.
abbrev pub held {ℓ} : {T : Type ℓ} → Producer T → Option ℕ
held (claimed x h) = some h
held (written x h) = some h
held _ = none

module _ {ℓ} {T : Type ℓ} where
  -- The accumulators after the consumers below `i`.
  pub record Scanned (q : MpmcQueue T) (hd : ℕ → Option ℕ) (i : ℕ) (m : Mins) : Type 0 where
    pub seen : (c : ℕ) → c < i → (q.consumers c).active ≡ true → least m ≤ (q.consumers c).tail
    pub result_le_head : scan_result m ≤ q.head
    pub result_le_held : (j h : ℕ) → hd j ≡ some h → scan_result m ≤ h

  abbrev pub Goal : MpmcQueue T → (ℕ → Option ℕ) → Purpose T → Type 0
  Goal q hd (for_push x h m) = (h ≤ q.head) × IsBehind q hd m
  Goal q hd for_refresh = Unit {0}

  abbrev pub Local : ℕ → MpmcQueue T → (ℕ → Option ℕ) → List T → Producer T → Type ℓ
  Local size q hd log idle = Unit
  Local size q hd log (begin x) = Unit
  Local size q hd log (loaded x h) = (h ≤ q.head) × Unit {ℓ}
  Local size q hd log (compared x h m) = (h ≤ q.head) × IsBehind q hd m × Unit {ℓ}
  Local size q hd log (scanning g i m) = Goal q hd g × Scanned q hd i m × Unit {ℓ}
  Local size q hd log (reading g i m) =
      Goal q hd g × Scanned q hd i m × (i < max_consumers) × Unit {ℓ}
  Local size q hd log (scanned g v) = Goal q hd g × IsBehind q hd v × Unit {ℓ}
  Local size q hd log (rechecked x h m) = (h ≤ q.head) × IsBehind q hd m × Unit {ℓ}
  Local size q hd log (ready x h) = (h ≤ q.head) × HasRoom size q hd h × Unit {ℓ}
  Local size q hd log (claimed x h) = get_elem? log h ≡ some x
  Local size q hd log (written x h) = (get_elem? log h ≡ some x) × ((slot_of size q h).item ≡ x)

  -- A consumer inside `pop` stands at its own tail, and past the test its item is out of reach of
  -- the producers.
  abbrev pub IsReadable : MpmcQueue T → (ℕ → Option ℕ) → ℕ → Type 0
  IsReadable q hd t = (t < q.head) × ((i : ℕ) → hd i ≢ some t)

  abbrev pub Reading : MpmcQueue T → (ℕ → Option ℕ) → List T → ℕ → Consumer T → Type ℓ
  Reading q hd log c waiting = Unit
  Reading q hd log c entered = ((q.consumers c).active ≡ true) × Unit {ℓ}
  Reading q hd log c (at t) =
      ((q.consumers c).active ≡ true) × (t ≡ (q.consumers c).tail) × Unit {ℓ}
  Reading q hd log c (matched t) =
      ((q.consumers c).active ≡ true) × (t ≡ (q.consumers c).tail) × IsReadable q hd t × Unit {ℓ}
  Reading q hd log c (copied t x) =
      ((q.consumers c).active ≡ true)
      × (t ≡ (q.consumers c).tail)
      × IsReadable q hd t
      × (get_elem? log t ≡ some x)

  -- What every step does to the memory: the head and the tails only grow, nobody becomes active,
  -- and a new claim is at the head or beyond.
  pub record Grows (q q' : MpmcQueue T) (hd hd' : ℕ → Option ℕ) : Type 0 where
    pub head_le : q.head ≤ q'.head
    pub tails :
        (c : ℕ)
        → (q'.consumers c).active ≡ true
        → ((q.consumers c).active ≡ true) × ((q.consumers c).tail ≤ (q'.consumers c).tail)
    pub claims : (i h : ℕ) → hd' i ≡ some h → (hd i ≡ some h) ⊎ (q.head ≤ h)

  module _ {q q' : MpmcQueue T} {hd hd' : ℕ → Option ℕ} (g : Grows q q' hd hd') where
    claimed_bound :
        (v : ℕ)
        → v ≤ q.head
        → ((i h : ℕ) → hd i ≡ some h → v ≤ h)
        → (i h : ℕ) → hd' i ≡ some h
        → v ≤ h
    claimed_bound v le old i h e = elim (g.claims i h e) [
      | inl before ↦ old i h before
      | inr new ↦ omega arith
    ]

    pub IsBehind-Grows : {v : ℕ} → IsBehind q hd v → IsBehind q' hd' v
    IsBehind-Grows {v} b = record {
      le_head = omega (arith, b.le_head, g.head_le);
      le_tail = λ c on. let (was, le) = g.tails c on in omega (arith, b.le_tail c was);
      le_held = claimed_bound v b.le_head b.le_held;
    }

    pub HasRoom-Grows :
        {size h : ℕ} → 0 < size → h ≤ q.head → HasRoom size q hd h → HasRoom size q' hd' h
    HasRoom-Grows {size} {h} pos le r = record {
      room_tail = λ c on. let (was, le) = g.tails c on in omega (arith, r.room_tail c was);
      room_held = λ i p e. elim (g.claims i p e) [
        | inl before ↦ r.room_held i p before
        | inr new ↦ omega arith
      ];
    }

    pub Scanned-Grows : {i : ℕ} {m : Mins} → Scanned q hd i m → Scanned q' hd' i m
    Scanned-Grows {m} s = record {
      seen = λ c lt on. let (was, le) = g.tails c on in omega (arith, s.seen c lt was);
      result_le_head = omega (arith, s.result_le_head, g.head_le);
      result_le_held = claimed_bound (scan_result m) s.result_le_head s.result_le_held;
    }

    pub Goal-Grows : (p : Purpose T) → Goal q hd p → Goal q' hd' p
    Goal-Grows (for_push x h m) (le, b) = (omega (arith, g.head_le), IsBehind-Grows b)
    Goal-Grows for_refresh l = tt

    -- A step of another thread keeps what a producer knows.
    pub Local-Grows :
        {size : ℕ} (log log' : List T)
        → 0 < size
        → ((n : ℕ) (x : T) → get_elem? log n ≡ some x → get_elem? log' n ≡ some x)
        → (p : Producer T)
        → ((h : ℕ) → held p ≡ some h → (slot_of size q' h).item ≡ (slot_of size q h).item)
        → Local size q hd log p
        → Local size q' hd' log' p
    Local-Grows log log' pos keeps idle same l = tt
    Local-Grows log log' pos keeps (begin x) same l = tt
    Local-Grows log log' pos keeps (loaded x h) same l = (omega (arith, g.head_le), tt)
    Local-Grows log log' pos keeps (compared x h m) same l =
        (omega (arith, g.head_le), IsBehind-Grows l.1, tt)
    Local-Grows log log' pos keeps (scanning p i m) same l =
        (Goal-Grows p l.0, Scanned-Grows l.1, tt)
    Local-Grows log log' pos keeps (reading p i m) same l =
        (Goal-Grows p l.0, Scanned-Grows l.1, l.2, tt)
    Local-Grows log log' pos keeps (scanned p v) same l = (Goal-Grows p l.0, IsBehind-Grows l.1, tt)
    Local-Grows log log' pos keeps (rechecked x h m) same l =
        (omega (arith, g.head_le), IsBehind-Grows l.1, tt)
    Local-Grows log log' pos keeps (ready x h) same l =
        (omega (arith, g.head_le), HasRoom-Grows pos l.0 l.1, tt)
    Local-Grows log log' pos keeps (claimed x h) same l = keeps h x l
    Local-Grows log log' pos keeps (written x h) same l = (keeps h x l.0, same h refl ∙ l.1)

    IsReadable-Grows : {t : ℕ} → IsReadable q hd t → IsReadable q' hd' t
    IsReadable-Grows {t} (lt, free) = (
      omega (arith, g.head_le),
      λ i e. elim (g.claims i t e) [ inl before ↦ free i before | inr new ↦ absurd (omega arith) ],
    )

    -- A step that leaves consumer `c` alone keeps what its thread knows.
    pub Reading-Grows :
        (log log' : List T) (c : ℕ)
        → q'.consumers c ≡ q.consumers c
        → ((n : ℕ) (x : T) → get_elem? log n ≡ some x → get_elem? log' n ≡ some x)
        → (p : Consumer T) → Reading q hd log c p
        → Reading q' hd' log' c p
    Reading-Grows log log' c same keeps waiting l = tt
    Reading-Grows log log' c same keeps entered l = rw same l
    Reading-Grows log log' c same keeps (at t) l = rw same l
    Reading-Grows log log' c same keeps (matched t) l = rw same (l.0, l.1, IsReadable-Grows l.2, tt)
    Reading-Grows log log' c same keeps (copied t x) l =
        rw same (l.0, l.1, IsReadable-Grows l.2, keeps t x l.3)
