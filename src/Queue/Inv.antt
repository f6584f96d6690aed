-- ===== src/Queue/Inv.antt =====
-- mpmc_queue.hpp: the invariant of the ring buffer. `log` is every item ever enqueued, in order;
-- `held i` is the position that producer `i` has claimed and not yet published. Both are ghosts.
-- One lemma for each write to shared memory.
use mpmc_logger.Prelude.{
  ℕ, ◌+◌, ◌≤◌, ◌<◌, ◌≡◌, ◌≢◌, ap, ◌∙◌, true, Option, none, some, List, [], ◌∷◌, ◌++◌, arith, length,
  get_elem?, update, length-append, get_elem?-append, ℕ_discrete,
}
use mpmc_logger.Queue.{
  IsSize, MpmcQueue, Slot, slot_index, invalid_pos, max_consumers, write_item, write_sequence,
  advance_head, advance_tail, unregister_consumer,
}
use mpmc_logger.Queue.Index.{slot_index-injective}

module _ {ℓ} {T : Type ℓ} where
  -- A value that may stand in `min_tail`: no active consumer and no unpublished claim is behind it.
  pub record IsBehind (q : MpmcQueue T) (held : ℕ → Option ℕ) (v : ℕ) : Type 0 where
    pub le_head : v ≤ q.head
    pub le_tail : (c : ℕ) → (q.consumers c).active ≡ true → v ≤ (q.consumers c).tail
    pub le_held : (i h : ℕ) → held i ≡ some h → v ≤ h

  -- Position `h` may be claimed without reaching an item that somebody still needs.
  pub record HasRoom (size : ℕ) (q : MpmcQueue T) (held : ℕ → Option ℕ) (h : ℕ) : Type 0 where
    pub room_tail : (c : ℕ) → (q.consumers c).active ≡ true → h < (q.consumers c).tail + size
    pub room_held : (i p : ℕ) → held i ≡ some p → h < p + size

  abbrev pub slot_of : ℕ → MpmcQueue T → ℕ → Slot T
  slot_of size q pos = q.slots (slot_index size pos)

  pub record Core (size : ℕ) (q : MpmcQueue T) (held : ℕ → Option ℕ) (log : List T) : Type ℓ where
    pub count : q.head ≡ length log
    pub ids : (c : ℕ) → (q.consumers c).active ≡ true → c < max_consumers
    pub tail_le : (c : ℕ) → (q.consumers c).tail ≤ q.head
    pub tail_held : (c i h : ℕ) → held i ≡ some h → (q.consumers c).tail ≤ h
    pub window_tail : (c : ℕ) → (q.consumers c).active ≡ true → q.head ≤ (q.consumers c).tail + size
    pub held_lt : (i h : ℕ) → held i ≡ some h → h < q.head
    pub window_held : (i h : ℕ) → held i ≡ some h → q.head ≤ h + size
    pub unique : (i j h : ℕ) → held i ≡ some h → held j ≡ some h → i ≡ j
    pub behind : IsBehind q held q.min_tail
    pub seq_lt : (j : ℕ) → (q.slots j).sequence ≢ invalid_pos → (q.slots j).sequence < q.head
    pub unpublished : (i h : ℕ) → held i ≡ some h → (slot_of size q h).sequence ≢ h
    pub published :
        (p : ℕ)
        → p < q.head
        → q.head ≤ p + size
        → ((i : ℕ) → held i ≢ some p)
        → ((slot_of size q p).sequence ≡ p) × (get_elem? log p ≡ some (slot_of size q p).item)

pub item-write_item {ℓ} :
    {T : Type ℓ} (size h : ℕ) (x : T) (q : MpmcQueue T)
    → (slot_of size (write_item size h x q) h).item ≡ x
item-write_item size h x q = ground arith

-- The positions stay below the marker for an empty slot: 2^64 calls are out of reach.
abbrev pub Fits {ℓ} : {T : Type ℓ} → ℕ → List T → Type 0
Fits size log = length log + size < invalid_pos

module _ {ℓ} {T : Type ℓ} {size : ℕ} (v : IsSize size) {q : MpmcQueue T} {held : ℕ → Option ℕ}
    {log : List T} (fits : Fits size log) (core : Core size q held log) where
  open core use {
    count, ids, tail_le, tail_held, window_tail, held_lt, window_held, unique, behind, seq_lt,
    unpublished, published,
  }

  pub set_min-Core : {m : ℕ} → IsBehind q held m → Core size (record q { min_tail = m }) held log
  set_min-Core b = record {
    count = count;
    ids = ids;
    tail_le = tail_le;
    tail_held = tail_held;
    window_tail = window_tail;
    held_lt = held_lt;
    window_held = window_held;
    unique = unique;
    behind = record { le_head = b.le_head; le_tail = b.le_tail; le_held = b.le_held };
    seq_lt = seq_lt;
    unpublished = unpublished;
    published = published;
  }

  -- A claim of the position at the head.
  pub claim-Core :
      (i : ℕ) (x : T)
      → held i ≡ none
      → HasRoom size q held q.head
      → Core size (advance_head q.head q) (update held i (some q.head)) (log ++ (x ∷ []))
  claim-Core i x free r = record {
    count = omega (arith, length-append log (x ∷ []), count);
    ids = ids;
    tail_le = λ c. omega (arith, tail_le c, count);
    tail_held = λ c j h e. ground (arith, tail_le c, tail_held c j h, count);
    window_tail = λ c on. omega (arith, r.room_tail c on, count);
    held_lt = λ j h e. ground (arith, held_lt j h, count);
    window_held = λ j h e. ground (arith, window_held j h, r.room_held j h, count, v.large);
    unique = λ a b h p s. ground (arith, unique a b h, held_lt a h, held_lt b h);
    behind = record {
      le_head = omega (arith, behind.le_head, count);
      le_tail = λ c on. behind.le_tail c on;
      le_held = λ j h e. ground (arith, behind.le_head, behind.le_held j h);
    };
    seq_lt = λ j ne. omega (arith, seq_lt j ne, count);
    unpublished = λ j h e. ground (arith, unpublished j h, seq_lt (slot_index size q.head), count);
    published = λ p lt win nobody. elim (ℕ_discrete p q.head) [
      | yes at_head ↦ absurd (nobody i (ground arith))
      | no below ↦
          let old =
            published p (omega (arith, count)) (omega (arith, count))
              (λ j e. nobody j (ground arith)) in
          (old.0, get_elem?-append log (x ∷ []) p (omega (arith, count)) ∙ old.1)
    ];
  }

  -- The copy into a claimed slot: no readable item stands there.
  pub write_item-Core :
      (i h : ℕ) (x : T) → held i ≡ some h → Core size (write_item size h x q) held log
  write_item-Core i h x mine = record {
    count = count;
    ids = ids;
    tail_le = tail_le;
    tail_held = tail_held;
    window_tail = window_tail;
    held_lt = held_lt;
    window_held = window_held;
    unique = unique;
    behind = record {
      le_head = behind.le_head;
      le_tail = behind.le_tail;
      le_held = behind.le_held;
    };
    seq_lt = λ j ne. ground (arith, seq_lt j);
    unpublished = λ j p e. ground (arith, unpublished j p e);
    published = λ p lt win nobody.
        let apart : slot_index size h ≢ slot_index size p = λ e. nobody i (
          mine
          ∙ ap some (
              slot_index-injective v h p (omega (arith, held_lt i h mine))
                (omega (arith, window_held i h mine)) e)) in
        ground (arith, published p lt win nobody, apart);
  }

  -- The store of the sequence number hands the item to the consumers.
  pub write_sequence-Core :
      (i h : ℕ)
      → held i ≡ some h
      → get_elem? log h ≡ some (slot_of size q h).item
      → Core size (write_sequence size h q) (update held i none) log
  write_sequence-Core i h mine stored = record {
    count = count;
    ids = ids;
    tail_le = tail_le;
    tail_held = λ c j p e. ground (arith, tail_held c j p);
    window_tail = window_tail;
    held_lt = λ j p e. ground (arith, held_lt j p);
    window_held = λ j p e. ground (arith, window_held j p);
    unique = λ a b p e f. ground (arith, unique a b p);
    behind = record {
      le_head = behind.le_head;
      le_tail = behind.le_tail;
      le_held = λ j p e. ground (arith, behind.le_held j p);
    };
    seq_lt = λ j ne. ground (arith, seq_lt j, held_lt i h mine);
    unpublished = λ j p e. ground (arith, unpublished j p, unique i j h);
    published = λ p lt win nobody. elim (ℕ_discrete h p) [
      | yes same ↦ ground (arith, stored)
      | no other ↦
          let apart : slot_index size h ≢ slot_index size p = λ e. other (
            slot_index-injective v h p (omega (arith, held_lt i h mine))
              (omega (arith, window_held i h mine)) e) in
          ground (arith, published p lt win (λ j e. nobody j (ground arith)), apart)
    ];
  }

  -- A consumer that is not at the head, nor at an unpublished claim, moves on.
  pub advance_tail-Core :
      (c : ℕ)
      → (q.consumers c).tail < q.head
      → ((i : ℕ) → held i ≢ some (q.consumers c).tail)
      → Core size (advance_tail c (q.consumers c).tail q) held log
  advance_tail-Core c lt free = record {
    count = count;
    ids = λ d on. ground (arith, ids d, ids c);
    tail_le = λ d. ground (arith, tail_le d, count);
    tail_held = λ d i h e. ground (arith, tail_held d i h e, tail_held c i h e, free i, count);
    window_tail = λ d on. ground (arith, window_tail d, window_tail c, count);
    held_lt = held_lt;
    window_held = window_held;
    unique = unique;
    behind = record {
      le_head = behind.le_head;
      le_tail = λ d on. ground (arith, behind.le_tail d, behind.le_tail c, count);
      le_held = behind.le_held;
    };
    seq_lt = seq_lt;
    unpublished = unpublished;
    published = published;
  }

  pub unregister_consumer-Core : (c : ℕ) → Core size (unregister_consumer c q) held log
  unfolding unregister_consumer
  unregister_consumer-Core c = record {
    count = count;
    ids = λ d on. ground (arith, ids d);
    tail_le = λ d. ground (arith, tail_le d, tail_le c);
    tail_held = λ d i h e. ground (arith, tail_held d i h e, tail_held c i h e);
    window_tail = λ d on. ground (arith, window_tail d);
    held_lt = held_lt;
    window_held = window_held;
    unique = unique;
    behind = record {
      le_head = behind.le_head;
      le_tail = λ d on. ground (arith, behind.le_tail d);
      le_held = behind.le_held;
    };
    seq_lt = seq_lt;
    unpublished = unpublished;
    published = published;
  }

  -- What a consumer finds at its tail: the item of that position, once it is published.
  pub sequence_eq_tail :
      (c : ℕ)
      → (q.consumers c).active ≡ true
      → (slot_of size q (q.consumers c).tail).sequence ≡ (q.consumers c).tail
      → ((q.consumers c).tail < q.head) × ((i : ℕ) → held i ≢ some (q.consumers c).tail)
  sequence_eq_tail c on e = (
    omega (arith, seq_lt (slot_index size (q.consumers c).tail), tail_le c, count),
    λ i taken. unpublished i (q.consumers c).tail taken e,
  )
