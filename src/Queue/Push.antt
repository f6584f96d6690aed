-- ===== src/Queue/Push.antt =====
-- mpmc_queue.hpp: `push` with nobody between its steps keeps the invariant.
use mpmc_logger.Prelude.{
  ℕ, ◌≡◌, refl, sym, ap, ◌∙◌, Bool, true, false, Option, none, some, List, [], ◌∷◌, ◌++◌, arith,
  update, ℕ_discrete, ◌⊎◌, inl, inr, Bool-cases, fun_ext, length-append, get_elem?-append_last,
  subst,
}
use mpmc_logger.Broadcast.{Broadcast}
use mpmc_logger.Queue.{
  IsSize, MpmcQueue, write_item, is_full, write_sequence, advance_head, push, refresh_min_tail,
  compute_min_tail, new_queue,
}
use mpmc_logger.Queue.MinTail.{compute_min_tail-le, compute_min_tail_cases}
use mpmc_logger.Queue.Inv.{
  Core, IsBehind, HasRoom, Fits, set_min-Core, claim-Core, write_item-Core, write_sequence-Core,
  item-write_item,
}

abbrev pub nobody : ℕ → Option ℕ
nobody _ = none

-- Between calls nobody holds a claim.
abbrev pub Idle {ℓ} : {T : Type ℓ} → ℕ → MpmcQueue T → List T → Type ℓ
Idle size q log = Core size q nobody log

abbrev pub view {ℓ} : {T : Type ℓ} → MpmcQueue T → List T → Broadcast T
view q log = record { log = log; readers = q.consumers }

module _ {ℓ} {T : Type ℓ} (size : ℕ) where
  -- The check for a full queue changes the cached minimum at most, and then to the scanned one.
  pub refresh_cases :
      (q : MpmcQueue T)
      → ((is_full size q.head q.min_tail ≡ false) × (refresh_min_tail size q ≡ q))
        ⊎ ((is_full size q.head q.min_tail ≡ true)
            × (refresh_min_tail size q ≡ record q { min_tail = compute_min_tail q }))
  unfolding refresh_min_tail
  refresh_cases q = elim (Bool-cases (is_full size q.head q.min_tail)) [
    | inr room ↦ inl (room, rw room)
    | inl full ↦ elim (ℕ_discrete (compute_min_tail q) q.min_tail) [
      | yes same ↦ inr (full, ground arith)
      | no other ↦ inr (full, ground arith)
    ]
  ]

  pub refresh_keeps :
      (q : MpmcQueue T)
      → ((refresh_min_tail size q).head ≡ q.head)
        × ((refresh_min_tail size q).consumers ≡ q.consumers)
  refresh_keeps q = elim (refresh_cases q) [
    | inl (room, e) ↦ rw e (refl, refl)
    | inr (full, e) ↦ rw e (refl, refl)
  ]

  abbrev pub refused : MpmcQueue T → Bool
  refused q = let r = refresh_min_tail size q in is_full size r.head r.min_tail

module _ {ℓ} {T : Type ℓ} {size : ℕ} (v : IsSize size) where
  -- A new queue holds nothing.
  pub new_queue-Idle : (blank : T) → Idle size (new_queue blank) []
  unfolding new_queue
  new_queue-Idle blank = record {
    count = refl;
    ids = λ c on. cc;
    tail_le = λ c. omega arith;
    tail_held = λ c i h e. cc;
    window_tail = λ c on. cc;
    held_lt = λ i h e. cc;
    window_held = λ i h e. cc;
    unique = λ i j h e f. cc;
    behind = record { le_head = omega arith; le_tail = λ c on. cc; le_held = λ i h e. cc };
    seq_lt = λ j ne. absurd (ne refl);
    unpublished = λ i h e. cc;
    published = λ p lt win free. absurd (omega arith);
  }

  pub compute-IsBehind :
      {q : MpmcQueue T} {log : List T} (core : Idle size q log)
      → IsBehind q nobody (compute_min_tail q)
  compute-IsBehind {q} core = record {
    le_head = elim (compute_min_tail_cases q) [
      | inl e ↦ omega arith
      | inr (c, below, on, e) ↦ omega (arith, core.tail_le c)
    ];
    le_tail = λ c on. compute_min_tail-le q c (core.ids c on) on;
    le_held = λ i h e. cc;
  }

  pub refresh-Idle :
      {q : MpmcQueue T} {log : List T}
      → Fits size log
      → Idle size q log
      → Idle size (refresh_min_tail size q) log
  refresh-Idle {q} {log} fits core = elim (refresh_cases size q) [
    | inl (room, e) ↦ rw e core
    | inr (full, e) ↦ rw e (set_min-Core v fits core (compute-IsBehind core))
  ]

  not_full-HasRoom :
      {q : MpmcQueue T} {log : List T}
      → Fits size log
      → Idle size q log
      → is_full size q.head q.min_tail ≡ false
      → HasRoom size q nobody q.head
  not_full-HasRoom {q} fits core room = record {
    room_tail = λ c on. ground (arith, core.behind.le_head, core.behind.le_tail c on, core.count);
    room_held = λ i p e. cc;
  }

  store_item : MpmcQueue T → T → MpmcQueue T
  store_item q x = write_sequence size q.head (write_item size q.head x (advance_head q.head q))

  -- Claim, copy and publish, with nobody between.
  store_item-Idle :
      {q : MpmcQueue T} {log : List T} (x : T)
      → Fits size (log ++ (x ∷ []))
      → Idle size q log
      → HasRoom size q nobody q.head
      → Idle size (store_item q x) (log ++ (x ∷ []))
  unfolding store_item
  store_item-Idle {q} {log} x fits core room =
      let before : Fits size log = omega (arith, length-append log (x ∷ [])) in
      let mine : ℕ → Option ℕ = update nobody 0 (some q.head) in
      let claimed = claim-Core v before core 0 x refl room in
      let written = write_item-Core v fits claimed 0 q.head x refl in
      let done = write_sequence-Core v fits written 0 q.head refl (
        get_elem?-append_last log x q.head core.count
        ∙ ap some (sym (item-write_item size q.head x (advance_head q.head q)))) in
      subst (λ held. Core size (store_item q x) held (log ++ (x ∷ []))) (fun_ext λ j. ground arith)
        done

  push-full :
      (q : MpmcQueue T) (x : T)
      → refused size q ≡ true
      → push size x q ≡ (false, refresh_min_tail size q)
  unfolding push
  push-full q x full = rw full

  push-room :
      (q : MpmcQueue T) (x : T)
      → refused size q ≡ false
      → push size x q ≡ (true, store_item (refresh_min_tail size q) x)
  unfolding push store_item
  push-room q x room = rw room (
      ap
        (λ h. (
          true,
          write_sequence size h (write_item size h x (advance_head h (refresh_min_tail size q))),
        ))
        (sym (refresh_keeps size q).0))

  -- One call of `push`: refused on a full queue, and otherwise the item goes to the end of the log.
  pub record Pushed (x : T) (q : MpmcQueue T) (log : List T) (out : Bool × MpmcQueue T)
      : Type ℓ where
    pub same_readers : out.1.consumers ≡ q.consumers
    pub outcome :
        ((refused size q ≡ true) × (out.0 ≡ false) × Idle size out.1 log)
        ⊎ ((refused size q ≡ false) × (out.0 ≡ true) × Idle size out.1 (log ++ (x ∷ [])))

  pub push-Pushed :
      {q : MpmcQueue T} {log : List T} (x : T)
      → Fits size (log ++ (x ∷ []))
      → Idle size q log
      → Pushed x q log (push size x q)
  unfolding store_item
  push-Pushed {q} {log} x fits core =
      let before : Fits size log = omega (arith, length-append log (x ∷ [])) in
      let kept = refresh-Idle before core in
      elim (Bool-cases (refused size q)) [
        | inl full ↦
            rw (push-full q x full)
              (record { same_readers = (refresh_keeps size q).1; outcome = inl (full, refl, kept) })
        | inr room ↦ rw (push-room q x room) (record {
          same_readers = (refresh_keeps size q).1;
          outcome =
              inr (room, refl, store_item-Idle x fits kept (not_full-HasRoom before kept room));
        })
      ]
