-- ===== src/Concurrent/Steps.antt =====
-- mpmc_queue.hpp with its threads: what each step of a producer does to the invariant.
use mpmc_logger.Prelude.{
  ℕ, ◌+◌, ◌≤◌, ◌≡◌, ◌≢◌, refl, sym, ap, ◌∙◌, subst, fun_ext, inl, inr, true, false, Option, none,
  some, List, [], ◌∷◌, ◌++◌, arith, get_elem?, update, append-nil, get_elem?-append_last,
  ℕ_discrete, bool_absurd,
}
use mpmc_logger.Queue.{
  IsSize, ConsumerInfo, MpmcQueue, Mins, least, scan_result, max_consumers, is_full, slot_index,
  take_tail, no_mins, write_item, write_sequence, advance_head,
}
use mpmc_logger.Queue.Index.{slot_index-injective}
use mpmc_logger.Queue.MinTail.{
  least-take_tail0, least-take_tail1, least-take_tail2, least-take_tail3,
}
use mpmc_logger.Queue.Inv.{
  Core, IsBehind, HasRoom, Fits, slot_of, set_min-Core, claim-Core, write_item-Core,
  write_sequence-Core, item-write_item,
}
use mpmc_logger.Concurrent.Local.{Local, Scanned, Grows}
use mpmc_logger.Concurrent.{Producer, idle, absorb, claimed, written}

least-absorb : (i : ℕ) (c : ConsumerInfo) (m : Mins) → least (absorb i c m) ≡ take_tail c (least m)
unfolding absorb
least-absorb i c m =
    ground (
      arith,
      least-take_tail0 c m,
      least-take_tail1 c m,
      least-take_tail2 c m,
      least-take_tail3 c m,
    )

update_known : (hd : ℕ → Option ℕ) (i : ℕ) (o : Option ℕ) → hd i ≡ o → hd ≡ update hd i o
update_known hd i o e = fun_ext λ j. ground (arith, ap hd)

scan_result-le_least : (m : Mins) → scan_result m ≤ least m
scan_result-le_least m = ground arith

module _ {ℓ} {T : Type ℓ} where
  -- What a step of producer `i` makes true. The claims and the log after it are arguments, so that
  -- they can be rewritten.
  pub record Effect (size i : ℕ) (q q' : MpmcQueue T) (hd hd' : ℕ → Option ℕ) (log log' : List T)
      (p' : Producer T) : Type ℓ where
    pub core : Core size q' hd' log'
    pub own : Local size q' hd' log' p'
    pub grows : Grows q q' hd hd'
    pub same_consumers : q'.consumers ≡ q.consumers
    pub same_items :
        (j h : ℕ) → hd j ≡ some h → j ≢ i → (slot_of size q' h).item ≡ (slot_of size q h).item

  pub Grows-refl :
      (q q' : MpmcQueue T) (hd : ℕ → Option ℕ)
      → q'.head ≡ q.head
      → q'.consumers ≡ q.consumers
      → Grows q q' hd hd
  Grows-refl q q' hd e f = record {
    head_le = omega arith;
    tails = λ c on. (
      subst (λ cs. (cs c).active ≡ true) f on,
      omega (arith, ap (λ (cs : ℕ → ConsumerInfo). (cs c).tail) f),
    );
    claims = λ i h e. inl e;
  }

  module _ {size : ℕ} (v : IsSize size) (q : MpmcQueue T) (hd : ℕ → Option ℕ) (log : List T) (i : ℕ)
      (core : Core size q hd log) (fits : Fits size log) where
    -- A step that claims nothing and releases nothing.
    pub unclaimed :
        {q' : MpmcQueue T} {p' : Producer T} (o : Option ℕ)
        → hd i ≡ o
        → Effect size i q q' hd hd log log p'
        → Effect size i q q' hd (update hd i o) log (log ++ []) p'
    unclaimed {q'} {p'} o e f =
        subst (λ l. Effect size i q q' hd (update hd i o) log l p') (sym (append-nil log))
          (subst (λ g. Effect size i q q' hd g log log p') (update_known hd i o e) f)

    pub quiet : {p' : Producer T} → Local size q hd log p' → Effect size i q q hd hd log log p'
    quiet l = record {
      core = core;
      own = l;
      grows = Grows-refl q q hd refl refl;
      same_consumers = refl;
      same_items = λ j h e ne. refl;
    }

    pub behind-HasRoom :
        {h m : ℕ} → h ≤ q.head → IsBehind q hd m → is_full size h m ≡ false → HasRoom size q hd h
    behind-HasRoom {h} {m} le b not_full = record {
      room_tail = λ c on. ground (arith, core.count, b.le_head, b.le_tail c on);
      room_held = λ j p e. ground (arith, core.count, b.le_head, b.le_held j p e);
    }

    pub no_mins-Scanned : Scanned q hd 0 no_mins
    no_mins-Scanned = record {
      seen = λ c lt on. absurd (omega arith);
      result_le_head = omega arith;
      result_le_held = λ j h e. omega arith;
    }

    pub skip-Scanned :
        {k : ℕ} {m : Mins}
        → (q.consumers k).active ≡ false
        → Scanned q hd k m
        → Scanned q hd (k + 1) m
    skip-Scanned {k} off s = record {
      seen = λ c lt on. elim (ℕ_discrete c k) [
        | yes here ↦ bool_absurd (subst (λ d. (q.consumers d).active ≡ true) here on) off
        | no there ↦ s.seen c (omega arith) on
      ];
      result_le_head = s.result_le_head;
      result_le_held = s.result_le_held;
    }

    pub read-Scanned :
        {k : ℕ} {m : Mins}
        → Scanned q hd k m
        → Scanned q hd (k + 1) (absorb k (record (q.consumers k) { active = true }) m)
    read-Scanned {k} {m} s =
        let c' : ConsumerInfo = record (q.consumers k) { active = true } in
        let small : scan_result (absorb k c' m) ≤ (q.consumers k).tail =
          omega (arith, scan_result-le_least (absorb k c' m), least-absorb k c' m) in
        record {
          seen = λ c lt on. elim (ℕ_discrete c k) [
            | yes here ↦
                omega (arith, least-absorb k c' m, ap (λ (d : ℕ). (q.consumers d).tail) here)
            | no there ↦ omega (arith, least-absorb k c' m, s.seen c (omega arith) on)
          ];
          result_le_head = omega (arith, small, core.tail_le k);
          result_le_held = λ j h e. omega (arith, small, core.tail_held k j h e);
        }

    pub Scanned-IsBehind : {m : Mins} → Scanned q hd max_consumers m → IsBehind q hd (scan_result m)
    Scanned-IsBehind {m} s = record {
      le_head = s.result_le_head;
      le_tail = λ c on. omega (arith, s.seen c (core.ids c on) on, scan_result-le_least m);
      le_held = s.result_le_held;
    }

    pub set_min-Effect :
        {m : ℕ} {p' : Producer T}
        → IsBehind q hd m
        → Local size (record q { min_tail = m }) hd log p'
        → Effect size i q (record q { min_tail = m }) hd hd log log p'
    set_min-Effect b l = record {
      core = set_min-Core v fits core b;
      own = l;
      grows = Grows-refl q _ hd refl refl;
      same_consumers = refl;
      same_items = λ j h e ne. refl;
    }

    pub claim-Effect :
        (x : T)
        → hd i ≡ none
        → HasRoom size q hd q.head
        → Effect size i q
            (advance_head q.head q)
            hd
            (update hd i (some q.head))
            log
            (log ++ (x ∷ []))
            (claimed x q.head)
    claim-Effect x free r = record {
      core = claim-Core v fits core i x free r;
      own = get_elem?-append_last log x q.head core.count;
      grows = record {
        head_le = omega (arith, core.count);
        tails = λ c on. (on, omega arith);
        claims = λ j h e. elim (ℕ_discrete i j) [
          | yes here ↦ inr (ground arith)
          | no there ↦ inl (ground arith)
        ];
      };
      same_consumers = refl;
      same_items = λ j h e ne. refl;
    }

    slots_apart :
        (j h k : ℕ) → hd i ≡ some h → hd j ≡ some k → j ≢ i → slot_index size h ≢ slot_index size k
    slots_apart j h k mine other ne e = ne (
        core.unique j i h
          (other
            ∙ ap some (
                slot_index-injective v k h
                  (omega (arith, core.held_lt j k other, core.window_held i h mine))
                  (omega (arith, core.held_lt i h mine, core.window_held j k other)) (sym e)))
          mine)

    pub copy-Effect :
        {x : T} {h : ℕ}
        → hd i ≡ some h
        → get_elem? log h ≡ some x
        → Effect size i q (write_item size h x q) hd hd log log (written x h)
    copy-Effect {x} {h} mine l = record {
      core = write_item-Core v fits core i h x mine;
      own = (l, item-write_item size h x q);
      grows = Grows-refl q _ hd refl refl;
      same_consumers = refl;
      same_items = λ j k other ne. ground (arith, slots_apart j h k mine other ne);
    }

    pub publish-Effect :
        {x : T} {h : ℕ}
        → hd i ≡ some h
        → get_elem? log h ≡ some x
        → (slot_of size q h).item ≡ x
        → Effect size i q (write_sequence size h q) hd (update hd i none) log log idle
    publish-Effect {x} {h} mine l stored = record {
      core = write_sequence-Core v fits core i h mine (l ∙ ap some (sym stored));
      own = tt;
      grows = record {
        head_le = omega arith;
        tails = λ c on. (on, omega arith);
        claims = λ j k e. inl (ground arith);
      };
      same_consumers = refl;
      same_items = λ j k other ne. ground arith;
    }
