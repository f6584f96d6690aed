-- ===== src/Concurrent/Consumes.antt =====
-- mpmc_queue.hpp with its threads: every step of a consumer, against the invariant.
use mpmc_logger.Prelude.{
  ℕ, suc, ◌≡◌, ◌≢◌, refl, sym, ap, ◌∙◌, subst, inl, Option, some, List, [], ◌∷◌, ◌++◌, arith,
  get_elem?, take, take-suc, append-nil,
}
use mpmc_logger.Queue.{IsSize, MpmcQueue, advance_tail, unregister_consumer}
use mpmc_logger.Queue.Inv.{
  Core, Fits, slot_of, sequence_eq_tail, advance_tail-Core, unregister_consumer-Core,
}
use mpmc_logger.Concurrent.{
  Consumer, waiting, Consume, inactive, enter, load_tail, not_ready, is_ready, read, store_tail,
  unregister,
}
use mpmc_logger.Concurrent.Local.{Reading, IsReadable, Grows}
use mpmc_logger.Concurrent.Steps.{Grows-refl}

module _ {ℓ} {T : Type ℓ} where
  -- What a step of consumer `c` makes true, with the items that it returns.
  pub record Taken (size c : ℕ) (q q' : MpmcQueue T) (hd : ℕ → Option ℕ) (log xs : List T)
      (p' : Consumer T) : Type ℓ where
    pub core : Core size q' hd log
    pub own : Reading q' hd log c p'
    pub grows : Grows q q' hd hd
    pub others : (d : ℕ) → c ≢ d → q'.consumers d ≡ q.consumers d
    pub same_slots : q'.slots ≡ q.slots
    pub delivered : take (q.consumers c).tail log ++ xs ≡ take (q'.consumers c).tail log

  module _ {size : ℕ} (v : IsSize size) {q : MpmcQueue T} {hd : ℕ → Option ℕ} {log : List T} (c : ℕ)
      (core : Core size q hd log) (fits : Fits size log) where
    at_rest : {p' : Consumer T} → Reading q hd log c p' → Taken size c q q hd log [] p'
    at_rest l = record {
      core = core;
      own = l;
      grows = Grows-refl q q hd refl refl;
      others = λ d ne. refl;
      same_slots = refl;
      delivered = append-nil _;
    }

    store_tail-Taken :
        (x : T)
        → IsReadable q hd (q.consumers c).tail
        → get_elem? log (q.consumers c).tail ≡ some x
        → Taken size c q (advance_tail c (q.consumers c).tail q) hd log (x ∷ []) waiting
    store_tail-Taken x r got = record {
      core = advance_tail-Core v fits core c r.0 r.1;
      own = tt;
      grows = record {
        head_le = omega arith;
        tails = λ d on. (ground arith, ground (arith, core.tail_le c, core.count));
        claims = λ i h e. inl e;
      };
      others = λ d ne. ground arith;
      same_slots = refl;
      delivered =
          sym (take-suc _ log x got)
          ∙ ap (λ t. take t log) {x = suc (q.consumers c).tail} (ground (arith, core.count));
    }

    unregister-Taken : Taken size c q (unregister_consumer c q) hd log [] waiting
    unfolding unregister_consumer
    unregister-Taken = record {
      core = unregister_consumer-Core v fits core c;
      own = tt;
      grows = record {
        head_le = omega arith;
        tails = λ d on. (ground arith, ground arith);
        claims = λ i h e. inl e;
      };
      others = λ d ne. ground arith;
      same_slots = refl;
      delivered = append-nil _ ∙ ap (λ t. take t log) (ground arith);
    }

    -- Every step of consumer `c` keeps the invariant, and hands out the log in order.
    pub Consume-Taken :
        {p p' : Consumer T} {q' : MpmcQueue T} {xs : List T}
        → Consume size c q p q' p' xs
        → Reading q hd log c p
        → Taken size c q q' hd log xs p'
    Consume-Taken (inactive lt off) l = at_rest tt
    Consume-Taken (enter on) l = at_rest (on, tt)
    Consume-Taken load_tail l = at_rest (l.0, refl, tt)
    Consume-Taken (not_ready {t = t} ne) l = at_rest tt
    Consume-Taken (is_ready {t = t} e) l = at_rest (
      l.0,
      l.1,
      subst (IsReadable q hd) (sym l.1)
          (sequence_eq_tail v fits core c l.0 (subst (λ k. (slot_of size q k).sequence ≡ k) l.1 e)),
      tt,
    )
    Consume-Taken (read {t = t}) l = at_rest (
      l.0,
      l.1,
      l.2,
      (core.published t l.2.0 (omega (arith, core.window_tail c l.0, l.1)) l.2.1).1,
    )
    Consume-Taken (store_tail {t = t} {x = x}) l =
        subst (λ k. Taken size c q (advance_tail c k q) hd log (x ∷ []) waiting) (sym l.1)
          (store_tail-Taken x (subst (IsReadable q hd) l.1 l.2)
            (subst (λ k. get_elem? log k ≡ some x) l.1 l.3))
    Consume-Taken (unregister lt) l = unregister-Taken
