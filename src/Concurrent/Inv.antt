-- ===== src/Concurrent/Inv.antt =====
-- mpmc_queue.hpp with its threads: what holds in every state that can be reached.
use mpmc_logger.Prelude.{
  ℕ, ◌≡◌, ◌≢◌, zero, suc, refl, sym, ap, ◌∙◌, subst, Option, some, List, [], ◌∷◌, ◌++◌, arith,
  length-append, get_elem?, take, take-nil, take-append, update, update_elim, map-update,
}
use mpmc_logger.Queue.{IsSize, MpmcQueue, slot_index}
use mpmc_logger.Queue.Inv.{Core, Fits}
use mpmc_logger.Queue.Push.{Idle, new_queue-Idle}
use mpmc_logger.Queue.Runs.{register_consumer_keeps}
use mpmc_logger.Concurrent.{
  Consumer, Producer, System, produce, consume, Reach, start, later, registered, Produce, Consume,
}
use mpmc_logger.Concurrent.Local.{held, Local, Reading, Local-Grows, Reading-Grows}
use mpmc_logger.Concurrent.Produces.{Produce-Effect}
use mpmc_logger.Concurrent.Consumes.{Consume-Taken}

module _ {ℓ} {T : Type ℓ} where
  abbrev pub holds : System T → ℕ → Option ℕ
  holds s i = held (s.producers i)

  -- The shared memory and the threads. The claims are an argument, so that they can be rewritten.
  pub record ThreadsAt (size : ℕ) (s : System T) (hd : ℕ → Option ℕ) : Type ℓ where
    pub core : Core size s.memory hd s.log
    pub locals : (i : ℕ) → Local size s.memory hd s.log (s.producers i)
    pub readers : (c : ℕ) → Reading s.memory hd s.log c (s.consumers c)

  abbrev pub Threads : ℕ → System T → Type ℓ
  Threads size s = ThreadsAt size s (holds s)

  -- The invariant of the system.
  pub record Inv (size : ℕ) (s : System T) : Type ℓ where
    pub threads : Threads size s
    pub delivered : (c : ℕ) → s.received c ≡ take (s.memory.consumers c).tail s.log

  keeps_get :
      (log xs : List T) (n : ℕ) (x : T)
      → get_elem? log n ≡ some x
      → get_elem? (log ++ xs) n ≡ some x
  keeps_get [] xs n x e = cc
  keeps_get (y ∷ log) xs zero x e = e
  keeps_get (y ∷ log) xs (suc n) x e = keeps_get log xs n x e

  module _ {size : ℕ} (v : IsSize size) {s : System T} (inv : Threads size s) where
    pub Produce-Threads :
        (i : ℕ) {q : MpmcQueue T} {p : Producer T} {xs : List T}
        → Fits size (s.log ++ xs)
        → Produce size s.memory (s.producers i) q p xs
        → Threads size
            (record s { memory = q; producers = update s.producers i p; log = s.log ++ xs })
          × (q.consumers ≡ s.memory.consumers)
    Produce-Threads i {q} {p} {xs} fits st =
        let before : Fits size s.log = omega (arith, length-append s.log xs) in
        let f = Produce-Effect v i inv.core before st refl (inv.locals i) in
        let log' : List T = s.log ++ xs in
        let hd' : ℕ → Option ℕ = update (holds s) i (held p) in
        (
          subst
              (ThreadsAt size
                (record s { memory = q; producers = update s.producers i p; log = log' }))
              (map-update held s.producers i p)
              (record {
                core = f.core;
                locals =
                    update_elim (λ j pc. Local size q hd' log' pc) s.producers i p f.own
                      (λ j ne.
                        Local-Grows f.grows s.log log' (omega (arith, v.large)) (keeps_get s.log xs)
                          (s.producers j) (λ h e. f.same_items j h e (λ same. ne (sym same)))
                          (inv.locals j));
                readers = λ c.
                    Reading-Grows f.grows s.log log' c (ap (λ cs. cs c) f.same_consumers)
                      (keeps_get s.log xs) (s.consumers c) (inv.readers c);
              }),
          f.same_consumers,
        )

    pub Consume-Threads :
        (c : ℕ) {q : MpmcQueue T} {p : Consumer T} {xs : List T}
        → Fits size s.log
        → Consume size c s.memory (s.consumers c) q p xs
        → Threads size (record s {
          memory = q;
          consumers = update s.consumers c p;
          received = update s.received c (s.received c ++ xs);
        })
          × ((d : ℕ) → c ≢ d → q.consumers d ≡ s.memory.consumers d)
          × (take (s.memory.consumers c).tail s.log ++ xs ≡ take (q.consumers c).tail s.log)
    Consume-Threads c {q} {p} {xs} fits st =
        let t = Consume-Taken v c inv.core fits st (inv.readers c) in
        (
          record {
            core = t.core;
            locals = λ i.
                Local-Grows t.grows s.log s.log (omega (arith, v.large)) (λ n x e. e)
                  (s.producers i) (λ h e. ap (λ sl. (sl (slot_index size h)).item) t.same_slots)
                  (inv.locals i);
            readers =
                update_elim (λ d pc. Reading q (holds s) s.log d pc) s.consumers c p t.own
                  (λ d ne.
                    Reading-Grows t.grows s.log s.log d (t.others d ne) (λ n x e. e) (s.consumers d)
                      (inv.readers d));
          },
          t.others,
          t.delivered,
        )

  module _ {size : ℕ} (v : IsSize size) {s : System T} (inv : Inv size s) where
    Produce-Inv :
        (i : ℕ) {q : MpmcQueue T} {p : Producer T} {xs : List T}
        → Fits size (s.log ++ xs)
        → Produce size s.memory (s.producers i) q p xs
        → Inv size (record s { memory = q; producers = update s.producers i p; log = s.log ++ xs })
    Produce-Inv i {xs = xs} fits st =
        let core = inv.threads.core in
        let (threads, same) = Produce-Threads v inv.threads i fits st in
        record {
          threads = threads;
          delivered = λ c.
              inv.delivered c
              ∙ sym (take-append _ s.log xs (omega (arith, core.tail_le c, core.count)))
              ∙ ap (λ cs. take (cs c).tail (s.log ++ xs)) (sym same);
        }

    Consume-Inv :
        (c : ℕ) {q : MpmcQueue T} {p : Consumer T} {xs : List T}
        → Fits size s.log
        → Consume size c s.memory (s.consumers c) q p xs
        → Inv size (record s {
          memory = q;
          consumers = update s.consumers c p;
          received = update s.received c (s.received c ++ xs);
        })
    Consume-Inv c {q} {xs = xs} fits st =
        let (threads, others, more) = Consume-Threads v inv.threads c fits st in
        record {
          threads = threads;
          delivered =
              update_elim (λ d r. r ≡ take (q.consumers d).tail s.log) s.received c
                (s.received c ++ xs) (ap (λ r. r ++ xs) (inv.delivered c) ∙ more)
                (λ d ne. inv.delivered d ∙ ap (λ k. take k.tail s.log) (sym (others d ne)));
        }

  registered-Idle :
      {size : ℕ} (v : IsSize size) (blank : T) (n : ℕ) → Idle size (registered blank n) []
  unfolding registered
  registered-Idle v blank zero = new_queue-Idle v blank
  registered-Idle v blank (suc n) = register_consumer_keeps v (registered-Idle v blank n)

  -- The invariant holds in every state that can be reached, as long as fewer than 2^64 - 1 - SIZE
  -- items have been enqueued.
  pub Reach-Inv :
      {size : ℕ} (v : IsSize size) {blank : T} {n : ℕ} {s : System T}
      → Reach size blank n s
      → Fits size s.log
      → Inv size s
  Reach-Inv v {blank} {n} start fits = record {
    threads = record { core = registered-Idle v blank n; locals = λ i. tt; readers = λ c. tt };
    delivered = λ c. sym (take-nil _);
  }
  Reach-Inv v (later {s = s} r (produce i {xs = xs} st)) fits =
      Produce-Inv v (Reach-Inv v r (omega (arith, length-append s.log xs))) i fits st
  Reach-Inv v (later r (consume c st)) fits = Consume-Inv v (Reach-Inv v r fits) c fits st
