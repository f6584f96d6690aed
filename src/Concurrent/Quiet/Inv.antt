-- ===== src/Concurrent/Quiet/Inv.antt =====
-- mpmc_queue.hpp: what holds when consumers are registered while no producer is inside a call.
use mpmc_logger.Prelude.{
  ℕ, ◌≤◌, ◌<◌, ◌≡◌, refl, sym, ap, ◌∙◌, subst, false, Option, none, some, List, [], ◌++◌, arith,
  length, length-append, update, update_self, update_ne, take, take-append, append_assoc,
  ℕ_discrete,
}
use mpmc_logger.Queue.{IsSize, MpmcQueue, max_consumers}
use mpmc_logger.Queue.Inv.{Fits}
use mpmc_logger.Concurrent.{Producer, idle, Produce, Consumer, Consume, System}
use mpmc_logger.Concurrent.Inv.{Threads, Produce-Threads, Consume-Threads}
use mpmc_logger.Concurrent.Late.{Registrar, outside, counted, headed, placed, LateSystem}
use mpmc_logger.Concurrent.Quiet.{IsPlacing}
use mpmc_logger.Concurrent.Quiet.Registers.{
  Produce-num_consumers, Consume-num_consumers, inactive_stays,
}

-- The number that a registration has been given.
abbrev pub number : Registrar → Option ℕ
number outside = none
number (counted id) = some id
number (headed id h) = some id
number (placed id) = some id

module _ {ℓ} {T : Type ℓ} where
  -- What a registration may rely on after the load of the head.
  abbrev pub Settled : System T → Registrar → Type ℓ
  Settled s outside = Unit
  Settled s (counted id) = Unit
  Settled s (headed id h) = (h ≡ s.memory.head) × ((i : ℕ) → s.producers i ≡ idle)
  Settled s (placed id) =
      ((s.memory.consumers id).tail ≡ s.memory.head) × ((i : ℕ) → s.producers i ≡ idle)

  unsettled : (s : System T) (g : Registrar) → ¬ IsPlacing g → Settled s g
  unsettled s outside h = tt
  unsettled s (counted id) h = tt
  unsettled s (headed id k) h = absurd (h tt)
  unsettled s (placed id) h = absurd (h tt)

  -- It may rely on it as long as the head, its tail and the producers stay.
  pub Settled-same :
      (s s' : System T) (g : Registrar)
      → s'.memory.head ≡ s.memory.head
      → s'.producers ≡ s.producers
      → ((id : ℕ)
          → number g ≡ some id
          → (s'.memory.consumers id).tail ≡ (s.memory.consumers id).tail)
      → Settled s g
      → Settled s' g
  Settled-same s s' outside h p t l = tt
  Settled-same s s' (counted id) h p t l = tt
  Settled-same s s' (headed id k) h p t l = (l.0 ∙ sym h, λ i. ap (λ f. f i) p ∙ l.1 i)
  Settled-same s s' (placed id) h p t l = (t id refl ∙ l.0 ∙ sym h, λ i. ap (λ f. f i) p ∙ l.1 i)

  -- A consumer that is not registered yet.
  pub record IsFresh (s : System T) (c : ℕ) : Type ℓ where
    pub off : (s.memory.consumers c).active ≡ false
    pub unfed : s.received c ≡ []

  -- Consumer `c` has been given the items from some position on up to its tail.
  abbrev pub HasSegment : System T → ℕ → Type ℓ
  HasSegment s c =
      (from : ℕ) × (from ≤ length s.log)
      × (take from s.log ++ s.received c ≡ take (s.memory.consumers c).tail s.log)

  pub record Open (s : System T) (id : ℕ) : Type ℓ where
    pub below : id < s.memory.num_consumers
    pub small : id < max_consumers
    pub fresh : IsFresh s id

  pub record QuietInv (size : ℕ) (s : LateSystem T) : Type ℓ where
    pub threads : Threads size s.system
    pub given : (c : ℕ) → HasSegment s.system c
    pub fresh : (c : ℕ) → s.system.memory.num_consumers ≤ c → IsFresh s.system c
    pub opened : (i id : ℕ) → number (s.registrars i) ≡ some id → Open s.system id
    pub apart :
        (i j id : ℕ) → number (s.registrars i) ≡ some id → number (s.registrars j) ≡ some id → i ≡ j
    pub settled : (i : ℕ) → Settled s.system (s.registrars i)

  module _ {size : ℕ} (v : IsSize size) {s : LateSystem T} (inv : QuietInv size s) where
    open inv use {threads, given, fresh, opened, apart, settled}

    pub produced-Inv :
        ((j : ℕ) → ¬ IsPlacing (s.registrars j))
        → (i : ℕ) {q : MpmcQueue T} {p : Producer T} {xs : List T} → Fits size (s.system.log ++ xs)
        → Produce size s.system.memory (s.system.producers i) q p xs
        → QuietInv size (record s {
          system = record s.system {
            memory = q;
            producers = update s.system.producers i p;
            log = s.system.log ++ xs;
          };
        })
    produced-Inv calm i {q} {p} {xs} fits st =
        let (after, same) = Produce-Threads v threads i fits st in
        let number_eq = Produce-num_consumers st in
        let s' : System T = record s.system {
          memory = q;
          producers = update s.system.producers i p;
          log = s.system.log ++ xs;
        } in
        let core = threads.core in
        let keeps : (c : ℕ) → IsFresh s.system c → IsFresh s' c =
          λ c f. record { off = ap (λ cs. (cs c).active) same ∙ f.off; unfed = f.unfed } in
        record {
          threads = after;
          given = λ c.
              let (from, le, e) = given c in
              (
                from,
                omega (arith, length-append s.system.log xs),
                ap (λ l. l ++ s.system.received c) (take-append from s.system.log xs le)
                    ∙ e
                    ∙ sym
                        (take-append _ s.system.log xs (omega (arith, core.tail_le c, core.count)))
                    ∙ ap (λ cs. take (cs c).tail (s.system.log ++ xs)) (sym same),
              );
          fresh = λ c le. keeps c (fresh c (omega arith));
          opened = λ j id e.
              let o = opened j id e in
              record { below = omega (arith, o.below); small = o.small; fresh = keeps id o.fresh };
          apart = apart;
          settled = λ j. unsettled s' (s.registrars j) (calm j);
        }

    pub consumed-Inv :
        (c : ℕ) {q : MpmcQueue T} {p : Consumer T} {xs : List T}
        → Fits size s.system.log
        → Consume size c s.system.memory (s.system.consumers c) q p xs
        → QuietInv size (record s {
          system = record s.system {
            memory = q;
            consumers = update s.system.consumers c p;
            received = update s.system.received c (s.system.received c ++ xs);
          };
        })
    consumed-Inv c {q} {p} {xs} fits st =
        let (after, others, more) = Consume-Threads v threads c fits st in
        let number_eq = Consume-num_consumers st in
        let s' : System T = record s.system {
          memory = q;
          consumers = update s.system.consumers c p;
          received = update s.system.received c (s.system.received c ++ xs);
        } in
        let head_eq : q.head ≡ s.system.memory.head = after.core.count ∙ sym threads.core.count in
        let own = inactive_stays _ _ st (threads.readers c) in
        let keeps : (d : ℕ)
            → IsFresh s.system d
            → IsFresh s' d × ((q.consumers d).tail ≡ (s.system.memory.consumers d).tail) =
          λ d f. elim (ℕ_discrete c d) [
            | yes e ↦
                let f' : IsFresh s.system c = subst (IsFresh s.system) (sym e) f in
                let (off, tail, nothing) = own f'.off in
                subst
                  (λ d. IsFresh s' d × ((q.consumers d).tail ≡ (s.system.memory.consumers d).tail))
                  e
                  (
                    record {
                      off = off;
                      unfed =
                          update_self s.system.received c (s.system.received c ++ xs)
                          ∙ ap (λ l. l ++ xs) f'.unfed
                          ∙ nothing;
                    },
                    tail,
                  )
            | no ne ↦ (
              record {
                off = ap (λ k. k.active) (others d ne) ∙ f.off;
                unfed = update_ne s.system.received c d (s.system.received c ++ xs) ne ∙ f.unfed;
              },
              ap (λ k. k.tail) (others d ne),
            )
          ] in
        record {
          threads = after;
          given = λ d. elim (ℕ_discrete c d) [
            | yes e ↦
                let (from, le, eq) = given c in
                subst (HasSegment s') e (
                  from,
                  le,
                  ap (λ r. take from s.system.log ++ r)
                        (update_self s.system.received c (s.system.received c ++ xs))
                      ∙ sym (append_assoc (take from s.system.log) (s.system.received c) xs)
                      ∙ ap (λ l. l ++ xs) eq
                      ∙ more,
                )
            | no ne ↦
                let (from, le, eq) = given d in
                (
                  from,
                  le,
                  ap (λ r. take from s.system.log ++ r)
                        (update_ne s.system.received c d (s.system.received c ++ xs) ne)
                      ∙ eq
                      ∙ ap (λ k. take k.tail s.system.log) (sym (others d ne)),
                )
          ];
          fresh = λ d le. (keeps d (fresh d (omega (arith, number_eq)))).0;
          opened = λ j id e.
              let o = opened j id e in
              record {
                below = omega (arith, o.below, number_eq);
                small = o.small;
                fresh = (keeps id o.fresh).0;
              };
          apart = apart;
          settled = λ j.
              Settled-same s.system s' (s.registrars j) head_eq refl
                (λ id e. (keeps id (opened j id e).fresh).1) (settled j);
        }
