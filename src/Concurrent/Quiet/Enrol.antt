-- ===== src/Concurrent/Quiet/Enrol.antt =====
-- mpmc_queue.hpp: the steps of a registration keep what holds when no producer is inside a call.
use mpmc_logger.Prelude.{
  ℕ, ◌+◌, ◌≤◌, ◌<◌, ◌≡◌, ◌≢◌, refl, sym, ap, ◌∙◌, subst, ◌⊎◌, inl, inr, none, some, some-injective,
  ◌++◌, arith, update, update_self, update_ne, take, append-nil, ℕ_discrete,
}
use mpmc_logger.Queue.{IsSize, ConsumerInfo, MpmcQueue, max_consumers, u32_mod}
use mpmc_logger.Concurrent.{idle, System}
use mpmc_logger.Concurrent.Inv.{Threads}
use mpmc_logger.Concurrent.Late.{Registrar, outside, counted, headed, LateSystem, count_one}
use mpmc_logger.Concurrent.Quiet.Registers.{count-Threads, enrol-Threads}
use mpmc_logger.Concurrent.Quiet.Inv.{
  number, Settled, Settled-same, IsFresh, HasSegment, Open, QuietInv,
}

updated_number :
    (f : ℕ → Registrar) (i j id : ℕ) (g : Registrar)
    → number (update f i g j) ≡ some id
    → ((i ≡ j) × (number g ≡ some id)) ⊎ ((i ≢ j) × (number (f j) ≡ some id))
updated_number f i j id g e = elim (ℕ_discrete i j) [
  | yes h ↦ inl (h, sym (ap number (update_self f i g)) ∙ ap (λ k. number (update f i g k)) h ∙ e)
  | no ne ↦ inr (ne, sym (ap number (update_ne f i j g ne)) ∙ e)
]

pub no_number {κ} : {id : ℕ} {A : Type κ} → none ≡ some id → A
no_number h = cc

module _ {ℓ} {T : Type ℓ} {size : ℕ} (v : IsSize size) {s : LateSystem T} (inv : QuietInv size s)
    (i : ℕ) where
  open inv use {threads, given, fresh, opened, apart, settled}

  -- Registration `i` is at `g` and the memory is `q`.
  abbrev pub moved : MpmcQueue T → Registrar → LateSystem T
  moved q g = record s {
    system = record s.system { memory = q };
    registrars = update s.registrars i g;
  }

  moved-Inv :
      (q : MpmcQueue T) (g : Registrar)
      → Threads size (moved q g).system
      → ((c : ℕ) → HasSegment (moved q g).system c)
      → ((c : ℕ) → q.num_consumers ≤ c → IsFresh (moved q g).system c)
      → ((id : ℕ)
          → number g ≡ some id
          → Open (moved q g).system id × ((k : ℕ) → i ≢ k → number (s.registrars k) ≢ some id))
      → ((k id : ℕ) → i ≢ k → number (s.registrars k) ≡ some id → Open (moved q g).system id)
      → Settled (moved q g).system g
      → ((k : ℕ) → i ≢ k → Settled (moved q g).system (s.registrars k))
      → QuietInv size (moved q g)
  moved-Inv q g after segments unborn own rest mine others = record {
    threads = after;
    given = segments;
    fresh = unborn;
    opened = λ j id e. elim (updated_number s.registrars i j id g e) [
      | inl (same, h) ↦ (own id h).0
      | inr (ne, h) ↦ rest j id ne h
    ];
    apart = λ j k id e f. elim (updated_number s.registrars i j id g e) [
      | inl (same, h) ↦ elim (updated_number s.registrars i k id g f) [
        | inl (same', h') ↦ sym same ∙ same'
        | inr (ne', h') ↦ absurd ((own id h).1 k ne' h')
      ]
      | inr (ne, h) ↦ elim (updated_number s.registrars i k id g f) [
        | inl (same', h') ↦ absurd ((own id h').1 j ne h)
        | inr (ne', h') ↦ apart j k id h h'
      ]
    ];
    settled = λ j. elim (ℕ_discrete i j) [
      | yes e ↦
          subst (λ k. Settled (moved q g).system (update s.registrars i g k)) e
            (subst (Settled (moved q g).system) (sym (update_self s.registrars i g)) mine)
      | no ne ↦
          subst (Settled (moved q g).system) (sym (update_ne s.registrars i j g ne)) (others j ne)
    ];
  }

  -- While the counter goes up.
  module _ (lt : s.system.memory.num_consumers + 1 < u32_mod) (g : Registrar) where
    abbrev pub recounted : System T
    recounted = (moved (count_one s.system.memory) g).system

    IsFresh-later : (c : ℕ) → s.system.memory.num_consumers + 1 ≤ c → IsFresh recounted c
    IsFresh-later c le = let f = fresh c (omega arith) in record { off = f.off; unfed = f.unfed }

    Open-later : (k id : ℕ) → number (s.registrars k) ≡ some id → Open recounted id
    Open-later k id h =
        let o = opened k id h in
        record {
          below = omega (arith, o.below);
          small = o.small;
          fresh = record { off = o.fresh.off; unfed = o.fresh.unfed };
        }

    Settled-later : (k : ℕ) → Settled recounted (s.registrars k)
    Settled-later k =
        Settled-same s.system recounted (s.registrars k) refl refl (λ id e. refl) (settled k)

  pub count-Inv :
      s.system.memory.num_consumers < max_consumers
      → s.system.memory.num_consumers + 1 < u32_mod
      → QuietInv size (moved (count_one s.system.memory) (counted s.system.memory.num_consumers))
  count-Inv small lt =
      let n = s.system.memory.num_consumers in
      let g = counted n in
      moved-Inv (count_one s.system.memory) g (count-Threads v threads _) given
        (λ c le. IsFresh-later lt g c (omega arith))
        (λ id e.
          let same : n ≡ id = some-injective _ _ e in
          let f = fresh id (omega arith) in
          (
            record {
              below = omega arith;
              small = omega arith;
              fresh = record { off = f.off; unfed = f.unfed };
            },
            λ k ne h. omega (arith, (opened k id h).below),
          ))
        (λ k id ne h. Open-later lt g k id h) tt (λ k ne. Settled-later lt g k)

  pub too_many-Inv :
      s.system.memory.num_consumers + 1 < u32_mod
      → QuietInv size (moved (count_one s.system.memory) outside)
  too_many-Inv lt =
      moved-Inv (count_one s.system.memory) outside (count-Threads v threads _) given
        (λ c le. IsFresh-later lt outside c (omega arith)) (λ id e. no_number e)
        (λ k id ne h. Open-later lt outside k id h) tt (λ k ne. Settled-later lt outside k)

  -- Nobody else has the number of registration `i`.
  alone : (id k : ℕ) → number (s.registrars i) ≡ some id → i ≢ k → number (s.registrars k) ≢ some id
  alone id k e ne h = ne (apart i k id e h)

  pub load_head-Inv :
      (id : ℕ)
      → s.registrars i ≡ counted id
      → ((k : ℕ) → s.system.producers k ≡ idle)
      → QuietInv size (moved s.system.memory (headed id s.system.memory.head))
  load_head-Inv id e rest =
      let mine : number (s.registrars i) ≡ some id = ap number e in
      moved-Inv s.system.memory (headed id s.system.memory.head) threads given fresh
        (λ d h. let h' = mine ∙ h in (opened i d h', λ k ne. alone d k h' ne))
        (λ k d ne h. opened k d h) (refl, rest) (λ k ne. settled k)

  -- The memory with the fields of consumer `id` replaced.
  module _ (id : ℕ) (entry : ConsumerInfo) (o : Open s.system id)
      (mine : number (s.registrars i) ≡ some id) (g : Registrar) where
    abbrev pub entered_memory : MpmcQueue T
    entered_memory = record s.system.memory {
      consumers = update s.system.memory.consumers id entry;
    }

    fresh_elsewhere :
        (d : ℕ) → id ≢ d → IsFresh s.system d → IsFresh (moved entered_memory g).system d
    fresh_elsewhere d ne f = record {
      off = ap (λ k. k.active) (update_ne s.system.memory.consumers id d entry ne) ∙ f.off;
      unfed = f.unfed;
    }

    -- The steps after the load of the head.
    pub entered-Inv :
        entry.tail ≡ s.system.memory.head
        → ((k : ℕ) → s.system.producers k ≡ idle)
        → ((d : ℕ) → number g ≡ some d → Open (moved entered_memory g).system d × (id ≡ d))
        → Settled (moved entered_memory g).system g
        → QuietInv size (moved entered_memory g)
    entered-Inv at_head rest own settled_own =
        moved-Inv entered_memory g
          (enrol-Threads v threads id entry rest o.small o.fresh.off at_head)
          (λ c. elim (ℕ_discrete id c) [
            | yes e ↦ subst (HasSegment (moved entered_memory g).system) e (
              s.system.memory.head,
              omega (arith, threads.core.count),
              ap (λ r. take s.system.memory.head s.system.log ++ r) o.fresh.unfed
                  ∙ append-nil _
                  ∙ ap (λ t. take t s.system.log)
                      (sym (
                        ap (λ k. k.tail) (update_self s.system.memory.consumers id entry)
                        ∙ at_head)),
            )
            | no ne ↦
                let (from, le, eq) = given c in
                (
                  from,
                  le,
                  eq
                      ∙ ap (λ k. take k.tail s.system.log)
                          (sym (update_ne s.system.memory.consumers id c entry ne)),
                )
          ])
          (λ c le. fresh_elsewhere c (λ e. omega (arith, o.below)) (fresh c le))
          (λ d h. let (op, same) = own d h in (op, λ k ne. alone d k (mine ∙ ap some same) ne))
          (λ k d ne h.
            let op = opened k d h in
            record {
              below = op.below;
              small = op.small;
              fresh = fresh_elsewhere d (λ e. alone id k mine ne (h ∙ ap some (sym e))) op.fresh;
            })
          settled_own
          (λ k ne.
            Settled-same s.system (moved entered_memory g).system (s.registrars k) refl refl
              (λ d h.
                ap (λ x. x.tail)
                  (update_ne s.system.memory.consumers id d entry
                    (λ e. alone id k mine ne (h ∙ ap some (sym e)))))
              (settled k))
