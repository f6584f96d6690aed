-- ===== src/Concurrent/Stuck.antt =====
-- mpmc_queue.hpp with its threads: a consumer whose next item has been overwritten.
use mpmc_logger.Prelude.{
  ℕ, ◌+◌, ◌≤◌, ◌<◌, ◌≡◌, ◌≢◌, ◌^◌, refl, sym, ap, ◌∙◌, none, some, List, [], ◌++◌, arith, length,
  length-append, append-nil, subst, update, update_self, update_ne, update_elim, ℕ_discrete,
}
use mpmc_logger.Queue.{MpmcQueue, slot_index, unregister_consumer}
use mpmc_logger.Queue.Inv.{Fits, slot_of}
use mpmc_logger.Concurrent.{
  Producer, Produce, Consumer, waiting, entered, at, matched, copied, Consume, System, Step,
  produce, consume,
}
use mpmc_logger.Concurrent.Local.{held}
use mpmc_logger.Concurrent.Late.{Runs, here, next}

-- Where the thread of a stuck consumer may stand: nowhere past the test of `pop`.
abbrev pub BeforeTest {ℓ} : {T : Type ℓ} → ℕ → Consumer T → Type 0
BeforeTest tail waiting = Unit
BeforeTest tail entered = Unit
BeforeTest tail (at t) = t ≡ tail
BeforeTest tail (matched t) = ⊥
BeforeTest tail (copied t x) = ⊥

update_at {ℓ} : {A : Type ℓ} (f : ℕ → A) (i j : ℕ) (a : A) → i ≡ j → update f i a j ≡ a
update_at f i j a e = ground arith

module _ {ℓ} {T : Type ℓ} (size : ℕ) where
  -- The slot of the consumer's next position holds another position, which nobody will publish.
  pub record IsLost (q : MpmcQueue T) (tail : ℕ) : Type 0 where
    pub behind : tail < q.head
    pub overwritten : (slot_of size q tail).sequence ≢ tail

  -- The consumer stands at a lost position, before the test of `pop`.
  pub record IsStuck (c : ℕ) (s : System T) : Type ℓ where
    pub count : s.memory.head ≡ length s.log
    pub tail : ℕ
    pub tail_eq : (s.memory.consumers c).tail ≡ tail
    pub lost : IsLost s.memory tail
    pub unheld : (i : ℕ) → held (s.producers i) ≢ some tail
    pub before : BeforeTest tail (s.consumers c)

  -- What a step of a producer leaves.
  record Produced (q q' : MpmcQueue T) (p' : Producer T) (xs : List T) (tail : ℕ) : Type 0 where
    readers : q'.consumers ≡ q.consumers
    head_eq : q'.head ≡ q.head + length xs
    lost : IsLost q' tail
    unheld : held p' ≢ some tail

  quiet :
      {q q' : MpmcQueue T} {p' : Producer T} {tail : ℕ}
      → IsLost q tail
      → q'.consumers ≡ q.consumers
      → q'.head ≡ q.head
      → q'.slots ≡ q.slots
      → held p' ≡ none
      → Produced q q' p' [] tail
  quiet {q} {q'} {p'} {tail} l readers head slots free = record {
    readers = readers;
    head_eq = omega arith;
    lost = record {
      behind = omega (arith, l.behind);
      overwritten =
          λ e. l.overwritten (ap (λ f. (f (slot_index size tail)).sequence) (sym slots) ∙ e);
    };
    unheld = λ e. cc;
  }

  produce_lost :
      {q q' : MpmcQueue T} {p p' : Producer T} {xs : List T} (tail : ℕ)
      → Produce size q p q' p' xs
      → q.head + 1 < 2 ^ 64
      → IsLost q tail
      → held p ≢ some tail
      → Produced q q' p' xs tail
  produce_lost tail (Produce.call x) lt l free = quiet l refl refl refl refl
  produce_lost tail Produce.load_head lt l free = quiet l refl refl refl refl
  produce_lost tail Produce.load_min_tail lt l free = quiet l refl refl refl refl
  produce_lost tail (Produce.room e) lt l free = quiet l refl refl refl refl
  produce_lost tail (Produce.full e) lt l free = quiet l refl refl refl refl
  produce_lost tail Produce.refresh lt l free = quiet l refl refl refl refl
  produce_lost tail (Produce.skip a b) lt l free = quiet l refl refl refl refl
  produce_lost tail (Produce.see a b) lt l free = quiet l refl refl refl refl
  produce_lost tail Produce.read_tail lt l free = quiet l refl refl refl refl
  produce_lost tail (Produce.finish e) lt l free = quiet l refl refl refl refl
  produce_lost tail (Produce.store_min_tail e) lt l free = quiet l refl refl refl refl
  produce_lost tail (Produce.keep_min_tail e) lt l free = quiet l refl refl refl refl
  produce_lost tail Produce.store_refresh lt l free = quiet l refl refl refl refl
  produce_lost tail (Produce.room_now e) lt l free = quiet l refl refl refl refl
  produce_lost tail (Produce.refuse e) lt l free = quiet l refl refl refl refl
  produce_lost tail Produce.lose lt l free = quiet l refl refl refl refl
  produce_lost {q} tail (Produce.win {h = h} e) lt l free = record {
    readers = refl;
    head_eq = omega arith;
    lost = record { behind = omega (arith, l.behind); overwritten = l.overwritten };
    unheld = λ same. let k : h ≡ tail = cc in absurd (omega (arith, l.behind));
  }
  produce_lost {q} tail (Produce.copy {x = x} {h = h}) lt l free = record {
    readers = refl;
    head_eq = omega arith;
    lost = record { behind = l.behind; overwritten = λ e. l.overwritten (ground arith) };
    unheld = free;
  }
  produce_lost {q} tail (Produce.publish {h = h}) lt l free = record {
    readers = refl;
    head_eq = omega arith;
    lost = record {
      behind = l.behind;
      overwritten = λ same. ground (arith, l.overwritten, λ (k : h ≡ tail). free (ap some k));
    };
    unheld = λ e. cc;
  }

  -- What a step of consumer `d` leaves to the others.
  record Consumed (d : ℕ) (q q' : MpmcQueue T) : Type ℓ where
    others : (c : ℕ) → d ≢ c → q'.consumers c ≡ q.consumers c
    head_eq : q'.head ≡ q.head
    slots_eq : q'.slots ≡ q.slots

  same_memory : (d : ℕ) (q : MpmcQueue T) → Consumed d q q
  same_memory d q = record { others = λ c ne. refl; head_eq = refl; slots_eq = refl }

  Consume-keeps :
      (d : ℕ) {q q' : MpmcQueue T} {p p' : Consumer T} {xs : List T}
      → Consume size d q p q' p' xs
      → Consumed d q q'
  unfolding unregister_consumer
  Consume-keeps d {q} (Consume.inactive lt off) = same_memory d q
  Consume-keeps d {q} (Consume.enter on) = same_memory d q
  Consume-keeps d {q} Consume.load_tail = same_memory d q
  Consume-keeps d {q} (Consume.not_ready ne) = same_memory d q
  Consume-keeps d {q} (Consume.is_ready e) = same_memory d q
  Consume-keeps d {q} Consume.read = same_memory d q
  Consume-keeps d {q} Consume.store_tail = record {
    others = λ c ne. update_ne q.consumers d c _ ne;
    head_eq = refl;
    slots_eq = refl;
  }
  Consume-keeps d {q} (Consume.unregister lt) = record {
    others = λ c ne. update_ne q.consumers d c _ ne;
    head_eq = refl;
    slots_eq = refl;
  }

  -- A step of the stuck consumer itself.
  own_step :
      (c tail : ℕ) {q q' : MpmcQueue T} {p p' : Consumer T} {xs : List T}
      → Consume size c q p q' p' xs
      → (q.consumers c).tail ≡ tail
      → IsLost q tail
      → BeforeTest tail p
      → ((q'.consumers c).tail ≡ tail) × BeforeTest tail p' × (xs ≡ [])
  unfolding unregister_consumer
  own_step c tail (Consume.inactive lt off) at_tail l b = (at_tail, tt, refl)
  own_step c tail (Consume.enter e) at_tail l b = (at_tail, tt, refl)
  own_step c tail Consume.load_tail at_tail l b = (at_tail, at_tail, refl)
  own_step c tail (Consume.not_ready ne) at_tail l b = (at_tail, tt, refl)
  own_step c tail {q} (Consume.is_ready {t = t} e) at_tail l b =
      absurd (l.overwritten (subst (λ k. (slot_of size q k).sequence ≡ k) b e))
  own_step c tail Consume.read at_tail l b = absurd b
  own_step c tail Consume.store_tail at_tail l b = absurd b
  own_step c tail {q} (Consume.unregister lt) at_tail l b =
      (ap (λ r. r.tail) (update_self q.consumers c _) ∙ at_tail, tt, refl)

  module _ (c : ℕ) {s : System T} (v : IsStuck c s) where
    pub Step-IsStuck :
        {t : System T}
        → Step size s t
        → Fits size t.log
        → IsStuck c t × (t.received c ≡ s.received c)
    Step-IsStuck (produce i {q = q} {p = p} {xs = xs} st) fits =
        let r =
          produce_lost v.tail st (omega (arith, v.count, length-append s.log xs)) v.lost
            (v.unheld i) in
        (
          record {
            count = omega (arith, r.head_eq, v.count, length-append s.log xs);
            tail = v.tail;
            tail_eq = ap (λ f. (f c).tail) r.readers ∙ v.tail_eq;
            lost = r.lost;
            unheld =
                update_elim (λ _ p. held p ≢ some v.tail) s.producers i p r.unheld
                  (λ j ne. v.unheld j);
            before = v.before;
          },
          refl,
        )
    Step-IsStuck (consume d {q = q} {p = p} {xs = xs} st) fits =
        let k = Consume-keeps d st in
        let lost : IsLost q v.tail = record {
          behind = omega (arith, k.head_eq, v.lost.behind);
          overwritten = λ e.
              v.lost.overwritten
                (ap (λ f. (f (slot_index size v.tail)).sequence) (sym k.slots_eq) ∙ e);
        } in
        elim (ℕ_discrete d c) [
          | yes e ↦
              let (at_tail, before, nothing) =
                own_step d v.tail st (ap (λ j. (s.memory.consumers j).tail) e ∙ v.tail_eq) v.lost
                  (subst (λ j. BeforeTest v.tail (s.consumers j)) (sym e) v.before) in
              (
                record {
                  count = k.head_eq ∙ v.count;
                  tail = v.tail;
                  tail_eq = ap (λ j. (q.consumers j).tail) (sym e) ∙ at_tail;
                  lost = lost;
                  unheld = v.unheld;
                  before = subst (BeforeTest v.tail) (sym (update_at s.consumers d c p e)) before;
                },
                update_at s.received d c (s.received d ++ xs) e
                    ∙ ap (λ ys. s.received d ++ ys) nothing
                    ∙ append-nil (s.received d)
                    ∙ ap s.received e,
              )
          | no ne ↦ (
            record {
              count = k.head_eq ∙ v.count;
              tail = v.tail;
              tail_eq = ap (λ r. r.tail) (k.others c ne) ∙ v.tail_eq;
              lost = lost;
              unheld = v.unheld;
              before = subst (BeforeTest v.tail) (sym (update_ne s.consumers d c p ne)) v.before;
            },
            update_ne s.received d c (s.received d ++ xs) ne,
          )
        ]

  Step-log : {s t : System T} → Step size s t → length s.log ≤ length t.log
  Step-log {s} (produce i {xs = xs} st) = omega (arith, length-append s.log xs)
  Step-log (consume d st) = omega arith

  -- A consumer that stands at a position that has been overwritten, with nobody about to publish it,
  -- and before the test of `pop`, is given nothing any more and stays so, whatever steps the
  -- producers and consumers take.
  pub IsStuck-forever :
      (c : ℕ) {s t : System T}
      → Runs size s t
      → IsStuck c s
      → Fits size t.log
      → IsStuck c t × (t.received c ≡ s.received c)
  IsStuck-forever c here v fits = (v, refl)
  IsStuck-forever c (next {t = t} r st) v fits =
      let (mid, same) = IsStuck-forever c r v (omega (arith, Step-log st)) in
      let (last, same') = Step-IsStuck c mid st fits in (last, same' ∙ same)
