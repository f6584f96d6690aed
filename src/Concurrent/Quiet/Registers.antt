-- ===== src/Concurrent/Quiet/Registers.antt =====
-- mpmc_queue.hpp: what the steps of a registration do to the invariant of the threads, and what the
-- steps of the other threads do to a consumer that is not registered yet.
use mpmc_logger.Prelude.{
  ℕ, ◌<◌, ◌≡◌, ◌≢◌, refl, sym, subst, false, Option, some, List, [], arith, bool_absurd, update,
  ℕ_discrete,
}
use mpmc_logger.Queue.{IsSize, MpmcQueue, ConsumerInfo, max_consumers, unregister_consumer}
use mpmc_logger.Concurrent.{
  Producer, idle, Produce, Consumer, waiting, entered, at, matched, copied, Consume, inactive,
  enter, load_tail, not_ready, is_ready, read, store_tail, unregister, System,
}
use mpmc_logger.Concurrent.Local.{Local, Reading, Local-Grows}
use mpmc_logger.Concurrent.Steps.{Grows-refl}
use mpmc_logger.Concurrent.Inv.{holds, Threads}

module _ {ℓ} {T : Type ℓ} where
  -- Only a registration changes the number of consumers, and a producer changes no consumer.
  pub Produce-num_consumers :
      {size : ℕ} {q q' : MpmcQueue T} {p p' : Producer T} {xs : List T}
      → Produce size q p q' p' xs
      → q'.num_consumers ≡ q.num_consumers
  Produce-num_consumers (Produce.call x) = refl
  Produce-num_consumers Produce.load_head = refl
  Produce-num_consumers Produce.load_min_tail = refl
  Produce-num_consumers (Produce.room e) = refl
  Produce-num_consumers (Produce.full e) = refl
  Produce-num_consumers Produce.refresh = refl
  Produce-num_consumers (Produce.skip lt e) = refl
  Produce-num_consumers (Produce.see lt e) = refl
  Produce-num_consumers Produce.read_tail = refl
  Produce-num_consumers (Produce.finish e) = refl
  Produce-num_consumers (Produce.store_min_tail e) = refl
  Produce-num_consumers (Produce.keep_min_tail e) = refl
  Produce-num_consumers Produce.store_refresh = refl
  Produce-num_consumers (Produce.room_now e) = refl
  Produce-num_consumers (Produce.refuse e) = refl
  Produce-num_consumers (Produce.win e) = refl
  Produce-num_consumers Produce.lose = refl
  Produce-num_consumers Produce.copy = refl
  Produce-num_consumers Produce.publish = refl

  pub Produce-consumers :
      {size : ℕ} {q q' : MpmcQueue T} {p p' : Producer T} {xs : List T}
      → Produce size q p q' p' xs
      → q'.consumers ≡ q.consumers
  Produce-consumers (Produce.call x) = refl
  Produce-consumers Produce.load_head = refl
  Produce-consumers Produce.load_min_tail = refl
  Produce-consumers (Produce.room e) = refl
  Produce-consumers (Produce.full e) = refl
  Produce-consumers Produce.refresh = refl
  Produce-consumers (Produce.skip lt e) = refl
  Produce-consumers (Produce.see lt e) = refl
  Produce-consumers Produce.read_tail = refl
  Produce-consumers (Produce.finish e) = refl
  Produce-consumers (Produce.store_min_tail e) = refl
  Produce-consumers (Produce.keep_min_tail e) = refl
  Produce-consumers Produce.store_refresh = refl
  Produce-consumers (Produce.room_now e) = refl
  Produce-consumers (Produce.refuse e) = refl
  Produce-consumers (Produce.win e) = refl
  Produce-consumers Produce.lose = refl
  Produce-consumers Produce.copy = refl
  Produce-consumers Produce.publish = refl

  pub Consume-num_consumers :
      {size c : ℕ} {q q' : MpmcQueue T} {p p' : Consumer T} {xs : List T}
      → Consume size c q p q' p' xs
      → q'.num_consumers ≡ q.num_consumers
  unfolding unregister_consumer
  Consume-num_consumers (inactive lt e) = refl
  Consume-num_consumers (enter e) = refl
  Consume-num_consumers load_tail = refl
  Consume-num_consumers (not_ready e) = refl
  Consume-num_consumers (is_ready e) = refl
  Consume-num_consumers read = refl
  Consume-num_consumers store_tail = refl
  Consume-num_consumers (unregister lt) = refl

  pub Consume-others :
      {size c : ℕ} {q q' : MpmcQueue T} {p p' : Consumer T} {xs : List T}
      → Consume size c q p q' p' xs
      → (d : ℕ) → c ≢ d
      → q'.consumers d ≡ q.consumers d
  unfolding unregister_consumer
  Consume-others (inactive lt e) d ne = refl
  Consume-others (enter e) d ne = refl
  Consume-others load_tail d ne = refl
  Consume-others (not_ready e) d ne = refl
  Consume-others (is_ready e) d ne = refl
  Consume-others read d ne = refl
  Consume-others store_tail d ne = ground arith
  Consume-others (unregister lt) d ne = ground arith

  -- The thread of an inactive consumer is given nothing, and its tail stays.
  pub inactive_stays :
      {size c : ℕ} {q q' : MpmcQueue T} (hd : ℕ → Option ℕ) (log : List T) {p p' : Consumer T}
      {xs : List T}
      → Consume size c q p q' p' xs
      → Reading q hd log c p
      → (q.consumers c).active ≡ false
      → ((q'.consumers c).active ≡ false)
        × ((q'.consumers c).tail ≡ (q.consumers c).tail)
        × (xs ≡ [])
  unfolding unregister_consumer
  inactive_stays hd log (inactive lt e) l off = (off, refl, refl)
  inactive_stays hd log (enter e) l off = bool_absurd e off
  inactive_stays hd log load_tail l off = bool_absurd l.0 off
  inactive_stays hd log (not_ready e) l off = bool_absurd l.0 off
  inactive_stays hd log (is_ready e) l off = bool_absurd l.0 off
  inactive_stays hd log read l off = bool_absurd l.0 off
  inactive_stays hd log store_tail l off = bool_absurd l.0 off
  inactive_stays hd log (unregister lt) l off = (ground arith, ground arith, refl)

  -- What a consumer's thread knows depends on its own fields, the head and the claims.
  Reading-same :
      (q q' : MpmcQueue T) (hd : ℕ → Option ℕ) (log : List T) (c : ℕ) (p : Consumer T)
      → q'.consumers c ≡ q.consumers c
      → q'.head ≡ q.head
      → Reading q hd log c p
      → Reading q' hd log c p
  Reading-same q q' hd log c waiting e h l = tt
  Reading-same q q' hd log c entered e h l = rw e l
  Reading-same q q' hd log c (at t) e h l = rw e l
  Reading-same q q' hd log c (matched t) e h l = rw (e, h) l
  Reading-same q q' hd log c (copied t x) e h l = rw (e, h) l

  Reading-inactive :
      (q q' : MpmcQueue T) (hd : ℕ → Option ℕ) (log : List T) (c : ℕ) (p : Consumer T)
      → (q.consumers c).active ≡ false
      → Reading q hd log c p
      → Reading q' hd log c p
  Reading-inactive q q' hd log c waiting off l = tt
  Reading-inactive q q' hd log c entered off l = bool_absurd l.0 off
  Reading-inactive q q' hd log c (at t) off l = bool_absurd l.0 off
  Reading-inactive q q' hd log c (matched t) off l = bool_absurd l.0 off
  Reading-inactive q q' hd log c (copied t x) off l = bool_absurd l.0 off

  module _ {size : ℕ} (v : IsSize size) {s : System T} (inv : Threads size s) where
    open inv use {core}

    pub count-Threads :
        (n : ℕ) → Threads size (record s { memory = record s.memory { num_consumers = n } })
    count-Threads n = record {
      core = record {
        count = core.count;
        ids = core.ids;
        tail_le = core.tail_le;
        tail_held = core.tail_held;
        window_tail = core.window_tail;
        held_lt = core.held_lt;
        window_held = core.window_held;
        unique = core.unique;
        behind = record {
          le_head = core.behind.le_head;
          le_tail = core.behind.le_tail;
          le_held = core.behind.le_held;
        };
        seq_lt = core.seq_lt;
        unpublished = core.unpublished;
        published = core.published;
      };
      locals = λ i.
          Local-Grows
            (Grows-refl s.memory (record s.memory { num_consumers = n }) (holds s) refl refl) s.log
            s.log (omega (arith, v.large)) (λ k x e. e) (s.producers i) (λ h e. refl)
            (inv.locals i);
      readers = λ c.
          Reading-same s.memory (record s.memory { num_consumers = n }) (holds s) s.log c
            (s.consumers c) refl refl (inv.readers c);
    }

    -- With no producer inside a call, an inactive consumer is moved to the head, or made active there.
    pub enrol-Threads :
        (id : ℕ) (k : ConsumerInfo)
        → ((i : ℕ) → s.producers i ≡ idle)
        → id < max_consumers
        → (s.memory.consumers id).active ≡ false
        → k.tail ≡ s.memory.head
        → Threads size
            (record s { memory = record s.memory { consumers = update s.memory.consumers id k } })
    enrol-Threads id k rest lt off at_head =
        let q = record s.memory { consumers = update s.memory.consumers id k } in
        let free : (i h : ℕ) → holds s i ≢ some h = λ i h e. cc (rest i) in
        record {
          core = record {
            count = core.count;
            ids = λ c on. ground (arith, core.ids c);
            tail_le = λ c. ground (arith, core.tail_le c);
            tail_held = λ c i h e. absurd (free i h e);
            window_tail = λ c on. ground (arith, core.window_tail c);
            held_lt = core.held_lt;
            window_held = core.window_held;
            unique = core.unique;
            behind = record {
              le_head = core.behind.le_head;
              le_tail = λ c on. ground (arith, core.behind.le_tail c, core.behind.le_head);
              le_held = core.behind.le_held;
            };
            seq_lt = core.seq_lt;
            unpublished = core.unpublished;
            published = core.published;
          };
          locals = λ i. subst (Local size q (holds s) s.log) (sym (rest i)) tt;
          readers = λ c. elim (ℕ_discrete id c) [
            | yes e ↦
                Reading-inactive s.memory q (holds s) s.log c (s.consumers c)
                  (subst (λ d. (s.memory.consumers d).active ≡ false) e off) (inv.readers c)
            | no ne ↦
                Reading-same s.memory q (holds s) s.log c (s.consumers c) (ground arith) refl
                  (inv.readers c)
          ];
        }
