-- ===== src/Bench/Refill.antt =====
-- bench/bench_queue_throughput.cpp: `BM_QueuePop` never finds its queue empty.
use mpmc_logger.Prelude.{
  ℕ, zero, suc, ◌+◌, ◌-◌, ◌^◌, ◌≤◌, ◌<◌, ◌≡◌, refl, sym, ap, ◌∙◌, inl, inr, true, none, some, List,
  [], ◌∷◌, ◌++◌, arith, length, length-append, subst, update, update_self, update_ne, ℕ_discrete,
  get_elem?-in_range,
}
use mpmc_logger.Queue
use mpmc_logger.Queue.{
  MpmcQueue, ConsumerInfo, IsSize, new_queue, register_consumer, recompute_and_store_min_tail,
}
use mpmc_logger.Queue.Inv.{Fits, set_min-Core}
use mpmc_logger.Queue.Push.{Idle, view, push-Pushed, compute-IsBehind, new_queue-Idle}
use mpmc_logger.Queue.Runs.{register_consumer_keeps}
use mpmc_logger.Queue.Refine.{pop_refines, spec_pop}
use mpmc_logger.Queue.Lagging.{refused_by_only}
use mpmc_logger.Entry.{LogEntry}
use mpmc_logger.Logger.Drain.{queue_size-IsSize}
use mpmc_logger.Logger.Accept.{IsOnly}
use mpmc_logger.Bench.{bench_size, fill, pop_rounds}

-- One consumer has `n` entries to read.
pub record HasLeft (cid : ℕ) (log : List LogEntry) (n : ℕ) (q : MpmcQueue LogEntry) : Type 0 where
  pub idle : Idle bench_size q log
  pub active : (q.consumers cid).active ≡ true
  pub only : IsOnly cid q
  pub left : (q.consumers cid).tail + n ≡ length log

-- A consumer that is still the only one after its own record was written.
only_of_update :
    (cid : ℕ) (cs : ℕ → ConsumerInfo) (moved : ConsumerInfo) (d : ℕ)
    → ((k : ℕ) → (cs k).active ≡ true → k ≡ cid)
    → (update cs cid moved d).active ≡ true
    → d ≡ cid
only_of_update cid cs moved d only on = elim (ℕ_discrete cid d) [
  | yes e ↦ sym e
  | no ne ↦ only d (ap (λ c. c.active) (sym (update_ne cs cid d moved ne)) ∙ on)
]

add_zero : (n : ℕ) → n ≡ n + 0
add_zero n = omega arith

module _ (cid : ℕ) (e : LogEntry) where
  push_left :
      (log : List LogEntry) (n : ℕ) (q : MpmcQueue LogEntry)
      → HasLeft cid log n q
      → n < bench_size
      → Fits bench_size (log ++ (e ∷ []))
      → HasLeft cid (log ++ (e ∷ [])) (suc n) (Queue.push bench_size e q).1
  push_left log n q h lt fits =
      let out = push-Pushed queue_size-IsSize e fits h.idle in
      let full =
        refused_by_only queue_size-IsSize cid (omega (arith, length-append log (e ∷ []))) h.idle
          h.active h.only in
      let same = out.same_readers in
      elim out.outcome [
        | inl (refuse, ok, idle) ↦ absurd (omega (arith, full.0 refuse, h.left))
        | inr (room, ok, idle) ↦ record {
          idle = idle;
          active = ap (λ r. (r cid).active) same ∙ h.active;
          only = λ d on. h.only d (ap (λ r. (r d).active) (sym same) ∙ on);
          left = omega (arith, ap (λ r. (r cid).tail) same, h.left, length-append log (e ∷ []));
        }
      ]

  pop_left :
      (log : List LogEntry) (n : ℕ) (q : MpmcQueue LogEntry)
      → HasLeft cid log (suc n) q
      → Fits bench_size log
      → (x : LogEntry) × ((Queue.pop bench_size cid q).0 ≡ some x)
        × HasLeft cid log n (Queue.pop bench_size cid q).1
  pop_left log n q h fits =
      let (kept, same) = pop_refines queue_size-IsSize cid fits h.idle in
      let (x, found) = get_elem?-in_range log (q.consumers cid).tail (omega (arith, h.left)) in
      let reply = same ∙ spec_pop queue_size-IsSize (view q log) cid x h.active found in
      let readers = ap (λ r. r.1.readers) reply in
      let moved : ConsumerInfo = record (q.consumers cid) { tail = (q.consumers cid).tail + 1 } in
      let mine = update_self q.consumers cid moved in
      (
        x,
        ap (λ r. r.0) reply,
        record {
          idle = kept;
          active = ap (λ r. (r cid).active) readers ∙ ap (λ c. c.active) mine ∙ h.active;
          only = λ d on.
              only_of_update cid q.consumers moved d h.only
                (ap (λ r. (r d).active) (sym readers) ∙ on);
          left = omega (
            arith,
            ap (λ r. (r cid).tail) readers,
            ap (λ (c : ConsumerInfo). c.tail) mine,
            h.left,
          );
        },
      )

  recompute_left :
      (log : List LogEntry) (n : ℕ) (q : MpmcQueue LogEntry)
      → HasLeft cid log n q
      → Fits bench_size log
      → HasLeft cid log n (recompute_and_store_min_tail q)
  unfolding recompute_and_store_min_tail
  recompute_left log n q h fits = record {
    idle = set_min-Core queue_size-IsSize fits h.idle (compute-IsBehind queue_size-IsSize h.idle);
    active = h.active;
    only = h.only;
    left = h.left;
  }

  fill_left :
      (k : ℕ) (log : List LogEntry) (n : ℕ) (q : MpmcQueue LogEntry)
      → HasLeft cid log n q
      → n + k ≤ bench_size
      → length log + k + bench_size + 1 < 2 ^ 64
      → (log' : List LogEntry) × (length log' ≡ length log + k)
        × HasLeft cid log' (n + k) (fill k e q)
  unfolding fill
  fill_left zero log n q h le small =
      (log, omega arith, subst (λ m. HasLeft cid log m q) (add_zero n) h)
  fill_left (suc k) log n q h le small =
      let one = length-append log (e ∷ []) in
      let (log', size, more) =
        fill_left k (log ++ (e ∷ [])) (suc n) (Queue.push bench_size e q).1
          (push_left log n q h (omega arith) (omega (arith, one))) (omega arith)
          (omega (arith, one)) in
      (
        log',
        omega (arith, size, one),
        subst (λ m. HasLeft cid log' m (fill k e (Queue.push bench_size e q).1)) (omega arith) more,
      )

  rounds_left :
      (k : ℕ) (log : List LogEntry) (n : ℕ) (q : MpmcQueue LogEntry)
      → HasLeft cid log (suc n) q
      → suc n ≤ bench_size
      → length log + k + bench_size + 1 < 2 ^ 64
      → (q' : MpmcQueue LogEntry) × (log' : List LogEntry) × (pop_rounds k cid e q ≡ some q')
        × HasLeft cid log' (suc n) q'
  unfolding pop_rounds
  rounds_left zero log n q h le small = (q, log, refl, h)
  rounds_left (suc k) log n q h le small =
      let one = length-append log (e ∷ []) in
      let (x, out, h1) = pop_left log n q h (omega arith) in
      let q1 = (Queue.pop bench_size cid q).1 in
      let h2 = recompute_left log n q1 h1 (omega arith) in
      let q2 = (Queue.push bench_size e (recompute_and_store_min_tail q1)).1 in
      let h3 =
        push_left log n (recompute_and_store_min_tail q1) h2 (omega arith) (omega (arith, one)) in
      let (q', log', rest, h') = rounds_left k (log ++ (e ∷ [])) n q2 h3 le (omega (arith, one)) in
      (q', log', ap (λ o. elim o [ none ↦ none | some y ↦ pop_rounds k cid e q2 ]) out ∙ rest, h')

-- The queue with its one consumer.
abbrev pub bench_queue : LogEntry → MpmcQueue LogEntry
bench_queue blank = (register_consumer (new_queue blank)).1

bench_queue-HasLeft : (blank : LogEntry) → HasLeft 0 [] 0 (bench_queue blank)
unfolding register_consumer new_queue
bench_queue-HasLeft blank = record {
  idle = register_consumer_keeps queue_size-IsSize (new_queue-Idle queue_size-IsSize blank);
  active = refl;
  only = λ d on. ground arith;
  left = refl;
}

-- Filled with one entry less than its size, the queue of the benchmark takes all of them; in any
-- number of rounds below 2^63 each `pop` then finds an entry, and as many are left to read.
pub pop_rounds_find :
    (rounds : ℕ) (blank entry : LogEntry)
    → rounds < 2 ^ 63
    → (q : MpmcQueue LogEntry) × (log : List LogEntry) × (pop_rounds rounds 0 entry
          (fill (bench_size - 1) entry (bench_queue blank))
        ≡ some q)
      × HasLeft 0 log (bench_size - 1) q
pop_rounds_find rounds blank entry lt =
    let (log, size, filled) =
      fill_left 0 entry (bench_size - 1) [] 0 (bench_queue blank) (bench_queue-HasLeft blank)
        (omega arith) (omega arith) in
    rounds_left 0 entry rounds log (bench_size - 2)
      (fill (bench_size - 1) entry (bench_queue blank)) filled (omega arith) (omega (arith, size))
