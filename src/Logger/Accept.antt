-- ===== src/Logger/Accept.antt =====
-- src/logger.cpp: what `push` does with an entry while only the drain thread reads the queue.
use mpmc_logger.Prelude.{
  ℕ, ◌+◌, ◌-◌, ◌≤◌, ◌<◌, ◌≡◌, refl, sym, ap, ◌∙◌, ◌⊎◌, subst, append-nil, append_assoc, inl, inr,
  Bool, true, false, none, some, List, [], ◌∷◌, ◌++◌, arith, length, drop, length-drop, dec_lt,
  drop-append_part, length-append, bool_absurd,
}
use mpmc_logger.Queue
use mpmc_logger.Queue.{MpmcQueue, max_consumers}
use mpmc_logger.Queue.Inv.{Fits}
use mpmc_logger.Queue.Push.{Idle, push-Pushed, refused}
use mpmc_logger.Queue.Lagging.{refused_by_only}
use mpmc_logger.Entry.{LogEntry}
use mpmc_logger.Logger.{Logger, queue_size, push, stored_queue, log_raw}
use mpmc_logger.Logger.Drain.{queue_size-IsSize, Pending}

-- The drain thread is the only consumer.
abbrev pub IsOnly : ℕ → MpmcQueue LogEntry → Type 0
IsOnly c q = (d : ℕ) → (q.consumers d).active ≡ true → d ≡ c

-- What `push` of an entry leaves when it answers `ok`.
pub record Answered (log : List LogEntry) (l : Logger) (es : List LogEntry) (ok : Bool)
    (out : Bool × Logger) : Type 0 where
  pub ok_eq : out.0 ≡ ok
  pub ring : MpmcQueue LogEntry
  pub ring_eq : out.1 ≡ record l { queue = some ring }
  pub waiting : Pending log l.consumer_id ring es
  pub only : IsOnly l.consumer_id ring

module _ (e : LogEntry) (l : Logger) (q : MpmcQueue LogEntry) (log es : List LogEntry)
    (fits : Fits queue_size (log ++ (e ∷ []))) (has : l.queue ≡ some q)
    (p : Pending log l.consumer_id q es) (only : IsOnly l.consumer_id q) where
  before : Fits queue_size log
  before = omega (arith, length-append log (e ∷ []))

  unread : length es ≡ length log - (q.consumers l.consumer_id).tail
  unread = omega (arith, ap length p.pending_eq, length-drop (q.consumers l.consumer_id).tail log)

  answered :
      (ok : Bool) (log' es' : List LogEntry)
      → (Queue.push queue_size e q).1.consumers ≡ q.consumers
      → (Queue.push queue_size e q).0 ≡ ok
      → Idle queue_size (Queue.push queue_size e q).1 log'
      → drop (q.consumers l.consumer_id).tail log' ≡ es'
      → Answered log' l es' ok (push e l)
  unfolding push
  answered ok log' es' same ok_eq idle left =
      let reached : push e l ≡ stored_queue l (Queue.push queue_size e q) =
        ap
          (λ o. elim o [
            | none ↦ (false, l)
            | some q0 ↦ stored_queue l (Queue.push queue_size e q0)
          ])
          has in
      record {
        ok_eq = ap (λ r. r.0) reached ∙ ok_eq;
        ring = (Queue.push queue_size e q).1;
        ring_eq = ap (λ r. r.1) reached;
        waiting = record {
          idle = idle;
          active = ap (λ r. (r l.consumer_id).active) same ∙ p.active;
          pending_eq = ap (λ r. drop (r l.consumer_id).tail log') same ∙ left;
        };
        only = λ d on. only d (ap (λ r. (r d).active) (sym same) ∙ on);
      }

  not_full : refused queue_size q ≡ false → length es < queue_size
  not_full room = elim (dec_lt (length es) queue_size) [
    | yes lt ↦ lt
    | no ge ↦
        bool_absurd
          ((refused_by_only queue_size-IsSize l.consumer_id before p.idle p.active only).1
            (omega (arith, unread, p.idle.tail_le l.consumer_id, p.idle.count)))
          room
  ]

  -- While the drain thread is the only consumer: with room for the entry in the ring, `push` takes
  -- it, and it is the last that the drain thread has to read; with a ring full of unread entries it
  -- refuses it and changes nothing of what is to be read. Nothing else of the logger changes.
  pub push_answers :
      ((length es < queue_size) × Answered (log ++ (e ∷ [])) l (es ++ (e ∷ [])) true (push e l))
      ⊎ ((queue_size ≤ length es) × Answered log l es false (push e l))
  push_answers =
      let out = push-Pushed queue_size-IsSize e fits p.idle in
      let full = refused_by_only queue_size-IsSize l.consumer_id before p.idle p.active only in
      let within : (q.consumers l.consumer_id).tail ≤ length log =
        omega (arith, p.idle.tail_le l.consumer_id, p.idle.count) in
      elim out.outcome [
        | inl (refuse, ok, idle) ↦ inr (
          omega (arith, full.0 refuse, unread),
          answered false log es out.same_readers ok idle p.pending_eq,
        )
        | inr (room, ok, idle) ↦ inl (
          not_full room,
          answered true (log ++ (e ∷ [])) (es ++ (e ∷ [])) out.same_readers ok idle (
              drop-append_part (q.consumers l.consumer_id).tail log (e ∷ []) within
              ∙ ap (λ r. r ++ (e ∷ [])) p.pending_eq),
        )
      ]

-- Entries logged one after the other.
abbrev pub log_all : List LogEntry → Logger → Logger
log_all [] l = l
log_all (e ∷ es) l = log_all es (log_raw e l)

-- The queue of a logger.
abbrev pub with_ring : Logger → MpmcQueue LogEntry → Logger
with_ring l q = record l { queue = some q }

-- As many entries as the ring has room for are all taken, in order, and nothing else of the logger
-- changes.
pub log_all_waiting :
    (new : List LogEntry) (l : Logger) (q : MpmcQueue LogEntry) (log es : List LogEntry)
    → Fits queue_size (log ++ new)
    → Pending log l.consumer_id q es
    → IsOnly l.consumer_id q
    → length es + length new ≤ queue_size
    → (q' : MpmcQueue LogEntry) × (log_all new (with_ring l q) ≡ with_ring l q')
      × Pending (log ++ new) l.consumer_id q' (es ++ new)
      × IsOnly l.consumer_id q'
unfolding log_raw
log_all_waiting [] l q log es fits p only le = (
  q,
  refl,
  subst (λ r. Pending r l.consumer_id q (es ++ [])) (sym (append-nil log))
      (subst (Pending log l.consumer_id q) (sym (append-nil es)) p),
  only,
)
log_all_waiting (e ∷ new) l q log es fits p only le =
    elim (push_answers e (with_ring l q) q log es
      (omega (arith, length-append log (e ∷ []), length-append log (e ∷ new))) refl p only) [
        | inl (lt, a) ↦
            let (q', all, p', only') =
              log_all_waiting new l a.ring (log ++ (e ∷ [])) (es ++ (e ∷ []))
                (omega (
                  arith,
                  length-append (log ++ (e ∷ [])) new,
                  length-append log (e ∷ []),
                  length-append log (e ∷ new),
                ))
                a.waiting a.only (omega (arith, length-append es (e ∷ []))) in
            (
              q',
              ap (log_all new) a.ring_eq ∙ all,
              subst (λ r. Pending r l.consumer_id q' (es ++ (e ∷ new)))
                  (append_assoc log (e ∷ []) new)
                  (subst (Pending ((log ++ (e ∷ [])) ++ new) l.consumer_id q')
                    (append_assoc es (e ∷ []) new) p'),
              only',
            )
        | inr (full, a) ↦ absurd (omega arith)
      ]
