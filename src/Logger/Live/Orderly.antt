-- ===== src/Logger/Live/Orderly.antt =====
-- src/logger.cpp: the drain loop beside the producers handles every entry, once and in order.
use mpmc_logger.Prelude.{ℕ, ◌≤◌, ◌≡◌, sym, ap, ◌∙◌, some, List, arith, length, take}
use mpmc_logger.Queue.Inv.{Fits}
use mpmc_logger.Entry.{LogEntry}
use mpmc_logger.Sink.{Os}
use mpmc_logger.Concurrent.{System}
use mpmc_logger.Concurrent.Safety.{received_in_order}
use mpmc_logger.Logger.{DrainState, queue_size}
use mpmc_logger.Logger.Drain.{queue_size-IsSize}
use mpmc_logger.Logger.Live.{ended, Live, DrainConfig, LiveReach}
use mpmc_logger.Logger.Live.Walk.{tail_in, after, IsPublished, IsWalk, LiveReach-IsWalk}

module _ {W : Type 0} (os : Os W) (to_string : ℕ → List ℕ) (date_of : ℕ → List ℕ) (c : DrainConfig)
    (blank : LogEntry) (d0 : DrainState W) where
  -- The drain thread has handled the entries up to its tail, in order; and at its end, all that had
  -- been claimed when its last `pop` found nothing, unless the next one was claimed and not
  -- yet published.
  pub record IsOrderly (s : Live W) : Type 0 where
    pub within : tail_in os to_string date_of c blank d0 s.system ≤ length s.system.log
    pub handled :
        after os to_string date_of c blank d0
          (take (tail_in os to_string date_of c blank d0 s.system) s.system.log)
        ≡ some s.drain
    pub at_end :
        (seen : System LogEntry)
        → s.place ≡ ended seen
        → (length seen.log ≤ length s.system.log)
          × (tail_in os to_string date_of c blank d0 s.system ≤ length seen.log)
          × (IsPublished os to_string date_of c blank d0 seen
              → take (tail_in os to_string date_of c blank d0 s.system) s.system.log ≡ seen.log)

  -- In every state that the drain loop and the producers reach, whatever the interleaving of their
  -- steps and whenever the stop is requested, the drain thread has handled exactly the entries up to
  -- its place in the order of the claims, once and in order. When it has ended, these are all that
  -- had been claimed when its last `pop` found nothing, unless a producer had then claimed the next
  -- position and not yet published it. This holds while the log is short enough for the positions to
  -- fit in 64 bits.
  pub LiveReach-IsOrderly :
      {s t : Live W}
      → LiveReach os to_string date_of c s t
      → IsWalk os to_string date_of c blank d0 s
      → Fits queue_size t.system.log
      → IsOrderly t
  LiveReach-IsOrderly {t = t} r o fits =
      let w = LiveReach-IsWalk os to_string date_of c blank d0 r fits o in
      let (same, le) = received_in_order queue_size-IsSize w.reached fits c.consumer_id in
      record {
        within = le;
        handled = ap (after os to_string date_of c blank d0) (sym same) ∙ w.handled;
        at_end = λ seen h.
            let e = w.at_end seen h in
            (
              e.log_le,
              omega (arith, e.tail_eq, e.within),
              λ free. ap (λ n. take n t.system.log) (e.tail_eq ∙ e.all_taken free) ∙ e.log_eq,
            );
      }
