-- ===== src/Logger/Live/Walk.antt =====
-- src/logger.cpp: what every step of the drain loop and the producers keeps.
use mpmc_logger.Prelude.{
  ℕ, ◌≤◌, ◌≡◌, ◌≢◌, refl, sym, ap, ◌∙◌, subst, Bool, true, false, Option, some, List, [], ◌∷◌, ◌++◌,
  arith, length, length-append, take, take-append, take_all, ◌>>=◌, update_self, bool_absurd,
  append-nil, ℕ_discrete,
}
use mpmc_logger.Queue
use mpmc_logger.Queue.{MpmcQueue, max_consumers}
use mpmc_logger.Queue.Inv.{Fits}
use mpmc_logger.Entry.{LogEntry}
use mpmc_logger.Sink.{Os}
use mpmc_logger.Concurrent.{Consumer, waiting, Consume, System, Reach, produce, consume}
use mpmc_logger.Concurrent.Local.{held, Reading}
use mpmc_logger.Concurrent.Inv.{Reach-Inv, holds}
use mpmc_logger.Concurrent.Safety.{received_in_order, next_item_ready}
use mpmc_logger.Concurrent.Quiet.Registers.{Produce-consumers}
use mpmc_logger.Logger.{DrainState, queue_size, handle}
use mpmc_logger.Logger.Drain.{queue_size-IsSize, handle_all, handle_all-append}
use mpmc_logger.Logger.Live.{
  Place, batch, checking, ended, IsPopping, in_last, Live, DrainConfig, next_round, NotFound,
  is_inactive, no_item, after_consume, LiveStep, put, request_stop, popping, take_one, take_none,
  batch_full, check, last_one, last_none, LiveReach, here, later,
}
use mpmc_logger.Logger.Live.Moves.{
  popping_going, ended_inj, Consume-inside, Consume-taken, NotFound-Consume,
}

module _ {W : Type 0} (os : Os W) (to_string : ℕ → List ℕ) (date_of : ℕ → List ℕ) (c : DrainConfig)
    (blank : LogEntry) (d0 : DrainState W) where
  abbrev pub tail_in : System LogEntry → ℕ
  tail_in s = (s.memory.consumers c.consumer_id).tail

  abbrev pub after : List LogEntry → Option (DrainState W)
  after es = handle_all os to_string date_of c.output_format es d0

  -- No producer stands between its claim of the next entry of the drain thread and its store of the
  -- sequence number.
  abbrev pub IsPublished : System LogEntry → Type 0
  IsPublished s = (i : ℕ) → held (s.producers i) ≢ some (tail_in s)

  -- What the last `pop`, in the queue `seen`, means for the queue `s` after it.
  pub record IsLast (seen s : System LogEntry) : Type 0 where
    pub log_le : length seen.log ≤ length s.log
    pub log_eq : take (length seen.log) s.log ≡ seen.log
    pub within : tail_in seen ≤ length seen.log
    pub tail_eq : tail_in s ≡ tail_in seen
    pub all_taken : IsPublished seen → tail_in seen ≡ length seen.log

  -- What every step keeps: the threads of the queue have reached their state by their steps, the
  -- consumer is registered, and the drain thread has handled what it has been given.
  pub record IsWalk (s : Live W) : Type 0 where
    pub reached : Reach queue_size blank 1 s.system
    pub active : (s.system.memory.consumers c.consumer_id).active ≡ true
    pub handled : after (s.system.received c.consumer_id) ≡ some s.drain
    pub at_end : (seen : System LogEntry) → s.place ≡ ended seen → IsLast seen s.system

  next_round_going :
      (got : Bool) (n : ℕ) (stop : Bool) (seen : System LogEntry)
      → next_round c got n stop ≢ ended seen
  unfolding next_round
  next_round_going true n stop seen h = cc
  next_round_going false n true seen h = cc
  next_round_going false n false seen h = cc

  took_one :
      (s : Live W) (e : LogEntry) (d : DrainState W) (place : Place) {q : MpmcQueue LogEntry}
      → IsWalk s
      → ((seen : System LogEntry) → place ≢ ended seen)
      → Consume queue_size c.consumer_id s.system.memory
          (s.system.consumers c.consumer_id)
          q
          waiting
          (e ∷ [])
      → handle os to_string date_of c.output_format e s.drain ≡ some d
      → IsWalk (record s {
        system = after_consume c.consumer_id q waiting (e ∷ []) s.system;
        drain = d;
        place = place;
      })
  unfolding handle_all
  took_one s e d place o going st done =
      let got = s.system.received c.consumer_id in
      record {
        reached = Reach.later o.reached (consume c.consumer_id st);
        active = Consume-taken st refl ∙ o.active;
        handled =
            ap after (update_self s.system.received c.consumer_id (got ++ (e ∷ [])))
            ∙ handle_all-append os to_string date_of c.output_format got (e ∷ []) d0
            ∙ ap (λ m. m >>= handle_all os to_string date_of c.output_format (e ∷ [])) o.handled
            ∙ ap (λ m. m >>= handle_all os to_string date_of c.output_format []) done;
        at_end = λ seen h. absurd (going seen h);
      }

  -- Nothing is given.
  received_nil :
      (s : System LogEntry) (q : MpmcQueue LogEntry) (p : Consumer LogEntry) (d : DrainState W)
      → after (s.received c.consumer_id) ≡ some d
      → after ((after_consume c.consumer_id q p [] s).received c.consumer_id) ≡ some d
  received_nil s q p d h =
      ap after (
        update_self s.received c.consumer_id (s.received c.consumer_id ++ [])
        ∙ append-nil (s.received c.consumer_id))
      ∙ h

  took_none :
      (s : Live W) (place : Place)
      → IsWalk s
      → NotFound c.consumer_id s.system.memory (s.system.consumers c.consumer_id)
      → ((seen : System LogEntry) → place ≡ ended seen → IsLast seen s.system)
      → IsWalk (record s {
        system = after_consume c.consumer_id s.system.memory waiting [] s.system;
        place = place;
      })
  took_none s place o none_left end = record {
    reached = Reach.later o.reached (consume c.consumer_id (NotFound-Consume none_left));
    active = o.active;
    handled = received_nil s.system s.system.memory waiting s.drain o.handled;
    at_end = λ seen h.
        let e = end seen h in
        record {
          log_le = e.log_le;
          log_eq = e.log_eq;
          within = e.within;
          tail_eq = e.tail_eq;
          all_taken = e.all_taken;
        };
  }

  -- The test of the sequence number fails only at the end of the log or at an unpublished entry.
  none_left_IsLast :
      (s : System LogEntry) (p : Consumer LogEntry)
      → Reach queue_size blank 1 s
      → Fits queue_size s.log
      → (s.memory.consumers c.consumer_id).active ≡ true
      → s.consumers c.consumer_id ≡ p
      → NotFound c.consumer_id s.memory p
      → IsLast s s
  none_left_IsLast s p r fits on e (is_inactive lt off) = bool_absurd on off
  none_left_IsLast s p r fits on e (no_item {t = t} ne) = record {
    log_le = omega arith;
    log_eq = take_all (length s.log) s.log (omega arith);
    within = (received_in_order queue_size-IsSize r fits c.consumer_id).1;
    tail_eq = refl;
    all_taken = λ free.
        let at_t =
          subst (λ p. Reading s.memory (holds s) s.log c.consumer_id p) e
            ((Reach-Inv queue_size-IsSize r fits).threads.readers c.consumer_id) in
        let (same, le) = received_in_order queue_size-IsSize r fits c.consumer_id in
        elim (ℕ_discrete (tail_in s) (length s.log)) [
          | yes done ↦ done
          | no more ↦
              let ready =
                next_item_ready queue_size-IsSize r fits c.consumer_id on (omega arith) free in
              absurd (
                ne (
                  subst (λ k. (s.memory.slots (Queue.slot_index queue_size k)).sequence ≡ k)
                    (sym at_t.1) ready.0))
        ];
  }

  pub LiveStep-IsWalk :
      {s t : Live W}
      → LiveStep os to_string date_of c s t
      → Fits queue_size s.system.log
      → IsWalk s
      → IsWalk t
  LiveStep-IsWalk {s} (put i {xs = xs} st) fits o = record {
    reached = Reach.later o.reached (produce i st);
    active = ap (λ k. (k c.consumer_id).active) (Produce-consumers st) ∙ o.active;
    handled = o.handled;
    at_end = λ seen h.
        let e = o.at_end seen h in
        record {
          log_le = omega (arith, e.log_le, length-append s.system.log xs);
          log_eq = take-append (length seen.log) s.system.log xs e.log_le ∙ e.log_eq;
          within = e.within;
          tail_eq = ap (λ k. (k c.consumer_id).tail) (Produce-consumers st) ∙ e.tail_eq;
          all_taken = e.all_taken;
        };
  }
  LiveStep-IsWalk request_stop fits o = record {
    reached = o.reached;
    active = o.active;
    handled = o.handled;
    at_end = o.at_end;
  }
  LiveStep-IsWalk {s} (popping {q = q} {p = p} pops st inside) fits o = record {
    reached = Reach.later o.reached (consume c.consumer_id st);
    active = ap (λ m. (m.consumers c.consumer_id).active) (Consume-inside st inside) ∙ o.active;
    handled = received_nil s.system q p s.drain o.handled;
    at_end = λ seen h. absurd (popping_going seen pops h);
  }
  LiveStep-IsWalk {s} (take_one {left = left} {n = n} e d there st done) fits o =
      took_one s e d (batch left true n) o (λ seen h. cc) st done
  LiveStep-IsWalk {s} (take_none {n = n} {got = got} there nothing) fits o =
      took_none s (checking got n) o nothing (λ seen h. cc)
  LiveStep-IsWalk (batch_full at_zero) fits o = record {
    reached = o.reached;
    active = o.active;
    handled = o.handled;
    at_end = λ seen h. cc;
  }
  LiveStep-IsWalk {s} (check {n = n} {got = got} there) fits o = record {
    reached = o.reached;
    active = o.active;
    handled = o.handled;
    at_end = λ seen h. absurd (next_round_going got n s.stop seen h);
  }
  LiveStep-IsWalk {s} (last_one e d there st done) fits o =
      took_one s e d s.place o
        (λ seen h. popping_going seen (subst IsPopping (sym there) in_last) h) st done
  LiveStep-IsWalk {s} (last_none there nothing) fits o =
      took_none s (ended s.system) o nothing (λ seen h.
        subst (λ x. IsLast x s.system) (ended_inj h)
          (none_left_IsLast s.system (s.system.consumers c.consumer_id) o.reached fits o.active refl
            nothing))

  log_grows :
      {s t : Live W}
      → LiveStep os to_string date_of c s t
      → length s.system.log ≤ length t.system.log
  log_grows {s} (put i {xs = xs} st) = omega (arith, length-append s.system.log xs)
  log_grows request_stop = omega arith
  log_grows (popping pops st inside) = omega arith
  log_grows (take_one e d there st done) = omega arith
  log_grows (take_none there nothing) = omega arith
  log_grows (batch_full there) = omega arith
  log_grows (check there) = omega arith
  log_grows (last_one e d there st done) = omega arith
  log_grows (last_none there nothing) = omega arith

  pub LiveReach-IsWalk :
      {s t : Live W}
      → LiveReach os to_string date_of c s t
      → Fits queue_size t.system.log
      → IsWalk s
      → IsWalk t
  LiveReach-IsWalk here fits o = o
  LiveReach-IsWalk (later r st) fits o =
      LiveStep-IsWalk st (omega (arith, log_grows st))
        (LiveReach-IsWalk r (omega (arith, log_grows st)) o)
