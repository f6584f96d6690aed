-- ===== src/Logger/Live/Pops.antt =====
-- src/logger.cpp: the `pop` of a drain thread that is asked to stop, a step at a time, while no entry
-- is about to be published.
use mpmc_logger.Prelude.{
  ℕ, suc, ◌≤◌, ◌<◌, ◌≡◌, ◌≢◌, refl, sym, ap, ◌∙◌, subst, true, none, some, some-injective, List, [],
  ◌∷◌, length, drop, length-drop, get_elem?, get_elem?-drop, bind-some, arith, update_self,
}
use mpmc_logger.Queue
use mpmc_logger.Queue.{MpmcQueue, advance_tail}
use mpmc_logger.Queue.Inv.{Fits}
use mpmc_logger.Entry.{LogEntry}
use mpmc_logger.Sink.{Os}
use mpmc_logger.Concurrent.{Consumer, waiting, entered, at, matched, copied, Consume, System}
use mpmc_logger.Concurrent.Local.{held, Reading}
use mpmc_logger.Concurrent.Inv.{Reach-Inv, holds}
use mpmc_logger.Concurrent.Safety.{received_in_order, next_item_ready}
use mpmc_logger.Logger.{DrainState, queue_size, handle}
use mpmc_logger.Logger.Drain.{handle_all, queue_size-IsSize}
use mpmc_logger.Logger.Live.{
  Place, ended, IsPopping, Live, DrainConfig, after_consume, LiveStep, popping, LiveReach, here,
  later,
}
use mpmc_logger.Logger.Live.Walk.{IsWalk, LiveStep-IsWalk, tail_in}

none-some : {n : ℕ} → none ≢ some n
none-some h = cc

module _ {W : Type 0} (os : Os W) (to_string : ℕ → List ℕ) (date_of : ℕ → List ℕ) (c : DrainConfig)
    (blank : LogEntry) (d0 : DrainState W) where
  first_step :
      {s t u : Live W}
      → LiveStep os to_string date_of c s t
      → LiveReach os to_string date_of c t u
      → LiveReach os to_string date_of c s u
  first_step st here = later here st
  first_step st (later r st') = later (first_step st r) st'

  abbrev pub tail : Live W → ℕ
  tail s = tail_in os to_string date_of c blank d0 s.system

  -- The drain thread is asked to stop, nobody is about to publish an entry, and `es` are pending.
  pub record CanGo (s : Live W) (es : List LogEntry) (d' : DrainState W) : Type 0 where
    pub walk : IsWalk os to_string date_of c blank d0 s
    pub fits : Fits queue_size s.system.log
    pub quiet : (i : ℕ) → held (s.system.producers i) ≡ none
    pub stop : s.stop ≡ true
    pub pending : drop (tail s) s.system.log ≡ es
    pub done : handle_all os to_string date_of c.output_format es s.drain ≡ some d'

  -- Its end is reached with no other step than its own: it has left `d'`, and has read the log.
  pub record EndsWith (s : Live W) (d' : DrainState W) : Type 0 where
    pub final : Live W
    pub seen : System LogEntry
    pub reach : LiveReach os to_string date_of c s final
    pub at_end : final.place ≡ ended seen
    pub left : final.drain ≡ d'
    pub seen_log : seen.log ≡ s.system.log
    pub same_log : final.system.log ≡ s.system.log
    pub all_read : tail final ≡ length s.system.log

  pub before :
      {s t : Live W} {d' : DrainState W}
      → LiveStep os to_string date_of c s t
      → t.system.log ≡ s.system.log
      → EndsWith t d'
      → EndsWith s d'
  before st same e = record {
    final = e.final;
    seen = e.seen;
    reach = first_step st e.reach;
    at_end = e.at_end;
    left = e.left;
    seen_log = e.seen_log ∙ same;
    same_log = e.same_log ∙ same;
    all_read = e.all_read ∙ ap length same;
  }

  -- Whatever pends, from a place.
  abbrev pub Ends : List LogEntry → Place → Type 0
  Ends es place = (s : Live W) (d' : DrainState W) → CanGo s es d' → s.place ≡ place → EndsWith s d'

  module _ {s : Live W} {es : List LogEntry} {d' : DrainState W} (g : CanGo s es d') where
    abbrev inside : Consumer LogEntry → Live W
    inside p = record s { system = after_consume c.consumer_id s.system.memory p [] s.system }

    abbrev Moves : Consumer LogEntry → Type 0
    Moves p =
        Consume queue_size c.consumer_id s.system.memory (s.system.consumers c.consumer_id)
          s.system.memory p []

    inside-CanGo :
        (p : Consumer LogEntry) → IsPopping s.place → Moves p → p ≢ waiting → CanGo (inside p) es d'
    inside-CanGo p pops st ne = record {
      walk = LiveStep-IsWalk os to_string date_of c blank d0 (popping pops st ne) g.fits g.walk;
      fits = g.fits;
      quiet = g.quiet;
      stop = g.stop;
      pending = g.pending;
      done = g.done;
    }

    reader :
        (p : Consumer LogEntry)
        → s.system.consumers c.consumer_id ≡ p
        → Reading s.system.memory (holds s.system) s.system.log c.consumer_id p
    reader p e =
        subst (λ p. Reading s.system.memory (holds s.system) s.system.log c.consumer_id p) e
          ((Reach-Inv queue_size-IsSize g.walk.reached g.fits).threads.readers c.consumer_id)

    pub within : tail s ≤ length s.system.log
    within = (received_in_order queue_size-IsSize g.walk.reached g.fits c.consumer_id).1

    free : (i : ℕ) → held (s.system.producers i) ≢ some (tail s)
    free i e = none-some (sym (g.quiet i) ∙ e)

    from_here :
        {p p' : Consumer LogEntry}
        → s.system.consumers c.consumer_id ≡ p
        → Consume queue_size c.consumer_id s.system.memory p s.system.memory p' []
        → Moves p'
    from_here {p' = p'} e st =
        subst (λ p. Consume queue_size c.consumer_id s.system.memory p s.system.memory p' [])
          (sym e) st

  -- The `pop` has come to a place inside, by its own steps.
  pub record Within (s : Live W) (p : Consumer LogEntry) (es : List LogEntry) (d' : DrainState W)
      : Type 0 where
    pub now : Live W
    pub go : CanGo now es d'
    pub place_eq : now.place ≡ s.place
    pub stands : now.system.consumers c.consumer_id ≡ p
    pub tail_same : tail now ≡ tail s
    pub back : EndsWith now d' → EndsWith s d'

  module _ {s : Live W} {es : List LogEntry} {d' : DrainState W} where
    stays :
        {p : Consumer LogEntry}
        → CanGo s es d'
        → s.system.consumers c.consumer_id ≡ p
        → Within s p es d'
    stays g e = record {
      now = s;
      go = g;
      place_eq = refl;
      stands = e;
      tail_same = refl;
      back = λ e. e;
    }

  module _ {s : Live W} {es : List LogEntry} {d' : DrainState W} where
    one_more :
        {p : Consumer LogEntry} (g : CanGo s es d') (p' : Consumer LogEntry)
        → IsPopping s.place
        → Moves g p'
        → p' ≢ waiting
        → Within (inside g p') p es d'
        → Within s p es d'
    one_more g p' pops st ne w = record {
      now = w.now;
      go = w.go;
      place_eq = w.place_eq;
      stands = w.stands;
      tail_same = w.tail_same;
      back = λ e. before (popping pops st ne) refl (w.back e);
    }

    arrived :
        (g : CanGo s es d') (p' : Consumer LogEntry)
        → IsPopping s.place
        → Moves g p'
        → p' ≢ waiting
        → Within s p' es d'
    arrived g p' pops st ne =
        one_more g p' pops st ne
          (stays (inside-CanGo g p' pops st ne) (update_self s.system.consumers c.consumer_id p'))

  -- A `pop` with an entry pending comes to its copy.
  abbrev pub Copies : Live W → List LogEntry → DrainState W → Type 0
  Copies s es d' = (x : LogEntry) × Within s (copied (tail s) x) es d'

  module _ {e : LogEntry} {es : List LogEntry} {d' : DrainState W} where
    from_matched :
        {s : Live W} (t : ℕ)
        → CanGo s (e ∷ es) d'
        → IsPopping s.place
        → s.system.consumers c.consumer_id ≡ matched t
        → Copies s (e ∷ es) d'
    from_matched {s} t g pops stands =
        let x = (s.system.memory.slots (Queue.slot_index queue_size t)).item in
        (
          x,
          subst (λ k. Within s (copied k x) (e ∷ es) d') (reader g (matched t) stands).1
              (arrived g (copied t x) pops (from_here g stands Consume.read) (λ h. cc)),
        )

    from_at :
        {s : Live W} (t : ℕ)
        → CanGo s (e ∷ es) d'
        → IsPopping s.place
        → s.system.consumers c.consumer_id ≡ at t
        → Copies s (e ∷ es) d'
    from_at {s} t g pops stands =
        let same = (reader g (at t) stands).1 in
        let more : tail s < length s.system.log =
          omega (arith, ap length g.pending, length-drop (tail s) s.system.log) in
        let ready =
          next_item_ready queue_size-IsSize g.walk.reached g.fits c.consumer_id g.walk.active more
            (free g) in
        let st = from_here g stands (
          Consume.is_ready (
            subst (λ k. (s.system.memory.slots (Queue.slot_index queue_size k)).sequence ≡ k)
              (sym same) ready.0)) in
        let (x, w) =
          from_matched t (inside-CanGo g (matched t) pops st (λ h. cc)) pops
            (update_self s.system.consumers c.consumer_id (matched t)) in
        (x, one_more g (matched t) pops st (λ h. cc) w)

    from_entered :
        {s : Live W}
        → CanGo s (e ∷ es) d'
        → IsPopping s.place
        → s.system.consumers c.consumer_id ≡ entered
        → Copies s (e ∷ es) d'
    from_entered {s} g pops stands =
        let p = at (tail s) in
        let st = from_here g stands Consume.load_tail in
        let (x, w) =
          from_at (tail s) (inside-CanGo g p pops st (λ h. cc)) pops
            (update_self s.system.consumers c.consumer_id p) in
        (x, one_more g p pops st (λ h. cc) w)

    from_waiting :
        {s : Live W}
        → CanGo s (e ∷ es) d'
        → IsPopping s.place
        → s.system.consumers c.consumer_id ≡ waiting
        → Copies s (e ∷ es) d'
    from_waiting {s} g pops stands =
        let st = from_here g stands (Consume.enter g.walk.active) in
        let (x, w) =
          from_entered (inside-CanGo g entered pops st (λ h. cc)) pops
            (update_self s.system.consumers c.consumer_id entered) in
        (x, one_more g entered pops st (λ h. cc) w)

    pub copies :
        {s : Live W} (p : Consumer LogEntry)
        → CanGo s (e ∷ es) d'
        → IsPopping s.place
        → s.system.consumers c.consumer_id ≡ p
        → Copies s (e ∷ es) d'
    copies waiting g pops stands = from_waiting g pops stands
    copies entered g pops stands = from_entered g pops stands
    copies (at t) g pops stands = from_at t g pops stands
    copies (matched t) g pops stands = from_matched t g pops stands
    copies {s} (copied t x) g pops stands = (
      x,
      subst (λ k. Within s (copied k x) (e ∷ es) d') (reader g (copied t x) stands).1
          (stays g stands),
    )

  -- A `pop` with nothing pending fails its test.
  module _ {d' : DrainState W} where
    at_log_end :
        {s : Live W} {t : ℕ} (g : CanGo s [] d') → t ≡ tail s → t < s.system.memory.head → ⊥
    at_log_end {s} g same lt =
        let core = (Reach-Inv queue_size-IsSize g.walk.reached g.fits).threads.core in
        omega (arith, core.count, ap length g.pending, length-drop (tail s) s.system.log)

    fails_entered :
        {s : Live W}
        → CanGo s [] d'
        → IsPopping s.place
        → s.system.consumers c.consumer_id ≡ entered
        → Within s (at (tail s)) [] d'
    fails_entered {s} g pops stands =
        arrived g (at (tail s)) pops (from_here g stands Consume.load_tail) (λ h. cc)

    pub fails :
        {s : Live W} (p : Consumer LogEntry)
        → CanGo s [] d'
        → IsPopping s.place
        → s.system.consumers c.consumer_id ≡ p
        → Within s (at (tail s)) [] d'
    fails {s} waiting g pops stands =
        let st = from_here g stands (Consume.enter g.walk.active) in
        one_more g entered pops st (λ h. cc)
          (fails_entered (inside-CanGo g entered pops st (λ h. cc)) pops
            (update_self s.system.consumers c.consumer_id entered))
    fails entered g pops stands = fails_entered g pops stands
    fails {s} (at t) g pops stands =
        subst (λ k. Within s (at k) [] d') (reader g (at t) stands).1 (stays g stands)
    fails {s} (matched t) g pops stands =
        let r = reader g (matched t) stands in absurd (at_log_end g r.1 r.2.0)
    fails {s} (copied t x) g pops stands =
        let r = reader g (copied t x) stands in absurd (at_log_end g r.1 r.2.0)

  -- The copied item is the first that is pending; it is taken and handled.
  pub record Taken (s : Live W) (e : LogEntry) (es : List LogEntry) (d' : DrainState W)
      : Type 0 where
    pub ring : MpmcQueue LogEntry
    pub after : DrainState W
    pub moves :
        Consume queue_size c.consumer_id s.system.memory
          (s.system.consumers c.consumer_id)
          ring
          waiting
          (e ∷ [])
    pub handled : handle os to_string date_of c.output_format e s.drain ≡ some after
    pub rest : handle_all os to_string date_of c.output_format es after ≡ some d'
    pub pending : drop (ring.consumers c.consumer_id).tail s.system.log ≡ es

  pub take_copied :
      (s : Live W) (x e : LogEntry) (es : List LogEntry) (d' : DrainState W) (t : ℕ)
      → CanGo s (e ∷ es) d'
      → s.system.consumers c.consumer_id ≡ copied t x
      → Taken s e es d'
  unfolding handle_all
  take_copied s x e es d' t g stands =
      let r = reader g (copied t x) stands in
      let (first, pending) = get_elem?-drop (tail s) s.system.log e es g.pending in
      let same : x ≡ e = some-injective _ _ (sym r.3 ∙ ap (get_elem? s.system.log) r.1 ∙ first) in
      let (after, handled, rest) = bind-some _ _ _ g.done in
      let ring = advance_tail c.consumer_id t s.system.memory in
      let moved : (ring.consumers c.consumer_id).tail ≡ suc (tail s) =
        ap (λ k. k.tail) (update_self s.system.memory.consumers c.consumer_id _)
        ∙ omega (arith, r.1, within g, g.fits) in
      record {
        ring = ring;
        after = after;
        moves =
            subst (λ p. Consume queue_size c.consumer_id s.system.memory p ring waiting (e ∷ []))
              (ap (λ y. copied t y) (sym same) ∙ sym stands) Consume.store_tail;
        handled = handled;
        rest = rest;
        pending = ap (λ n. drop n s.system.log) moved ∙ pending;
      }
