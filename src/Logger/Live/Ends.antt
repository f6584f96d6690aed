-- ===== src/Logger/Live/Ends.antt =====
-- src/logger.cpp: wherever the drain thread stands, it can come to its end.
use mpmc_logger.Prelude.{
  ℕ, zero, suc, ◌≡◌, ◌≢◌, refl, sym, ap, ◌∙◌, subst, Bool, true, false, none, some, some-injective,
  List, [], ◌∷◌, length, drop, length-drop, arith,
}
use mpmc_logger.Queue
use mpmc_logger.Queue.{MpmcQueue, advance_tail}
use mpmc_logger.Queue.Inv.{Fits}
use mpmc_logger.Entry.{LogEntry}
use mpmc_logger.Sink.{Os}
use mpmc_logger.Concurrent.{at, System}
use mpmc_logger.Concurrent.Local.{held}
use mpmc_logger.Concurrent.Inv.{Reach-Inv}
use mpmc_logger.Logger.{DrainState, queue_size}
use mpmc_logger.Logger.Drain.{handle_all, queue_size-IsSize}
use mpmc_logger.Logger.Live.{
  Place, batch, checking, last, ended, IsPopping, in_batch, in_last, Live, DrainConfig, next_round,
  NotFound, no_item, LiveStep, take_one, take_none, batch_full, check, last_one, last_none,
  request_stop, here, later,
}
use mpmc_logger.Logger.Live.Walk.{IsWalk, LiveStep-IsWalk}
use mpmc_logger.Logger.Live.Pops.{
  CanGo, Ends, EndsWith, before, copies, fails, take_copied, tail, within,
}

module _ {W : Type 0} (os : Os W) (to_string : ℕ → List ℕ) (date_of : ℕ → List ℕ) (c : DrainConfig)
    (blank : LogEntry) (d0 : DrainState W) where
  -- What the states after a step of the thread that is not inside `pop` keep.
  kept :
      {s t : Live W} {es es' : List LogEntry} {d' : DrainState W}
      → CanGo os to_string date_of c blank d0 s es d'
      → LiveStep os to_string date_of c s t
      → t.system.log ≡ s.system.log
      → t.system.producers ≡ s.system.producers
      → t.stop ≡ true
      → drop (tail os to_string date_of c blank d0 t) t.system.log ≡ es'
      → handle_all os to_string date_of c.output_format es' t.drain ≡ some d'
      → CanGo os to_string date_of c blank d0 t es' d'
  kept g st same_log same_producers stop pending done = record {
    walk = LiveStep-IsWalk os to_string date_of c blank d0 st g.fits g.walk;
    fits = omega (arith, ap length same_log, g.fits);
    quiet = λ i. ap (λ ps. held (ps i)) same_producers ∙ g.quiet i;
    stop = stop;
    pending = pending;
    done = done;
  }

  found_in_batch :
      (e : LogEntry) (es : List LogEntry) (left n : ℕ) (got : Bool)
      → Ends os to_string date_of c blank d0 es (batch left true n)
      → Ends os to_string date_of c blank d0 (e ∷ es) (batch (suc left) got n)
  found_in_batch e es left n got rest s d' g place =
      let (x, w) =
        copies os to_string date_of c blank d0 (s.system.consumers c.consumer_id) g
          (subst IsPopping (sym place) in_batch) refl in
      let k =
        take_copied os to_string date_of c blank d0 w.now x e es d'
          (tail os to_string date_of c blank d0 s) w.go w.stands in
      let st = take_one e k.after (w.place_eq ∙ place) k.moves k.handled in
      w.back (
        before os to_string date_of c blank d0 st refl
          (rest _ d' (kept w.go st refl refl w.go.stop k.pending k.rest) refl))

  found_last :
      (e : LogEntry) (es : List LogEntry)
      → Ends os to_string date_of c blank d0 es last
      → Ends os to_string date_of c blank d0 (e ∷ es) last
  found_last e es rest s d' g place =
      let (x, w) =
        copies os to_string date_of c blank d0 (s.system.consumers c.consumer_id) g
          (subst IsPopping (sym place) in_last) refl in
      let k =
        take_copied os to_string date_of c blank d0 w.now x e es d'
          (tail os to_string date_of c blank d0 s) w.go w.stands in
      let at_last = w.place_eq ∙ place in
      let st = last_one e k.after at_last k.moves k.handled in
      w.back (
        before os to_string date_of c blank d0 st refl
          (rest _ d' (kept w.go st refl refl w.go.stop k.pending k.rest) at_last))

  -- The test fails at the end of the log.
  misses :
      (s : Live W) (d' : DrainState W)
      → CanGo os to_string date_of c blank d0 s [] d'
      → s.system.consumers c.consumer_id ≡ at (tail os to_string date_of c blank d0 s)
      → NotFound c.consumer_id s.system.memory (s.system.consumers c.consumer_id)
  misses s d' g stands =
      let core = (Reach-Inv queue_size-IsSize g.walk.reached g.fits).threads.core in
      subst (NotFound c.consumer_id s.system.memory) (sym stands) (
        no_item (λ same. omega (
          arith,
          same,
          core.count,
          ap length g.pending,
          length-drop (tail os to_string date_of c blank d0 s) s.system.log,
          g.fits,
          within os to_string date_of c blank d0 g,
          core.seq_lt (Queue.slot_index queue_size (tail os to_string date_of c blank d0 s))
              (omega (arith, same, within os to_string date_of c blank d0 g, g.fits)),
        )))

  missed_in_batch :
      (left n : ℕ) (got : Bool)
      → Ends os to_string date_of c blank d0 [] (checking got n)
      → Ends os to_string date_of c blank d0 [] (batch (suc left) got n)
  missed_in_batch left n got rest s d' g place =
      let w =
        fails os to_string date_of c blank d0 (s.system.consumers c.consumer_id) g
          (subst IsPopping (sym place) in_batch) refl in
      let st =
        take_none (w.place_eq ∙ place)
          (misses w.now d' w.go (w.stands ∙ ap at (sym w.tail_same))) in
      w.back (
        before os to_string date_of c blank d0 st refl
          (rest _ d' (kept w.go st refl refl w.go.stop w.go.pending w.go.done) refl))

  missed_last : Ends os to_string date_of c blank d0 [] last
  unfolding handle_all
  missed_last s d' g place =
      let w =
        fails os to_string date_of c blank d0 (s.system.consumers c.consumer_id) g
          (subst IsPopping (sym place) in_last) refl in
      let st =
        last_none (w.place_eq ∙ place)
          (misses w.now d' w.go (w.stands ∙ ap at (sym w.tail_same))) in
      w.back (record {
        final = _;
        seen = w.now.system;
        reach = later here st;
        at_end = refl;
        left = some-injective _ _ w.go.done;
        seen_log = refl;
        same_log = refl;
        all_read = omega (
          arith,
          ap length w.go.pending,
          length-drop (tail os to_string date_of c blank d0 w.now) w.now.system.log,
          within os to_string date_of c blank d0 w.go,
        );
      })

  halts_last : (es : List LogEntry) → Ends os to_string date_of c blank d0 es last
  halts_last [] = missed_last
  halts_last (e ∷ es) = found_last e es (halts_last es)

  halts_idle_round :
      (es : List LogEntry) (n : ℕ) → Ends os to_string date_of c blank d0 es (checking false n)
  unfolding next_round
  halts_idle_round es n s d' g place =
      let st = check place in
      before os to_string date_of c blank d0 st refl (
        halts_last es _ d' (kept g st refl refl g.stop g.pending g.done)
          (ap (next_round c false n) g.stop))

  halts_busy_round :
      (es : List LogEntry) (n : ℕ)
      → Ends os to_string date_of c blank d0 es (batch c.drain_batch_size false 0)
      → Ends os to_string date_of c blank d0 es (checking true n)
  unfolding next_round
  halts_busy_round es n rest s d' g place =
      let st = check place in
      before os to_string date_of c blank d0 st refl
        (rest _ d' (kept g st refl refl g.stop g.pending g.done) refl)

  halts_full :
      (es : List LogEntry) (n : ℕ) (got : Bool)
      → Ends os to_string date_of c blank d0 es (checking got n)
      → Ends os to_string date_of c blank d0 es (batch zero got n)
  halts_full es n got rest s d' g place =
      let st = batch_full place in
      before os to_string date_of c blank d0 st refl
        (rest _ d' (kept g st refl refl g.stop g.pending g.done) refl)

  nil_batch :
      (left n : ℕ) (got : Bool)
      → Ends os to_string date_of c blank d0 [] (checking got n)
      → Ends os to_string date_of c blank d0 [] (batch left got n)
  nil_batch zero n got rest = halts_full [] n got rest
  nil_batch (suc left) n got rest = missed_in_batch left n got rest

  -- With pending entries, given the same for the rest of them.
  cons_batch :
      (e : LogEntry) (es : List LogEntry) (left n : ℕ) (got : Bool)
      → ((left : ℕ) → Ends os to_string date_of c blank d0 es (batch left true n))
      → Ends os to_string date_of c blank d0 (e ∷ es) (checking got n)
      → Ends os to_string date_of c blank d0 (e ∷ es) (batch left got n)
  cons_batch e es zero n got more rest = halts_full (e ∷ es) n got rest
  cons_batch e es (suc left) n got more rest = found_in_batch e es left n got (more left)

  halts_round :
      (es : List LogEntry) (left n : ℕ) (got : Bool)
      → Ends os to_string date_of c blank d0 es (batch left got n)
  halts_round [] left n false = nil_batch left n false (halts_idle_round [] n)
  halts_round [] left n true =
      nil_batch left n true
        (halts_busy_round [] n (nil_batch c.drain_batch_size 0 false (halts_idle_round [] 0)))
  halts_round (e ∷ es) left n false =
      cons_batch e es left n false (λ l. halts_round es l n true) (halts_idle_round (e ∷ es) n)
  halts_round (e ∷ es) left n true =
      cons_batch e es left n true (λ l. halts_round es l n true)
        (halts_busy_round (e ∷ es) n (
          cons_batch e es c.drain_batch_size 0 false (λ l. halts_round es l 0 true)
            (halts_idle_round (e ∷ es) 0)))

  halts_from :
      (es : List LogEntry) (place : Place)
      → ((seen : System LogEntry) → place ≢ ended seen)
      → Ends os to_string date_of c blank d0 es place
  halts_from es (batch left got n) going = halts_round es left n got
  halts_from es (checking false n) going = halts_idle_round es n
  halts_from es (checking true n) going =
      halts_busy_round es n (halts_round es c.drain_batch_size 0 false)
  halts_from es last going = halts_last es
  halts_from es (ended seen) going = absurd (going seen refl)

  pub drain_can_end :
      (t : Live W) (d' : DrainState W)
      → IsWalk os to_string date_of c blank d0 t
      → Fits queue_size t.system.log
      → ((seen : System LogEntry) → t.place ≢ ended seen)
      → ((i : ℕ) → held (t.system.producers i) ≡ none)
      → handle_all os to_string date_of c.output_format
          (drop (tail os to_string date_of c blank d0 t) t.system.log)
          t.drain
        ≡ some d'
      → EndsWith os to_string date_of c blank d0 t d'
  drain_can_end t d' walk fits going quiet done =
      let stopping = record t { stop = true } in
      before os to_string date_of c blank d0 request_stop refl (
        halts_from (drop (tail os to_string date_of c blank d0 t) t.system.log) t.place going
          stopping d'
          (record {
            walk = LiveStep-IsWalk os to_string date_of c blank d0 request_stop fits walk;
            fits = fits;
            quiet = quiet;
            stop = refl;
            pending = refl;
            done = done;
          })
          refl)
