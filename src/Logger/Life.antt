-- ===== src/Logger/Life.antt =====
-- src/logger.cpp: `init` and `shutdown`.
use mpmc_logger.Prelude.{
  ℕ, ◌<◌, ◌≡◌, refl, ap, ◌∙◌, true, false, none, some, List, [], length, ◌>>=◌, if-true, if-false,
}
use mathlib.Core.Option
use mpmc_logger.Queue.{MpmcQueue, new_queue, register_consumer}
use mpmc_logger.Queue.Inv.{Fits}
use mpmc_logger.Queue.Push.{new_queue-Idle}
use mpmc_logger.Queue.Runs.{register_consumer_keeps}
use mpmc_logger.Entry.{LogEntry}
use mpmc_logger.Sink.{Os, MMapSink, new_sink, flush, delete_sink}
use mpmc_logger.Logger.{
  Logger, LoggerConfig, DrainState, queue_size, push, init, configured, started, shutdown,
  drain_stopping, drain_state, released,
}
use mpmc_logger.Logger.Drain.{queue_size-IsSize, Pending, handle_all, drain_stopping_lem}

module _ {W : Type 0} (os : Os W) (to_string : ℕ → List ℕ) (date_of : ℕ → List ℕ)
    (blank : LogEntry) where
  -- The system after the sink has been flushed and deleted.
  abbrev pub closed_world : DrainState W → W
  closed_world d = elim d.sink [
    | none ↦ d.world
    | some s ↦ (delete_sink os to_string s (flush os to_string s d.world)).1
  ]

  -- With nobody pushing any more, `shutdown` of a started logger returns, given more rounds and fuel
  -- than pending entries, if no pending entry ends the process; the pending entries have been
  -- handled in order, the sink is flushed and deleted, the logger is closed, and refuses every later
  -- entry.
  pub shutdown_drains :
      (rounds fuel : ℕ) (buf : List ℕ) (l : Logger) (w : W) (q : MpmcQueue LogEntry)
      (log es : List LogEntry) (d : DrainState W)
      → Fits queue_size log
      → l.initialized ≡ true
      → l.queue ≡ some q
      → Pending log l.consumer_id q es
      → length es < rounds
      → length es < fuel
      → handle_all os to_string date_of l.output_format es
          (drain_state os to_string date_of blank l buf w)
        ≡ some d
      → (l' : Logger) × (w' : W) × (shutdown os to_string date_of blank rounds fuel buf l w
          ≡ some (some (l', w')))
        × (l'.queue ≡ none)
        × (l'.initialized ≡ false)
        × (l'.entries_drained ≡ d.drained)
        × (w' ≡ closed_world d)
        × ((e : LogEntry) → push e l' ≡ (false, l'))
  unfolding shutdown push
  shutdown_drains rounds fuel buf l w q log es d fits on has p lt lt' handled =
      let (q', done, same) =
        drain_stopping_lem os to_string date_of l.output_format log l.consumer_id fits rounds fuel
          l.drain_batch_size es q lt lt' p in
      let drained =
        same (drain_state os to_string date_of blank l buf w)
        ∙ ap (λ o. o >>= (λ d'. some (some (q', d')))) handled in
      let (l', w') = released os to_string date_of blank l (q', d) in
      (
        l',
        w',
        if-true _ _ on
            ∙ ap
                (λ k. elim k [
                  | none ↦ some (some (record l { initialized = false; running = false }, w))
                  | some q0 ↦
                      drain_stopping os to_string date_of rounds fuel l.drain_batch_size
                        l.output_format l.consumer_id q0
                        (drain_state os to_string date_of blank l buf w)
                      >>= (λ r. some (Option.map (released os to_string date_of blank l) r))
                ])
                has
            ∙ ap (λ o. o >>= (λ r. some (Option.map (released os to_string date_of blank l) r)))
                drained,
        refl,
        refl,
        refl,
        refl,
        λ e. refl,
      )

  -- A successful `init` of a logger that is not started leaves it with an empty queue whose consumer
  -- is the drain thread, and with the sink; a second `init` changes nothing.
  pub init_ready :
      (config other : LoggerConfig) (memory memory' : List ℕ) (l : Logger) (w w' : W) (s : MMapSink)
      → l.initialized ≡ false
      → new_sink os to_string config.log_file_path config.mmap_region_size config.max_file_size
          config.max_rotated_files w
        ≡ (true, s, w')
      → (l' : Logger) × (q : MpmcQueue LogEntry) × (init os to_string date_of blank config memory l
            w
          ≡ (true, l', w'))
        × (l'.queue ≡ some q)
        × Pending [] l'.consumer_id q []
        × (l'.sink ≡ some s)
        × (init os to_string date_of blank other memory' l' w' ≡ (true, l', w'))
  unfolding init register_consumer new_queue
  init_ready config other memory memory' l w w' s off made =
      let empty = new_queue-Idle queue_size-IsSize blank in
      (
        (started os to_string date_of blank memory (configured os to_string date_of blank config l)
            (true, s, w')).1,
        (register_consumer (new_queue blank)).1,
        if-false _ _ off
            ∙ ap
                (started os to_string date_of blank memory
                  (configured os to_string date_of blank config l))
                made,
        refl,
        record {
          idle = register_consumer_keeps queue_size-IsSize empty;
          active = refl;
          pending_eq = refl;
        },
        refl,
        refl,
      )
