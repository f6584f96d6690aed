-- ===== src/Tests/Logger.antt =====
-- Tests of the logger.
use mpmc_logger.Prelude.{
  ℕ, ◌≡◌, ◌≤◌, ◌<◌, ◌⊎◌, refl, Bool, true, false, none, some, List, [], ◌∷◌, ◌++◌, arith, replicate,
  codes,
}
use mpmc_logger.Queue.{MpmcQueue, new_queue, register_consumer}
use mpmc_logger.Queue.Push.{new_queue-Idle}
use mpmc_logger.Queue.Runs.{register_consumer_keeps}
use mpmc_logger.Entry.{LogEntry, IsEntry, lvl_trace, lvl_info}
use mpmc_logger.Format.{fast_u32_to_str}
use mpmc_logger.Sink.{MMapSink, new_sink}
use mpmc_logger.Logger.{Logger, LoggerConfig, DrainState, binary, shutdown, push, queue_size}
use mpmc_logger.Logger.Drain.{queue_size-IsSize, Pending, handle_all}
use mpmc_logger.Logger.Accept.{IsOnly, Answered, push_answers}
use mpmc_logger.Logger.Life.{closed_world, shutdown_drains}
use mpmc_logger.Tests.Sink.{willing, full_sink}

abbrev pub one_date : ℕ → List ℕ
one_date sec = codes "2026-08-24 22:15:03" ++ (0 ∷ [])

abbrev pub blank : LogEntry
blank = record {
  timestamp_ns = 0;
  thread_id = 0;
  level = lvl_info;
  category = 0;
  payload_len = 0;
  payload = replicate 112 0;
}

pub blank-IsEntry : IsEntry blank
blank-IsEntry = record {
  timestamp_fits = omega arith;
  thread_fits = omega arith;
  level_fits = omega arith;
  category_fits = omega arith;
  len_fits = omega arith;
  payload_full = refl;
}

abbrev pub new_ring : MpmcQueue LogEntry
new_ring = (register_consumer (new_queue blank)).1

pub new_ring-Pending : Pending [] 0 new_ring []
unfolding register_consumer new_queue
new_ring-Pending = record {
  idle = register_consumer_keeps queue_size-IsSize (new_queue-Idle queue_size-IsSize blank);
  active = refl;
  pending_eq = refl;
}

new_ring-IsOnly : IsOnly 0 new_ring
unfolding register_consumer new_queue
new_ring-IsOnly d on = ground arith

abbrev pub stopped : Logger
stopped = record {
  queue = none;
  consumer_id = 0;
  sink = none;
  text_fmt = record { cached_sec = 0; date_prefix = replicate 20 0 };
  output_format = binary;
  running = false;
  initialized = false;
  min_level = lvl_trace;
  drain_batch_size = 256;
  spin_count_before_yield = 1000;
  entries_pushed = 0;
  entries_dropped = 0;
  entries_drained = 0;
}

abbrev running_logger : Logger
running_logger = record stopped {
  queue = some new_ring;
  sink = some full_sink;
  running = true;
  initialized = true;
}

-- The defaults, in smaller regions.
abbrev pub config : LoggerConfig
config = record {
  queue_capacity = 1048576;
  log_file_path = codes "logs/app.log";
  mmap_region_size = 4096;
  max_file_size = 65536;
  max_rotated_files = 8;
  output_format = binary;
  min_level = lvl_trace;
  drain_batch_size = 256;
  spin_count_before_yield = 1000;
}

abbrev pub drain : DrainState ℕ
drain = record {
  sink = some full_sink;
  text_fmt = stopped.text_fmt;
  buf = replicate 256 0;
  drained = 0;
  world = 0;
}

shutdown_drains_example :
    (l' : Logger) × (w' : ℕ) × (shutdown willing fast_u32_to_str one_date blank 1 1
        (replicate 256 0)
        running_logger
        0
      ≡ some (some (l', w')))
    × (l'.queue ≡ none)
    × (l'.initialized ≡ false)
    × (l'.entries_drained ≡ 0)
    × (w' ≡ closed_world willing fast_u32_to_str one_date blank drain)
    × ((e : LogEntry) → push e l' ≡ (false, l'))
unfolding handle_all
shutdown_drains_example =
    shutdown_drains willing fast_u32_to_str one_date blank 1 1 (replicate 256 0) running_logger 0
      new_ring [] [] drain (omega arith) refl refl new_ring-Pending (omega arith) (omega arith) refl

abbrev opened_sink : Bool × MMapSink × ℕ
opened_sink = new_sink willing fast_u32_to_str (codes "logs/app.log") 4096 65536 8 0

push_answers_example :
    ((0 < queue_size)
      × Answered (blank ∷ []) running_logger (blank ∷ []) true (push blank running_logger))
    ⊎ ((queue_size ≤ 0) × Answered [] running_logger [] false (push blank running_logger))
push_answers_example =
    push_answers blank running_logger new_ring [] [] (omega arith) refl new_ring-Pending
      new_ring-IsOnly
