-- ===== src/Logger.antt =====
-- include/mpmc_logger/logger.hpp, include/mpmc_logger/config.hpp and src/logger.cpp: the logger, its
-- start and end, the call of the macro `MPMC_LOG`, and the drain thread. `blank` is the default
-- entry, of whatever payload; `date_of` and `to_string` are as for the formatter and the sink.
pub mod Drain
pub mod Binary
pub mod File
pub mod Readable
pub mod Session
pub mod Accept
pub mod Life
pub mod Live
pub mod Message
use mathlib.Core.Option
use mpmc_logger.Prelude.{
  ℕ, zero, suc, ◌+◌, ◌-◌, ◌%◌, ◌^◌, Bool, true, false, not, Option, none, some, List, [], ◌∷◌, ◌++◌,
  if◌then◌else◌, ◌>>=◌, ltb, leb, ◌==◌, length, take, drop,
}
use mpmc_logger.Queue
use mpmc_logger.Queue.{MpmcQueue, new_queue, register_consumer, unregister_consumer, pop, u64_mod}
use mpmc_logger.Entry.{LogEntry, payload_size}
use mpmc_logger.Format.{
  CachedDateFormatter, new_date_formatter, format_text, format_binary, max_formatted_size,
}
use mpmc_logger.Sink.{
  Os, MMapSink, Outcome, returned, terminated, add64, new_sink, write, flush, delete_sink,
}

pub data OutputFormat : Type 0 where
  binary : OutputFormat
  text : OutputFormat

pub record LoggerConfig : Type 0 where
  pub queue_capacity : ℕ
  pub log_file_path : List ℕ
  pub mmap_region_size : ℕ
  pub max_file_size : ℕ
  pub max_rotated_files : ℕ
  pub output_format : OutputFormat
  pub min_level : ℕ
  pub drain_batch_size : ℕ
  pub spin_count_before_yield : ℕ

-- `QUEUE_SIZE`
abbrev pub queue_size : ℕ
queue_size = 2 ^ 20

-- The formatter is read only where `output_format` is `text`, and the source creates it then.
pub record Logger : Type 0 where
  pub queue : Option (MpmcQueue LogEntry)
  pub consumer_id : ℕ
  pub sink : Option MMapSink
  pub text_fmt : CachedDateFormatter
  pub output_format : OutputFormat
  pub running : Bool
  pub initialized : Bool
  pub min_level : ℕ
  pub drain_batch_size : ℕ
  pub spin_count_before_yield : ℕ
  pub entries_pushed : ℕ
  pub entries_dropped : ℕ
  pub entries_drained : ℕ

unfoldable pub should_log : ℕ → Logger → Bool
should_log level l = leb l.min_level level

unfoldable pub set_level : ℕ → Logger → Logger
set_level level l = record l { min_level = level }

abbrev pub stored_queue : Logger → Bool × MpmcQueue LogEntry → Bool × Logger
stored_queue l (ok, q) = (ok, record l { queue = some q })

unfoldable pub push : LogEntry → Logger → Bool × Logger
push e l = elim l.queue [ none ↦ (false, l) | some q ↦ stored_queue l (Queue.push queue_size e q) ]

-- `LOG_ENTRY_RAW`
unfoldable pub log_raw : LogEntry → Logger → Logger
log_raw e l = (push e l).1

-- `get_cached_tid`: the identifier and the thread's cache after the call, where the system gives the
-- thread the identifier `gettid`.
unfoldable pub get_cached_tid : (gettid cached : ℕ) → ℕ × ℕ
get_cached_tid gettid cached =
    let tid = if cached == 0 then gettid % 2 ^ 32 else cached in (tid, tid)

-- What `snprintf` is given and leaves: `none` for a negative result.
module _ {M : Type 0} (snprintf : M → List ℕ → Option ℕ × List ℕ) where
  -- `(_n > 0) ? (_n < 112 ? _n : 112) : 0`
  abbrev pub message_len : Option ℕ → ℕ
  message_len none = 0
  message_len (some n) = if ltb 0 n then if ltb n payload_size then n else payload_size else 0

  -- The entry of `MPMC_LOG`, with the clock, the thread, and the payload's memory before.
  unfoldable pub build_entry : (level category now tid : ℕ) → M → List ℕ → LogEntry
  build_entry level category now tid message memory =
      let (n, payload) = snprintf message memory in
      record {
        timestamp_ns = now;
        thread_id = tid;
        level = level;
        category = category;
        payload_len = message_len n;
        payload = payload;
      }

  unfoldable pub log : (level category now tid : ℕ) → M → List ℕ → Logger → Logger
  log level category now tid message memory l =
      if should_log level l
      then (push (build_entry level category now tid message memory) l).1
      else l

-- What the drain thread works on, besides the queue: the sink, the formatter, its buffer, the
-- counter, and the state of the system.
pub record DrainState (W : Type 0) : Type 0 where
  pub sink : Option MMapSink
  pub text_fmt : CachedDateFormatter
  pub buf : List ℕ
  pub drained : ℕ
  pub world : W

module _ {W : Type 0} (os : Os W) (to_string : ℕ → List ℕ) (date_of : ℕ → List ℕ) where
  -- The number of bytes in the buffer.
  unfoldable pub format_entry : OutputFormat → LogEntry → DrainState W → ℕ × DrainState W
  format_entry binary e d =
      let (buf, written) = format_binary e d.buf max_formatted_size in
      (written, record d { buf = buf })
  format_entry text e d =
      let (line, f) = format_text date_of e max_formatted_size d.text_fmt in
      (length line, record d { buf = line ++ drop (length line) d.buf; text_fmt = f })

  abbrev pub after_write : DrainState W → Outcome W → Option (DrainState W)
  after_write d (returned n s w) = some (record d { sink = some s; world = w })
  after_write d (terminated w) = none

  abbrev pub write_out : ℕ × DrainState W → Option (DrainState W)
  write_out (written, d) =
      if ltb 0 written
      then elim d.sink [
        | none ↦ some d
        | some s ↦ after_write d (write os to_string (take written d.buf) s d.world)
      ]
      else some d

  -- What the drain loop does with an entry; `none` where the process ends.
  unfoldable pub handle : OutputFormat → LogEntry → DrainState W → Option (DrainState W)
  handle fmt e d = write_out (format_entry fmt e (record d { drained = add64 d.drained 1 }))

  -- The loop over a batch: whether it got any, the queue, and the rest.
  unfoldable pub drain_batch :
      (left : ℕ) (got_any : Bool)
      → OutputFormat
      → ℕ
      → MpmcQueue LogEntry
      → DrainState W
      → Option (Bool × MpmcQueue LogEntry × DrainState W)
  drain_batch zero got_any fmt id q d = some (got_any, q, d)
  drain_batch (suc left) got_any fmt id q d =
      let (out, q') = pop queue_size id q in
      elim out [
        | none ↦ some (got_any, q', d)
        | some e ↦ handle fmt e d >>= (λ d'. drain_batch left true fmt id q' d')
      ]

  -- The final drain, on fuel: `none` in the second place where the fuel is used up.
  unfoldable pub drain_rest :
      (fuel : ℕ)
      → OutputFormat
      → ℕ
      → MpmcQueue LogEntry
      → DrainState W
      → Option (Option (MpmcQueue LogEntry × DrainState W))
  drain_rest zero fmt id q d = some none
  drain_rest (suc fuel) fmt id q d =
      let (out, q') = pop queue_size id q in
      elim out [
        | none ↦ some (some (q', d))
        | some e ↦ handle fmt e d >>= (λ d'. drain_rest fuel fmt id q' d')
      ]

  -- The drain loop from the request to stop on: batches until one is empty, then the final drain.
  unfoldable pub drain_stopping :
      (rounds fuel batch : ℕ)
      → OutputFormat
      → ℕ
      → MpmcQueue LogEntry
      → DrainState W
      → Option (Option (MpmcQueue LogEntry × DrainState W))
  drain_stopping zero fuel batch fmt id q d = some none
  drain_stopping (suc rounds) fuel batch fmt id q d = drain_batch batch false fmt id q d >>= (λ r.
      elim r.0 [
        | true ↦ drain_stopping rounds fuel batch fmt id r.1 r.2
        | false ↦ drain_rest fuel fmt id r.1 r.2
      ])

-- The counter of empty rounds after a round.
unfoldable pub backoff : (got_any : Bool) (spin_count consecutive_empty : ℕ) → ℕ
backoff true spin_count consecutive_empty = 0
backoff false spin_count consecutive_empty =
    if ltb (add64 consecutive_empty 1) spin_count then add64 consecutive_empty 1 else spin_count

module _ {W : Type 0} (os : Os W) (to_string : ℕ → List ℕ) (date_of : ℕ → List ℕ)
    (blank : LogEntry) where
  abbrev pub id_or : ℕ → Option ℕ → ℕ
  id_or old none = old
  id_or old (some id) = id

  -- The stored configuration, and the new queue with its consumer.
  abbrev pub configured : LoggerConfig → Logger → Logger
  configured config l =
      let (id, q) = register_consumer (new_queue blank) in
      record l {
        min_level = config.min_level;
        output_format = config.output_format;
        drain_batch_size = config.drain_batch_size;
        spin_count_before_yield = config.spin_count_before_yield;
        queue = some q;
        consumer_id = id_or l.consumer_id id;
      }

  abbrev pub started : List ℕ → Logger → Bool × MMapSink × W → Bool × Logger × W
  started memory l (false, s, w) = (false, l, w)
  started memory l (true, s, w) = (
    true,
    record l {
      sink = some s;
      text_fmt = new_date_formatter memory;
      running = true;
      initialized = true;
    },
    w,
  )

  -- `false` where the constructor of the sink throws; the queue has been replaced by then. The
  -- drain thread starts with the stored fields.
  unfoldable pub init : LoggerConfig → List ℕ → Logger → W → Bool × Logger × W
  init config memory l w =
      if l.initialized
      then (true, l, w)
      else started memory (configured config l) (
          new_sink os to_string config.log_file_path config.mmap_region_size config.max_file_size
            config.max_rotated_files w)

  -- The end of `shutdown`, after the drain thread has been joined.
  abbrev pub released : Logger → MpmcQueue LogEntry × DrainState W → Logger × W
  released l (q, d) = (
    record l {
      queue = none;
      sink = none;
      initialized = false;
      running = false;
      text_fmt = d.text_fmt;
      entries_drained = d.drained;
    },
    elim d.sink [
      | none ↦ d.world
      | some s ↦ (delete_sink os to_string s (flush os to_string s d.world)).1
    ],
  )

  abbrev pub drain_state : Logger → List ℕ → W → DrainState W
  drain_state l buf w = record {
    sink = l.sink;
    text_fmt = l.text_fmt;
    buf = buf;
    drained = l.entries_drained;
    world = w;
  }

  -- `shutdown`, with the work that the drain thread has left to do, and its buffer.
  unfoldable pub shutdown : (rounds fuel : ℕ) → List ℕ → Logger → W → Option (Option (Logger × W))
  shutdown rounds fuel buf l w =
      if l.initialized
      then elim l.queue [
        | none ↦ some (some (record l { initialized = false; running = false }, w))
        | some q ↦
            drain_stopping os to_string date_of rounds fuel l.drain_batch_size l.output_format
              l.consumer_id q (drain_state l buf w)
            >>= (λ r. some (Option.map (released l) r))
      ]
      else some (some (l, w))
