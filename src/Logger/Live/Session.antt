-- ===== src/Logger/Live/Session.antt =====
-- A session of src/logger.cpp whose producers push while the drain thread runs: from `init` to the
-- file that is left when the drain thread has ended, as tools/log_reader.cpp reads it.
use mpmc_logger.Prelude.{
  ℕ, ◌+◌, ◌-◌, ◌*◌, ◌^◌, ◌≤◌, ◌<◌, ◌≡◌, ◌≢◌, refl, sym, ap, ◌∙◌, subst, true, false, some,
  some-injective, List, [], ◌++◌, arith, length, replicate, take, length-take, length-append,
  if-false,
}
use mpmc_logger.Queue.{MpmcQueue, new_queue, register_consumer}
use mpmc_logger.Entry.{LogEntry, entry_size}
use mpmc_logger.Format.{CachedDateFormatter, max_formatted_size}
use mpmc_logger.Sink.{Os}
use mpmc_logger.Sink.Disk.{Disk}
use mpmc_logger.Sink.Opened.{new_sink-IsStored}
use mpmc_logger.Logger.{
  Logger, LoggerConfig, binary, queue_size, init, configured, started, released, drain_state,
}
use mpmc_logger.Logger.Drain.{Pending, handle_all}
use mpmc_logger.Logger.Binary.{AllEntries}
use mpmc_logger.Logger.File.{IsFiled, handle_all-IsFiled}
use mpmc_logger.Logger.Readable.{IsPadded, closed-IsPadded, padded_readable}
use mpmc_logger.Logger.Session.{IsBinaryConfig, at_open, new_ring, new_ring-Pending}
use mpmc_logger.Concurrent.{idle, waiting, System, Reach, registered}
use mpmc_logger.Concurrent.Local.{held}
use mpmc_logger.Logger.Live.{batch, ended, Live, DrainConfig, LiveReach}
use mpmc_logger.Logger.Live.Orderly.{LiveReach-IsOrderly}
use mpmc_logger.Logger.Live.Walk.{IsWalk}
use mpmc_logger.Reader.{default_options, read_file}
use mpmc_logger.Reader.Back.{file_of, lines_of, length-file_of}
use mpmc_logger.Reader.Padding.{blank_entry, file_of-append, AllEntries-append, AllEntries-take}

-- What the drain thread of a started logger reads of it.
abbrev pub config_of : Logger → DrainConfig
config_of l = record {
  output_format = l.output_format;
  consumer_id = l.consumer_id;
  drain_batch_size = l.drain_batch_size;
  spin_count_before_yield = l.spin_count_before_yield;
}

module _ {W : Type 0} (os : Os W) (to_string : ℕ → List ℕ) (date_of : ℕ → List ℕ)
    (blank : LogEntry) where
  -- The start of the drain thread with an empty queue.
  abbrev pub thread_start : Logger → List ℕ → W → MpmcQueue LogEntry → Live W
  thread_start l buf w q = record {
    system = record {
      memory = q;
      producers = λ i. idle;
      consumers = λ i. waiting;
      log = [];
      received = λ i. [];
    };
    drain = drain_state os to_string date_of blank l buf w;
    place = batch l.drain_batch_size false 0;
    stop = false;
  }

  pub thread_start-IsWalk :
      (l : Logger) (buf : List ℕ) (w : W)
      → Pending [] l.consumer_id (new_ring blank) []
      → IsWalk os to_string date_of
          (config_of l)
          blank
          (drain_state os to_string date_of blank l buf w)
          (thread_start l buf w (new_ring blank))
  unfolding handle_all new_ring registered
  thread_start-IsWalk l buf w p = record {
    reached = Reach.start;
    active = p.active;
    handled = refl;
    at_end = λ seen h. cc;
  }

module _ {W : Type 0} {os : Os W} {page : ℕ} (disk : Disk os page) (fd : ℕ) (to_string : ℕ → List ℕ)
    (date_of : ℕ → List ℕ) (blank : LogEntry) where
  open disk use {content}

  -- What `init` leaves for the drain thread.
  pub record IsLaunched (limit : ℕ) (buf : List ℕ) (old : List LogEntry) (l : Logger) (w : W)
      : Type 0 where
    pub ring_eq : l.queue ≡ some (new_ring blank)
    pub waiting : Pending [] l.consumer_id (new_ring blank) []
    pub is_binary : l.output_format ≡ binary
    pub filed :
        IsFiled disk limit fd to_string date_of
          (drain_state os to_string date_of blank l buf w)
          (file_of old)

  pub init-IsLaunched :
      (config : LoggerConfig) (memory buf : List ℕ) (l l1 : Logger) (w w1 : W) (old : List LogEntry)
      (k : ℕ)
      → IsBinaryConfig page config
      → l.initialized ≡ false
      → (at_open disk fd to_string date_of blank config w).0 ≡ some fd
      → content fd (at_open disk fd to_string date_of blank config w).1 ≡ file_of old
      → length old * entry_size ≡ k * page
      → AllEntries old
      → length old * entry_size ≤ config.max_file_size
      → length buf ≡ max_formatted_size
      → init os to_string date_of blank config memory l w ≡ (true, l1, w1)
      → IsLaunched config.max_file_size buf old l1 w1
  unfolding init register_consumer new_queue new_ring
  init-IsLaunched config memory buf l l1 w w1 old k c off opens holds whole all_old le full run =
      let limit = config.max_file_size in
      let (s, w2, made, stored) =
        new_sink-IsStored disk limit fd to_string config.log_file_path config.mmap_region_size
          config.max_rotated_files w (file_of old) c.records c.pages k c.records_eq c.pages_eq
          c.no_wrap opens holds (length-file_of old all_old ∙ whole)
          (omega (arith, length-file_of old all_old)) in
      let begun =
        started os to_string date_of blank memory
          (configured os to_string date_of blank config l) in
      let l2 = (begun (true, s, w2)).1 in
      let reached : (true, l2, w2) ≡ (true, l1, w1) =
        sym (if-false _ _ off ∙ ap begun made) ∙ run in
      subst (λ r. IsLaunched limit buf old r.1 r.2) reached
        (record {
          ring_eq = refl;
          waiting = new_ring-Pending blank;
          is_binary = c.is_binary;
          filed = record { the_sink = s; sink_eq = refl; stored = stored; buf_full = full };
        })

  -- A session of the logger with binary output, in regions of whole pages and whole records, on a
  -- disk that works and a file that holds the records of `old` in whole pages. After `init`, the
  -- drain thread runs beside the producers, in any interleaving of their loads and stores, with the
  -- stop requested at any time, and it ends. Then, with room below the limit for rotation, the file
  -- that `shutdown` leaves holds the records of `old` and of the first entries in the order of their
  -- claims, and blank records up to a whole page; and the reader with its default options prints and
  -- counts all of these, the blank ones included. The entries are all that had been claimed when the
  -- last `pop` found nothing, unless the next one was claimed and not yet published then.
  pub live_session_readable :
      (config : LoggerConfig) (memory buf : List ℕ) (l l1 : Logger) (w w1 : W)
      (q : MpmcQueue LogEntry) (old : List LogEntry) (k : ℕ) (t : Live W) (seen : System LogEntry)
      (filename : List ℕ) (f : CachedDateFormatter)
      → IsBinaryConfig page config
      → l.initialized ≡ false
      → (at_open disk fd to_string date_of blank config w).0 ≡ some fd
      → content fd (at_open disk fd to_string date_of blank config w).1 ≡ file_of old
      → length old * entry_size ≡ k * page
      → AllEntries old
      → length buf ≡ max_formatted_size
      → init os to_string date_of blank config memory l w ≡ (true, l1, w1)
      → l1.queue ≡ some q
      → LiveReach os to_string date_of
          (config_of l1)
          (thread_start os to_string date_of blank l1 buf w1 q)
          t
      → t.place ≡ ended seen
      → length t.system.log + queue_size + 1 < 2 ^ 64 - 1
      → AllEntries t.system.log
      → (length old + length seen.log) * entry_size ≤ config.max_file_size
      → (n : ℕ) × (m : ℕ) × IsPadded disk config.max_file_size fd to_string date_of blank
          (content fd (released os to_string date_of blank l1 (t.system.memory, t.drain)).1)
          (old ++ take m t.system.log)
          n
        × (m ≤ length seen.log)
        × (length seen.log ≤ length t.system.log)
        × (((i : ℕ) → held (seen.producers i) ≢ some (seen.memory.consumers l1.consumer_id).tail)
            → take m t.system.log ≡ seen.log)
        × (read_file date_of
              (default_options filename)
              f
              (content fd (released os to_string date_of blank l1 (t.system.memory, t.drain)).1)
            ≡ (
              lines_of date_of ((old ++ take m t.system.log) ++ replicate n blank_entry) f,
              length old + m + n,
              length old + m + n,
            ))
  live_session_readable config memory buf l l1 w w1 q old k t seen filename f c off opens holds
        whole all_old full run has reach at_end fits all room =
      let limit = config.max_file_size in
      let d0 = drain_state os to_string date_of blank l1 buf w1 in
      let launched =
        init-IsLaunched config memory buf l l1 w w1 old k c off opens holds whole all_old
          (omega arith) full run in
      let begun : IsWalk os to_string date_of (config_of l1) blank d0
          (thread_start os to_string date_of blank l1 buf w1 q) =
        subst
          (λ r.
            IsWalk os to_string date_of (config_of l1) blank d0
              (thread_start os to_string date_of blank l1 buf w1 r))
          (some-injective _ _ (sym launched.ring_eq ∙ has))
          (thread_start-IsWalk os to_string date_of blank l1 buf w1 launched.waiting) in
      let o =
        LiveReach-IsOrderly os to_string date_of (config_of l1) blank d0 reach begun
          (omega arith) in
      let (grown, few, published) = o.at_end seen at_end in
      let m = (t.system.memory.consumers l1.consumer_id).tail in
      let es = take m t.system.log in
      let count : length es ≡ m = omega (arith, length-take m t.system.log, o.within) in
      let all_es = AllEntries-take m t.system.log all in
      let (d, done, g) =
        handle_all-IsFiled disk limit fd to_string date_of es d0 (file_of old) all_es launched.filed
          (omega (arith, length-file_of old all_old, count)) in
      let same : d ≡ t.drain = some-injective _ _ (
        sym done
        ∙ ap (λ fmt. handle_all os to_string date_of fmt es d0) (sym launched.is_binary)
        ∙ o.handled) in
      let all_both = AllEntries-append old es all_old all_es in
      let filed : IsFiled disk limit fd to_string date_of t.drain (file_of (old ++ es)) =
        subst (λ x. IsFiled disk limit fd to_string date_of x (file_of (old ++ es))) same
          (subst (IsFiled disk limit fd to_string date_of d) (sym (file_of-append old es)) g) in
      let (n, padded) =
        closed-IsPadded disk limit fd to_string date_of blank t.drain (old ++ es) filed all_both in
      (
        n,
        m,
        padded,
        few,
        grown,
        published,
        padded_readable disk limit fd to_string date_of blank _ (old ++ es) n filename f padded
              all_both
            ∙ ap (λ r. (lines_of date_of ((old ++ es) ++ replicate n blank_entry) f, r, r))
                {x = length (old ++ es) + n} {y = length old + m + n}
                (omega (arith, length-append old es, count)),
      )
