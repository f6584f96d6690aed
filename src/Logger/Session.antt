-- ===== src/Logger/Session.antt =====
-- A whole session of src/logger.cpp: `init`, entries that are logged, `shutdown`, and the file that
-- is left, as tools/log_reader.cpp reads it.
use mpmc_logger.Prelude.{
  ℕ, suc, ◌+◌, ◌*◌, ◌^◌, ◌≤◌, ◌<◌, ◌≡◌, refl, ap, ◌∙◌, true, false, Option, some, List, [], ◌++◌,
  arith, length, replicate, if-false,
}
use mpmc_logger.Queue.{MpmcQueue, new_queue, register_consumer}
use mpmc_logger.Queue.Push.{new_queue-Idle}
use mpmc_logger.Queue.Runs.{register_consumer_keeps}
use mpmc_logger.Entry.{LogEntry, entry_size}
use mpmc_logger.Format.{CachedDateFormatter, max_formatted_size}
use mpmc_logger.Sink.{Os, with_parent, parent}
use mpmc_logger.Sink.Disk.{Disk}
use mpmc_logger.Sink.Opened.{new_sink-IsStored}
use mpmc_logger.Logger.{
  Logger, LoggerConfig, binary, queue_size, init, configured, started, shutdown,
}
use mpmc_logger.Logger.Drain.{queue_size-IsSize, Pending}
use mpmc_logger.Logger.Binary.{AllEntries}
use mpmc_logger.Logger.Accept.{IsOnly, log_all, with_ring, log_all_waiting}
use mpmc_logger.Logger.Readable.{IsPadded, shutdown_readable}
use mpmc_logger.Reader.{default_options, read_file}
use mpmc_logger.Reader.Back.{file_of, lines_of, length-file_of}
use mpmc_logger.Reader.Padding.{blank_entry}

-- The configuration of a binary log in regions of whole pages and whole records.
pub record IsBinaryConfig (page : ℕ) (config : LoggerConfig) : Type 0 where
  pub is_binary : config.output_format ≡ binary
  pub records : ℕ
  pub records_eq : config.mmap_region_size ≡ (1 + records) * entry_size
  pub pages : ℕ
  pub pages_eq : config.mmap_region_size ≡ pages * page
  pub no_wrap : config.max_file_size + config.mmap_region_size + config.mmap_region_size < 2 ^ 63

module _ (blank : LogEntry) where
  unfoldable pub new_ring : MpmcQueue LogEntry
  new_ring = (register_consumer (new_queue blank)).1

  pub new_ring-Pending : Pending [] 0 new_ring []
  unfolding new_ring register_consumer new_queue
  new_ring-Pending = record {
    idle = register_consumer_keeps queue_size-IsSize (new_queue-Idle queue_size-IsSize blank);
    active = refl;
    pending_eq = refl;
  }

  new_ring-IsOnly : IsOnly 0 new_ring
  unfolding new_ring register_consumer new_queue
  new_ring-IsOnly d on = ground arith

module _ {W : Type 0} {os : Os W} {page : ℕ} (disk : Disk os page) (fd : ℕ) (to_string : ℕ → List ℕ)
    (date_of : ℕ → List ℕ) (blank : LogEntry) where
  open disk use {content}

  -- The system when the file is opened.
  abbrev pub at_open : LoggerConfig → W → Option ℕ × W
  at_open config w =
      os.open_path config.log_file_path (with_parent os to_string (parent config.log_file_path) w)

  -- A session of the logger with binary output, in regions of whole pages and whole records, on a
  -- disk that works and a file that holds the records of `old` in whole pages, with room below the
  -- limit for rotation: `init` succeeds; when then at most as many entries as the ring has slots are
  -- logged and `shutdown` is called, with as many rounds and as much fuel as entries and one more,
  -- it returns; the file holds the records of `old` and of all entries in order, and blank records
  -- up to a whole page; and the reader with its default options prints and counts all of these, the
  -- blank ones included.
  pub session_readable :
      (config : LoggerConfig) (memory buf : List ℕ) (l : Logger) (w : W) (old es : List LogEntry)
      (k : ℕ) (filename : List ℕ) (f : CachedDateFormatter)
      → IsBinaryConfig page config
      → l.initialized ≡ false
      → (at_open config w).0 ≡ some fd
      → content fd (at_open config w).1 ≡ file_of old
      → length old * entry_size ≡ k * page
      → AllEntries old
      → AllEntries es
      → length es ≤ queue_size
      → (length old + length es) * entry_size ≤ config.max_file_size
      → length buf ≡ max_formatted_size
      → (l1 : Logger) × (w1 : W) × (l2 : Logger) × (w2 : W) × (n : ℕ) × (init os to_string date_of
            blank config memory l w
          ≡ (true, l1, w1))
        × (shutdown os to_string date_of blank
              (suc (length es))
              (suc (length es))
              buf
              (log_all es l1)
              w1
            ≡ some (some (l2, w2)))
        × IsPadded disk config.max_file_size fd to_string date_of blank
            (content fd w2)
            (old ++ es)
            n
        × (read_file date_of (default_options filename) f (content fd w2) ≡ (
          lines_of date_of ((old ++ es) ++ replicate n blank_entry) f,
          length old + length es + n,
          length old + length es + n,
        ))
  unfolding init register_consumer new_queue new_ring
  session_readable config memory buf l w old es k filename f c off opens holds whole all_old all
        room le full =
      let limit = config.max_file_size in
      let (s, w1, made, stored) =
        new_sink-IsStored disk limit fd to_string config.log_file_path config.mmap_region_size
          config.max_rotated_files w (file_of old) c.records c.pages k c.records_eq c.pages_eq
          c.no_wrap opens holds (length-file_of old all_old ∙ whole)
          (omega (arith, length-file_of old all_old)) in
      let l1 =
        (started os to_string date_of blank memory (configured os to_string date_of blank config l)
          (true, s, w1)).1 in
      let (q, logged, p, only) =
        log_all_waiting es l1 (new_ring blank) [] [] (omega arith) (new_ring-Pending blank)
          (new_ring-IsOnly blank) (omega arith) in
      let (l2, w2, n, ended, padded, seen) =
        shutdown_readable disk limit fd to_string date_of blank (suc (length es)) (suc (length es))
          buf (with_ring l1 q) w1 q es old es filename f (omega arith) refl c.is_binary refl p
          (omega arith) (omega arith) all_old all
          (record { the_sink = s; sink_eq = refl; stored = stored; buf_full = full }) le in
      (
        l1,
        w1,
        l2,
        w2,
        n,
        if-false _ _ off
            ∙ ap
                (started os to_string date_of blank memory
                  (configured os to_string date_of blank config l))
                made,
        ap (λ r. shutdown os to_string date_of blank (suc (length es)) (suc (length es)) buf r w1)
              logged
            ∙ ended,
        padded,
        seen,
      )
