-- ===== src/Logger/Readable.antt =====
-- src/logger.cpp, src/mmap_sink.cpp and tools/log_reader.cpp together: what is read from the file
-- that a shutdown leaves.
use mpmc_logger.Prelude.{
  ℕ, ◌+◌, ◌-◌, ◌*◌, ◌^◌, ◌≤◌, ◌<◌, ◌≡◌, sym, ap, ◌∙◌, true, none, some, List, ◌++◌, arith, length,
  replicate, subst, length-append, length-replicate,
}
use native.Mathlib.Nat.{add-mul}
use mpmc_logger.Queue.{MpmcQueue}
use mpmc_logger.Queue.Inv.{Fits}
use mpmc_logger.Entry.{LogEntry, entry_size}
use mpmc_logger.Format.{CachedDateFormatter}
use mpmc_logger.Sink.{Os, flush, delete_sink}
use mpmc_logger.Sink.Disk.{Disk, zeros}
use mpmc_logger.Sink.Opened.{flush-IsStored, delete_sink_keeps}
use mpmc_logger.Logger.{Logger, binary, DrainState, queue_size, shutdown, drain_state}
use mpmc_logger.Logger.Drain.{Pending, handle_all}
use mpmc_logger.Logger.Binary.{AllEntries}
use mpmc_logger.Logger.File.{IsFiled, handle_all-IsFiled}
use mpmc_logger.Logger.Life.{closed_world, shutdown_drains}
use mpmc_logger.Reader.{default_options, read_file}
use mpmc_logger.Reader.Back.{file_of, lines_of, length-file_of}
use mpmc_logger.Reader.Padding.{
  blank_entry, file_of-blank, file_of-append, AllEntries-append, AllEntries-blank, read_whole,
}

module _ {W : Type 0} {os : Os W} {page : ℕ} (disk : Disk os page) (limit fd : ℕ)
    (to_string : ℕ → List ℕ) (date_of : ℕ → List ℕ) (blank : LogEntry) where
  open disk use {content}

  -- The file that is left: records of the entries, and blank ones up to a whole page.
  pub record IsPadded (bytes : List ℕ) (es : List LogEntry) (k : ℕ) : Type 0 where
    pub bytes_eq : bytes ≡ file_of (es ++ replicate k blank_entry)
    pub pages : ℕ
    pub pages_eq : (length es + k) * entry_size ≡ pages * page
    pub small : (length es + k) * entry_size < 2 ^ 63

  pub closed-IsPadded :
      (d : DrainState W) (es : List LogEntry)
      (g : IsFiled disk limit fd to_string date_of d (file_of es))
      → AllEntries es
      → (k : ℕ) × IsPadded (content fd (closed_world os to_string date_of blank d)) es k
  closed-IsPadded d es g all =
      let s = g.the_sink in
      let b = g.stored.binary in
      let k = 1 + b.region.records - b.count in
      let left : s.region_size - s.mmap_offset ≡ k * entry_size =
        omega (arith, b.region.records_eq, b.offset_eq) in
      (
        k,
        record {
          bytes_eq =
              ap
                (λ o. content fd (elim o [
                  | none ↦ d.world
                  | some s0 ↦ (delete_sink os to_string s0 (flush os to_string s0 d.world)).1
                ]))
                g.sink_eq
              ∙ delete_sink_keeps disk limit fd to_string s (flush os to_string s d.world)
                  (file_of es)
                  (flush-IsStored disk limit fd to_string s d.world (file_of es) g.stored)
              ∙ ap (λ n. file_of es ++ zeros n) left
              ∙ ap (λ l. file_of es ++ l) (file_of-blank k)
              ∙ sym (file_of-append es (replicate k blank_entry));
          pages = b.base + b.region.pages;
          pages_eq = omega (
            arith,
            add-mul b.base b.region.pages page,
            length-file_of es all,
            g.stored.size,
            b.base_eq,
            b.region.pages_eq,
            b.offset_le,
            left,
          );
          small = omega (
            arith,
            length-file_of es all,
            g.stored.size,
            b.base_eq,
            b.base_le,
            b.offset_le,
            b.region.no_wrap,
            left,
          );
        },
      )

  -- The reader with its default options prints and counts all of these records.
  pub padded_readable :
      (bytes : List ℕ) (es : List LogEntry) (k : ℕ) (filename : List ℕ) (f : CachedDateFormatter)
      → IsPadded bytes es k
      → AllEntries es
      → read_file date_of (default_options filename) f bytes
        ≡ (lines_of date_of (es ++ replicate k blank_entry) f, length es + k, length es + k)
  padded_readable bytes es k filename f p all =
      let size : length (es ++ replicate k blank_entry) ≡ length es + k =
        omega (arith, length-append es (replicate k blank_entry), length-replicate k blank_entry) in
      ap (read_file date_of (default_options filename) f) p.bytes_eq
      ∙ read_whole date_of filename f (es ++ replicate k blank_entry)
          (AllEntries-append es (replicate k blank_entry) all (AllEntries-blank k))
          (omega (arith, p.small, size))
      ∙ ap (λ n. (lines_of date_of (es ++ replicate k blank_entry) f, n, n)) size

  -- With binary output, room below the limit for rotation, and a file that holds the records of
  -- `old` when the drain thread starts, `shutdown` returns, given more rounds and fuel than pending
  -- entries; the file then holds the records of `old` and of the pending entries in order, and blank
  -- records up to a whole page, and the reader with its default options prints and counts all of
  -- these, the blank ones included.
  pub shutdown_readable :
      (rounds fuel : ℕ) (buf : List ℕ) (l : Logger) (w : W) (q : MpmcQueue LogEntry)
      (log old es : List LogEntry) (filename : List ℕ) (f : CachedDateFormatter)
      → Fits queue_size log
      → l.initialized ≡ true
      → l.output_format ≡ binary
      → l.queue ≡ some q
      → Pending log l.consumer_id q es
      → length es < rounds
      → length es < fuel
      → AllEntries old
      → AllEntries es
      → IsFiled disk limit fd to_string date_of
          (drain_state os to_string date_of blank l buf w)
          (file_of old)
      → (length old + length es) * entry_size ≤ limit
      → (l' : Logger) × (w' : W) × (k : ℕ) × (shutdown os to_string date_of blank rounds fuel buf l
            w
          ≡ some (some (l', w')))
        × IsPadded (content fd w') (old ++ es) k
        × (read_file date_of (default_options filename) f (content fd w') ≡ (
          lines_of date_of ((old ++ es) ++ replicate k blank_entry) f,
          length old + length es + k,
          length old + length es + k,
        ))
  shutdown_readable rounds fuel buf l w q log old es filename f fits on is_bin has p lt lt' all_old
        all g le =
      let d0 = drain_state os to_string date_of blank l buf w in
      let (d, done, g1) =
        handle_all-IsFiled disk limit fd to_string date_of es d0 (file_of old) all g
          (omega (arith, length-file_of old all_old)) in
      let handled : handle_all os to_string date_of l.output_format es d0 ≡ some d =
        ap (λ fmt. handle_all os to_string date_of fmt es d0) is_bin ∙ done in
      let (l', w', ended, gone, off, count, closed, refuses) =
        shutdown_drains os to_string date_of blank rounds fuel buf l w q log es d fits on has p lt
          lt' handled in
      let all_both = AllEntries-append old es all_old all in
      let (k, padded) =
        closed-IsPadded d (old ++ es)
          (subst (IsFiled disk limit fd to_string date_of d) (sym (file_of-append old es)) g1)
          all_both in
      let final : IsPadded (content fd w') (old ++ es) k =
        subst (λ v. IsPadded (content fd v) (old ++ es) k) (sym closed) padded in
      (
        l',
        w',
        k,
        ended,
        final,
        padded_readable (content fd w') (old ++ es) k filename f final all_both
            ∙ ap (λ n. (lines_of date_of ((old ++ es) ++ replicate k blank_entry) f, n, n))
                {x = length (old ++ es) + k} {y = length old + length es + k}
                (omega (arith, length-append old es)),
      )
