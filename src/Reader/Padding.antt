-- ===== src/Reader/Padding.antt =====
-- tools/log_reader.cpp and tools/log_stats.cpp over a file that ends in zero bytes, as src/mmap_sink.cpp
-- leaves it.
use mpmc_logger.Prelude.{
  ℕ, zero, suc, ◌+◌, ◌*◌, ◌^◌, ◌<◌, ◌≡◌, refl, sym, ap, ap₂, ◌∙◌, List, [], ◌∷◌, ◌++◌, arith,
  length, replicate, append_assoc, append-nil, length-append, take,
}
use mpmc_logger.Entry.{LogEntry, IsEntry, entry_size, layout, lvl_trace, to_bytes}
use mpmc_logger.Format.{CachedDateFormatter}
use mpmc_logger.Sink.Disk.{zeros}
use mpmc_logger.Logger.Binary.{AllEntries}
use mpmc_logger.Reader.{default_options, read_file}
use mpmc_logger.Reader.Back.{file_of, lines_of, length-file_of, read_back}

-- The entry that 128 zero bytes are read as.
abbrev pub blank_entry : LogEntry
blank_entry = record {
  timestamp_ns = 0;
  thread_id = 0;
  level = lvl_trace;
  category = 0;
  payload_len = 0;
  payload = replicate 112 0;
}

layout-blank_entry : layout blank_entry ≡ zeros entry_size
unfolding layout to_bytes
layout-blank_entry = refl

zeros-append : (m n : ℕ) → zeros m ++ zeros n ≡ zeros (m + n)
zeros-append zero n = ap zeros (omega arith)
zeros-append (suc m) n =
    ap (λ l. 0 ∷ l) (zeros-append m n) ∙ ap zeros {x = suc (m + n)} (omega arith)

-- Zero bytes are records of blank entries.
pub file_of-blank : (k : ℕ) → zeros (k * entry_size) ≡ file_of (replicate k blank_entry)
file_of-blank zero = refl
file_of-blank (suc k) =
    ap zeros {y = entry_size + k * entry_size} (omega arith)
    ∙ sym (zeros-append entry_size (k * entry_size))
    ∙ ap₂ (λ a b. a ++ b) (sym layout-blank_entry) (file_of-blank k)

pub file_of-append : (es fs : List LogEntry) → file_of (es ++ fs) ≡ file_of es ++ file_of fs
file_of-append [] fs = refl
file_of-append (e ∷ es) fs =
    ap (λ l. layout e ++ l) (file_of-append es fs)
    ∙ sym (append_assoc (layout e) (file_of es) (file_of fs))

pub AllEntries-append :
    (es fs : List LogEntry) → AllEntries es → AllEntries fs → AllEntries (es ++ fs)
AllEntries-append [] fs a b = b
AllEntries-append (e ∷ es) fs a b = (a.0, AllEntries-append es fs a.1 b)

pub AllEntries-take : (n : ℕ) (es : List LogEntry) → AllEntries es → AllEntries (take n es)
AllEntries-take zero es a = tt
AllEntries-take (suc n) [] a = tt
AllEntries-take (suc n) (e ∷ es) a = (a.0, AllEntries-take n es a.1)

blank_entry-IsEntry : IsEntry blank_entry
blank_entry-IsEntry = record {
  timestamp_fits = omega arith;
  thread_fits = omega arith;
  level_fits = omega arith;
  category_fits = omega arith;
  len_fits = omega arith;
  payload_full = refl;
}

pub AllEntries-blank : (k : ℕ) → AllEntries (replicate k blank_entry)
AllEntries-blank zero = tt
AllEntries-blank (suc k) = (blank_entry-IsEntry, AllEntries-blank k)

module _ (date_of : ℕ → List ℕ) (filename : List ℕ) (f : CachedDateFormatter) where
  -- A file of records is read to its end.
  pub read_whole :
      (es : List LogEntry)
      → AllEntries es
      → length es < 2 ^ 63
      → read_file date_of (default_options filename) f (file_of es)
        ≡ (lines_of date_of es f, length es, length es)
  read_whole es all lt =
      ap (λ bytes. read_file date_of (default_options filename) f bytes)
        (sym (append-nil (file_of es)))
      ∙ read_back date_of filename (suc (length (file_of es ++ []))) es [] f 0 0 all
          (omega (arith, length-append (file_of es) [], length-file_of es all)) (omega arith)
          (omega arith) (omega arith)
      ∙ ap₂ (λ a b. (lines_of date_of es f, a, b)) {x = 0 + length es} {y = length es}
          {u = 0 + length es} {v = length es} (omega arith) (omega arith)
