-- ===== src/Reader.antt =====
-- tools/log_reader.cpp: the options and the loop over the records of a binary log. `atoi` is a
-- parameter; the output is the bytes that are written to stdout.
pub mod Back
pub mod Padding
use mpmc_logger.Prelude.{
  ℕ, zero, suc, ◌+◌, ◌%◌, Bool, true, false, ◌&&◌, ◌||◌, not, Option, none, some, List, [], ◌∷◌,
  ◌++◌, if◌then◌else◌, ltb, leb, ◌==◌, length, take, drop, codes,
}
use mpmc_logger.Queue.{u32_mod}
use mpmc_logger.Entry.{
  LogEntry, of_layout, entry_size, lvl_trace, lvl_debug, lvl_info, lvl_warn, lvl_error, lvl_fatal,
}
use mpmc_logger.Format.{CachedDateFormatter, new_date_formatter, format_text, max_formatted_size}
use mpmc_logger.Sink.{add64}

pub record ReaderOptions : Type 0 where
  pub filename : List ℕ
  pub min_level : ℕ
  pub filter_tid : ℕ
  pub has_tid_filter : Bool
  pub limit : ℕ

-- `std::strcmp(a, b) == 0`
unfoldable pub same_text : (a b : List ℕ) → Bool
same_text [] [] = true
same_text [] (d ∷ b) = false
same_text (c ∷ a) [] = false
same_text (c ∷ a) (d ∷ b) = (c == d) && same_text a b

unfoldable pub parse_level : List ℕ → ℕ
parse_level s =
    if same_text s (codes "TRACE")
    then lvl_trace
    else if same_text s (codes "DEBUG")
    then lvl_debug
    else if same_text s (codes "INFO")
    then lvl_info
    else if same_text s (codes "WARN")
    then lvl_warn
    else if same_text s (codes "ERROR")
    then lvl_error
    else if same_text s (codes "FATAL")
    then lvl_fatal
    else lvl_trace

abbrev pub default_options : List ℕ → ReaderOptions
default_options filename = record {
  filename = filename;
  min_level = lvl_trace;
  filter_tid = 0;
  has_tid_filter = false;
  limit = 0;
}

module _ (atoi : List ℕ → ℕ) where
  abbrev pub parse_option : (key value : List ℕ) → ReaderOptions → ReaderOptions
  parse_option key value opts =
      if same_text key (codes "--level")
      then record opts { min_level = parse_level value }
      else if same_text key (codes "--thread")
      then record opts { filter_tid = atoi value % u32_mod; has_tid_filter = true }
      else if same_text key (codes "--limit")
      then record opts { limit = atoi value }
      else opts

  -- The arguments after the name of the file, two at a time.
  unfoldable pub parse_args : List (List ℕ) → ReaderOptions → ReaderOptions
  parse_args [] opts = opts
  parse_args (key ∷ []) opts = opts
  parse_args (key ∷ value ∷ rest) opts = parse_args rest (parse_option key value opts)

-- The two filters.
abbrev pub hidden : ReaderOptions → LogEntry → Bool
hidden opts e =
    ltb e.level opts.min_level || (opts.has_tid_filter && not (e.thread_id == opts.filter_tid))

-- The loop, on fuel, over the bytes that are left: the output, `count` and `total`. A record of less
-- than 128 bytes ends it.
unfoldable pub read_loop :
    (date_of : ℕ → List ℕ) (fuel : ℕ)
    → ReaderOptions
    → List ℕ
    → CachedDateFormatter
    → (count total : ℕ) → List ℕ × ℕ × ℕ
read_loop date_of zero opts bytes f count total = ([], count, total)
read_loop date_of (suc fuel) opts bytes f count total =
    let e = of_layout (take entry_size bytes) in
    let (line, f') = format_text date_of e max_formatted_size f in
    let skipped = read_loop date_of fuel opts (drop entry_size bytes) f count (add64 total 1) in
    let shown =
      read_loop date_of fuel opts (drop entry_size bytes) f' (add64 count 1) (add64 total 1) in
    if ltb (length bytes) entry_size
    then ([], count, total)
    else if hidden opts e
    then skipped
    else if ltb 0 opts.limit && leb opts.limit (add64 count 1)
    then (line, add64 count 1, add64 total 1)
    else (line ++ shown.0, shown.1, shown.2)

-- The loop over a whole file, with fuel for each of its bytes.
abbrev pub read_file : (ℕ → List ℕ) → ReaderOptions → CachedDateFormatter → List ℕ → List ℕ × ℕ × ℕ
read_file date_of opts f bytes = read_loop date_of (suc (length bytes)) opts bytes f 0 0

-- How a tool ends: its exit code, its standard output, and the two counts that it reports.
pub data Ran : Type 0 where
  failed : Ran
  finished : (out : List ℕ) (count total : ℕ) → Ran

-- `main`, where `contents` opens a file and reads it: `none` where it cannot be opened. `memory` is
-- that of the formatter. Arguments without a file name end the tool.
unfoldable pub read_log :
    (date_of : ℕ → List ℕ) (atoi : List ℕ → ℕ) (contents : List ℕ → Option (List ℕ))
    → (memory : List ℕ) → List (List ℕ)
    → Ran
read_log date_of atoi contents memory [] = failed
read_log date_of atoi contents memory (filename ∷ rest) =
    let opts = parse_args atoi rest (default_options filename) in
    elim (contents opts.filename) [
      | none ↦ failed
      | some bytes ↦
          let (out, count, total) = read_file date_of opts (new_date_formatter memory) bytes in
          finished out count total
    ]
