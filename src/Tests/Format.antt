-- ===== src/Tests/Format.antt =====
-- Tests of the entries, the formatters and the copies.
use mpmc_logger.Prelude.{
  ℕ, ◌+◌, ◌≤◌, ◌<◌, ◌≡◌, refl, inl, List, [], ◌∷◌, ◌++◌, arith, length, take, drop, replicate,
  codes, min,
}
use mpmc_logger.Entry.{
  LogEntry, IsEntry, layout, of_layout, entry_size, payload_size, fast_copy, memcpy,
  level_to_string, lvl_warn,
}
use mpmc_logger.Entry.Copy.{fast_copy-eq-memcpy}
use mpmc_logger.Entry.Codec.{slice, field, layout_lem}
use mpmc_logger.Format.{
  CachedDateFormatter, new_date_formatter, format_date, format_text, format_binary, fast_u32_to_str,
  digit_loop, suffix_loop, after_date,
}
use mpmc_logger.Format.Digits.{
  read_digits, AllDigits, read-fast_u32_to_str, fast_u32_to_str-AllDigits,
}
use mpmc_logger.Format.Date.{
  IsCoherent, stamp, format_date-eq-stamp, format_date_uninitialised, length-format_date,
}
use mpmc_logger.Format.Line.{length-format_text, format_binary_lem}

-- One date for every second, and the byte 0 after it.
abbrev pub one_date : ℕ → List ℕ
one_date sec = codes "2026-08-24 22:15:03" ++ (0 ∷ [])

abbrev pub warning : LogEntry
warning = record {
  timestamp_ns = 1_700_000_000_000_000_042;
  thread_id = 4711;
  level = lvl_warn;
  category = 0;
  payload_len = 5;
  payload = codes "hello" ++ replicate 107 0;
}

pub warning-IsEntry : IsEntry warning
warning-IsEntry = record {
  timestamp_fits = omega arith;
  thread_fits = omega arith;
  level_fits = omega arith;
  category_fits = omega arith;
  len_fits = omega arith;
  payload_full = refl;
}

abbrev pub blank_formatter : CachedDateFormatter
blank_formatter = record { cached_sec = 0; date_prefix = replicate 20 0 }

warning-line :
    (format_text one_date warning 256 blank_formatter).0
    ≡ codes "[2026-08-24 22:15:03.000000042] [WARN ] [tid:4711] hello\n"
unfolding format_text format_date after_date fast_u32_to_str digit_loop suffix_loop level_to_string
warning-line = refl

layout_lem_example :
    (length (layout warning) ≡ 128)
    × (field 0 8 (layout warning) ≡ warning.timestamp_ns)
    × (field 8 12 (layout warning) ≡ warning.thread_id)
    × (field 12 13 (layout warning) ≡ warning.level)
    × (field 13 14 (layout warning) ≡ warning.category)
    × (field 14 16 (layout warning) ≡ warning.payload_len)
    × (slice 16 128 (layout warning) ≡ warning.payload)
    × (of_layout (layout warning) ≡ warning)
layout_lem_example = layout_lem warning warning-IsEntry

fast_copy-eq-memcpy_example :
    fast_copy 96 (replicate 100 1) (replicate 96 2) ≡ memcpy (replicate 100 1) (replicate 96 2) 96
fast_copy-eq-memcpy_example =
    fast_copy-eq-memcpy 96 (replicate 100 1) (replicate 96 2) (omega arith)

read-fast_u32_to_str_example : read_digits 0 (fast_u32_to_str 4711) ≡ 4711
read-fast_u32_to_str_example = read-fast_u32_to_str 4711

fast_u32_to_str-AllDigits_example :
    AllDigits (fast_u32_to_str 4711) × (0 < length (fast_u32_to_str 4711))
fast_u32_to_str-AllDigits_example = fast_u32_to_str-AllDigits 4711

format_date-eq-stamp_example :
    ((format_date one_date 1_700_000_000_000_000_042 blank_formatter).0
      ≡ stamp one_date 1_700_000_000_000_000_042)
    × IsCoherent one_date (format_date one_date 1_700_000_000_000_000_042 blank_formatter).1
format_date-eq-stamp_example =
    format_date-eq-stamp one_date 1_700_000_000_000_000_042 blank_formatter (omega arith) (inl refl)

format_date_uninitialised_example :
    (format_date one_date 7 (new_date_formatter (replicate 20 255))).0
    ≡ take 19 (replicate 20 255) ++ (b'.' ∷ suffix_loop 9 7 [])
format_date_uninitialised_example =
    format_date_uninitialised one_date 7 (replicate 20 255) (omega arith)

length-format_date_example :
    (length (format_date one_date 7 blank_formatter).0 ≡ 29)
    × (length (format_date one_date 7 blank_formatter).1.date_prefix ≡ 20)
length-format_date_example = length-format_date one_date 7 blank_formatter (λ sec. refl) refl

length-format_text_example :
    (length (format_text one_date warning 256 blank_formatter).0
      ≡ 48 + length (fast_u32_to_str 4711) + min 5 payload_size)
    × (length (format_text one_date warning 256 blank_formatter).0 ≤ 170)
    × (length (format_text one_date warning 256 blank_formatter).1.date_prefix ≡ 20)
length-format_text_example =
    length-format_text one_date warning 256 blank_formatter warning-IsEntry (λ sec. refl) refl
      (omega arith)

format_binary_lem_example :
    ((format_binary warning (replicate 256 0) 256).1 ≡ entry_size)
    × (of_layout (take entry_size (format_binary warning (replicate 256 0) 256).0) ≡ warning)
    × (drop entry_size (format_binary warning (replicate 256 0) 256).0
        ≡ drop entry_size (replicate 256 0))
format_binary_lem_example =
    format_binary_lem warning (replicate 256 0) warning-IsEntry (omega arith)
