-- ===== src/Format.antt =====
-- src/formatter.cpp, include/mpmc_logger/formatter.hpp and the `CachedDateFormatter` of
-- include/mpmc_logger/timestamp.hpp. A formatter returns the bytes that it writes at the start of
-- its buffer; their number is what the source returns.
pub mod Digits
pub mod Date
pub mod Line
use mpmc_logger.Prelude.{
  ℕ, zero, suc, ◌+◌, ◌*◌, ◌/◌, ◌%◌, ◌≤◌, Bool, List, [], ◌∷◌, ◌++◌, if◌then◌else◌, ltb, leb, ◌==◌,
  take, length, codes, min,
}
use mpmc_logger.Entry.{LogEntry, level_to_string, layout, fast_copy_128, entry_size, payload_size}

-- `wall_ns / 1'000'000'000ULL` and the remainder.
abbrev pub ns_per_sec : ℕ
ns_per_sec = 1_000_000_000

-- The loop of `fast_u32_to_str`, from the last digit to the first. `val` rounds are enough.
unfoldable pub digit_loop : (fuel val : ℕ) → List ℕ → List ℕ
digit_loop zero val out = out
digit_loop (suc fuel) val out =
    let rest = digit_loop fuel (val / 10) ((b'0' + val % 10) ∷ out) in
    if val == 0 then out else rest

-- The digits that stand before `buf_end`.
unfoldable pub fast_u32_to_str : ℕ → List ℕ
unfolding digit_loop
fast_u32_to_str val = if val == 0 then b'0' ∷ [] else digit_loop val val []

-- `for (int i = 8; i >= 0; --i)`, with `rounds` of it left.
unfoldable pub suffix_loop : (rounds ns : ℕ) → List ℕ → List ℕ
suffix_loop zero ns out = out
suffix_loop (suc rounds) ns out = suffix_loop rounds (ns / 10) ((b'0' + ns % 10) ∷ out)

pub record CachedDateFormatter : Type 0 where
  pub cached_sec : ℕ
  pub date_prefix : List ℕ

-- A new formatter: the prefix is as the memory was.
unfoldable pub new_date_formatter : List ℕ → CachedDateFormatter
new_date_formatter memory = record { cached_sec = 0; date_prefix = memory }

-- `if (payload_len > 112) payload_len = 112;`
abbrev pub clamp_payload : ℕ → ℕ
clamp_payload len = if ltb payload_size len then payload_size else len

abbrev pub max_formatted_size : ℕ
max_formatted_size = 256

-- The text after the date, up to the newline.
unfoldable pub after_date : LogEntry → List ℕ
after_date e =
    codes "] ["
    ++ (take 5 (level_to_string e.level)
        ++ (codes "] [tid:"
            ++ (fast_u32_to_str e.thread_id
                ++ (codes "] " ++ (take (clamp_payload e.payload_len) e.payload ++ (0x0a ∷ []))))))

-- `localtime_r` and `strftime` are the parameter `date_of`: the 20 bytes that they leave in
-- `date_prefix` for a second.
module _ (date_of : ℕ → List ℕ) where
  abbrev pub refresh_date : ℕ → CachedDateFormatter → CachedDateFormatter
  refresh_date sec f =
      if sec == f.cached_sec then f else record { cached_sec = sec; date_prefix = date_of sec }

  unfoldable pub format_date : ℕ → CachedDateFormatter → List ℕ × CachedDateFormatter
  format_date wall_ns f =
      let f' = refresh_date (wall_ns / ns_per_sec) f in
      (take 19 f'.date_prefix ++ (b'.' ∷ suffix_loop 9 (wall_ns % ns_per_sec) []), f')

  -- `TextFormatter::format`
  unfoldable pub format_text :
      LogEntry → (buf_size : ℕ) → CachedDateFormatter → List ℕ × CachedDateFormatter
  format_text e buf_size f =
      if ltb buf_size max_formatted_size
      then ([], f)
      else let (date, f') = format_date e.timestamp_ns f in (b'[' ∷ (date ++ after_date e), f')

-- `BinaryFormatter::format`: the buffer after the call, and what it returns.
unfoldable pub format_binary : LogEntry → (buf : List ℕ) → (buf_size : ℕ) → List ℕ × ℕ
format_binary e buf buf_size =
    if ltb buf_size entry_size then (buf, 0) else (fast_copy_128 buf (layout e), entry_size)
