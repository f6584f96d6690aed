-- ===== src/Format/Line.antt =====
-- src/formatter.cpp and formatter.hpp: whole lines and records.
use mpmc_logger.Prelude.{
  ℕ, zero, suc, ◌+◌, ◌≤◌, ◌≡◌, refl, sym, ap, ◌∙◌, List, [], ◌∷◌, ◌++◌, arith, length,
  length-append, length-take, take, drop, drop-append, false, codes, min, ltb, take_all,
  take-append_length, if-false,
}
use mpmc_logger.Entry.{
  fast_copy_128, LogEntry, IsEntry, level_to_string, layout, of_layout, entry_size, payload_size,
}
use mpmc_logger.Entry.Codec.{length-layout, of_layout-layout}
use mpmc_logger.Entry.Copy.{fast_copy_128-eq-memcpy}
use mpmc_logger.Format.{
  CachedDateFormatter, format_date, format_text, format_binary, fast_u32_to_str, clamp_payload,
  after_date, max_formatted_size,
}
use mpmc_logger.Format.Date.{length-format_date}
use mpmc_logger.Format.Digits.{length-fast_u32_to_str}

-- Every level, one outside the enumeration included, is printed in five characters: the `memcpy` of
-- five bytes is within the string, and drops none of it.
pub length-level_to_string : (level : ℕ) → length (level_to_string level) ≡ 5
unfolding level_to_string
length-level_to_string zero = refl
length-level_to_string (suc zero) = refl
length-level_to_string (suc (suc zero)) = refl
length-level_to_string (suc (suc (suc zero))) = refl
length-level_to_string (suc (suc (suc (suc zero)))) = refl
length-level_to_string (suc (suc (suc (suc (suc zero))))) = refl
length-level_to_string (suc (suc (suc (suc (suc (suc zero)))))) = refl
length-level_to_string (suc (suc (suc (suc (suc (suc (suc level))))))) = ground arith

length-clamp :
    (e : LogEntry)
    → IsEntry e
    → length (take (clamp_payload e.payload_len) e.payload) ≡ min e.payload_len payload_size
length-clamp e v =
    ground (arith, length-take (clamp_payload e.payload_len) e.payload, v.payload_full)

length-after_date :
    (e : LogEntry)
    → IsEntry e
    → length (after_date e)
      ≡ 18 + length (fast_u32_to_str e.thread_id) + min e.payload_len payload_size
unfolding after_date
length-after_date e v = omega (
  arith,
  length-append (take 5 (level_to_string e.level)) (
      codes "] [tid:"
      ++ (fast_u32_to_str e.thread_id
          ++ (codes "] " ++ (take (clamp_payload e.payload_len) e.payload ++ (0x0a ∷ []))))),
  length-append (fast_u32_to_str e.thread_id)
      (codes "] " ++ (take (clamp_payload e.payload_len) e.payload ++ (0x0a ∷ []))),
  length-append (take (clamp_payload e.payload_len) e.payload) (0x0a ∷ []),
  length-take 5 (level_to_string e.level),
  length-level_to_string e.level,
  length-clamp e v,
)

-- Into a buffer of at least 128 bytes `BinaryFormatter` writes 128 bytes that read back as the
-- entry, says so, and leaves the rest of the buffer.
pub format_binary_lem :
    (e : LogEntry) (buf : List ℕ)
    → IsEntry e
    → entry_size ≤ length buf
    → ((format_binary e buf (length buf)).1 ≡ entry_size)
      × (of_layout (take entry_size (format_binary e buf (length buf)).0) ≡ e)
      × (drop entry_size (format_binary e buf (length buf)).0 ≡ drop entry_size buf)
unfolding format_binary
format_binary_lem e buf v h =
    let wide = length-layout e v in
    let no_less : ltb (length buf) entry_size ≡ false = ground arith in
    let copied : fast_copy_128 buf (layout e) ≡ layout e ++ drop entry_size buf =
      fast_copy_128-eq-memcpy buf (layout e) (omega arith)
      ∙ ap (λ bs. bs ++ drop (0 + length bs) buf) (take_all entry_size (layout e) (omega arith))
      ∙ ap (λ n. layout e ++ drop n buf) {y = entry_size} (omega (arith, wide)) in
    let done : format_binary e buf (length buf) ≡ (layout e ++ drop entry_size buf, entry_size) =
      if-false _ _ no_less ∙ ap (λ bs. (bs, entry_size)) copied in
    (
      ap (λ r. r.1) done,
      ap (λ r. of_layout (take entry_size r.0)) done
          ∙ ap of_layout (take-append_length entry_size (layout e) _ (sym wide))
          ∙ of_layout-layout e v,
      ap (λ r. drop entry_size r.0) done
          ∙ drop-append entry_size 0 (layout e) (drop entry_size buf) (omega arith),
    )

module _ (date_of : ℕ → List ℕ) where
  -- For an entry within its widths, a date of 20 bytes and a buffer of at least 256, the line of
  -- `TextFormatter` has exactly 48 bytes, the digits of the thread and the clamped payload, at most
  -- 170, and the cached date keeps its size.
  pub length-format_text :
      (e : LogEntry) (buf_size : ℕ) (f : CachedDateFormatter)
      → IsEntry e
      → ((sec : ℕ) → length (date_of sec) ≡ 20)
      → length f.date_prefix ≡ 20
      → max_formatted_size ≤ buf_size
      → (length (format_text date_of e buf_size f).0
          ≡ 48 + length (fast_u32_to_str e.thread_id) + min e.payload_len payload_size)
        × (length (format_text date_of e buf_size f).0 ≤ 170)
        × (length (format_text date_of e buf_size f).1.date_prefix ≡ 20)
  unfolding format_text
  length-format_text e buf_size f v full room h =
      let accepted : ltb buf_size max_formatted_size ≡ false = ground arith in
      let date = length-format_date date_of e.timestamp_ns f full room in
      let line : format_text date_of e buf_size f ≡ (
        b'[' ∷ ((format_date date_of e.timestamp_ns f).0 ++ after_date e),
        (format_date date_of e.timestamp_ns f).1,
      ) =
        if-false _ _ accepted in
      let size : length (format_text date_of e buf_size f).0
          ≡ 48 + length (fast_u32_to_str e.thread_id) + min e.payload_len payload_size =
        ap (λ r. length r.0) line
        ∙ omega (
          arith,
          date.0,
          length-append (format_date date_of e.timestamp_ns f).0 (after_date e),
          length-after_date e v,
        ) in
      (
        size,
        omega (arith, size, length-fast_u32_to_str e.thread_id v.thread_fits),
        ap (λ r. length r.1.date_prefix) line ∙ date.1,
      )
