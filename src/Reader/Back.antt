-- ===== src/Reader/Back.antt =====
-- tools/log_reader.cpp: what it reads is what was written.
use mpmc_logger.Prelude.{
  ℕ, zero, suc, ◌+◌, ◌*◌, ◌<◌, ◌≡◌, ◌^◌, refl, sym, ap, ap₂, ◌∙◌, false, List, [], ◌∷◌, ◌++◌, arith,
  length, length-append, take-append_length, drop-append, append_assoc, if-true, if-false, lt→ltb,
  ge→ltb_false, take,
}
use mpmc_logger.Entry.{LogEntry, IsEntry, layout, of_layout, entry_size}
use mpmc_logger.Entry.Codec.{length-layout, of_layout-layout}
use mpmc_logger.Format.{CachedDateFormatter, format_text, max_formatted_size}
use mpmc_logger.Sink.{add64}
use mpmc_logger.Logger.Binary.{AllEntries}
use mpmc_logger.Reader.{read_loop, default_options, hidden}

-- The file of these records.
abbrev pub file_of : List LogEntry → List ℕ
file_of [] = []
file_of (e ∷ es) = layout e ++ file_of es

pub length-file_of :
    (es : List LogEntry) → AllEntries es → length (file_of es) ≡ length es * entry_size
length-file_of [] all = refl
length-file_of (e ∷ es) all =
    omega
      (arith, length-append (layout e) (file_of es), length-layout e all.0, length-file_of es all.1)

-- The lines of these entries.
abbrev pub lines_of : (ℕ → List ℕ) → List LogEntry → CachedDateFormatter → List ℕ
lines_of date_of [] f = []
lines_of date_of (e ∷ es) f =
    (format_text date_of e max_formatted_size f).0
    ++ lines_of date_of es (format_text date_of e max_formatted_size f).1

module _ (date_of : ℕ → List ℕ) (filename : List ℕ) where
  abbrev shown_from : ℕ → LogEntry → List ℕ → CachedDateFormatter → ℕ → ℕ → List ℕ × ℕ × ℕ
  shown_from n e rest f count total =
      let (line, f') = format_text date_of e max_formatted_size f in
      let r =
        read_loop date_of n (default_options filename) rest f' (add64 count 1) (add64 total 1) in
      (line ++ r.0, r.1, r.2)

  not_hidden : (e : LogEntry) → hidden (default_options filename) e ≡ false
  not_hidden e = ground arith

  read_one :
      (n : ℕ) (e : LogEntry) (rest : List ℕ) (f : CachedDateFormatter) (count total : ℕ)
      → IsEntry e
      → read_loop date_of (suc n) (default_options filename) (layout e ++ rest) f count total
        ≡ shown_from n e rest f count total
  unfolding read_loop
  read_one n e rest f count total v =
      let size = length-layout e v in
      if-false _ _ (
        ge→ltb_false (length (layout e ++ rest)) entry_size
          (omega (arith, length-append (layout e) rest, size)))
      ∙ if-false _ _ (not_hidden (of_layout (take entry_size (layout e ++ rest))))
      ∙ ap₂ (λ d r. shown_from n d r f count total)
          (ap of_layout (take-append_length entry_size (layout e) rest (sym size))
            ∙ of_layout-layout e v)
          (drop-append entry_size 0 (layout e) rest (omega (arith, size)))

  -- From a file of the records of entries within their widths, with less than a record after them,
  -- and the default options, the reader prints the lines of exactly these entries in order, and
  -- counts each of them as read and as displayed.
  pub read_back :
      (fuel : ℕ) (es : List LogEntry) (partial : List ℕ) (f : CachedDateFormatter) (count total : ℕ)
      → AllEntries es
      → length es < fuel
      → length partial < entry_size
      → count + length es < 2 ^ 64
      → total + length es < 2 ^ 64
      → read_loop date_of fuel (default_options filename) (file_of es ++ partial) f count total
        ≡ (lines_of date_of es f, count + length es, total + length es)
  unfolding read_loop
  read_back zero es partial f count total all lt short c t = absurd (omega arith)
  read_back (suc n) [] partial f count total all lt short c t =
      if-true _ _ (lt→ltb (length partial) entry_size short)
      ∙ ap (λ k. ([], k, total)) {y = count + 0} (omega arith)
      ∙ ap (λ k. ([], count + 0, k)) {y = total + 0} (omega arith)
  read_back (suc n) (e ∷ es) partial f count total all lt short c t =
      let line = (format_text date_of e max_formatted_size f).0 in
      let f' = (format_text date_of e max_formatted_size f).1 in
      ap (λ bytes. read_loop date_of (suc n) (default_options filename) bytes f count total)
        (append_assoc (layout e) (file_of es) partial)
      ∙ read_one n e (file_of es ++ partial) f count total all.0
      ∙ ap (λ r. (line ++ r.0, r.1, r.2))
          (read_back n es partial f' (add64 count 1) (add64 total 1) all.1 (omega arith) short
            (omega arith) (omega arith))
      ∙ ap₂ (λ k m. (line ++ lines_of date_of es f', k, m)) {y = count + suc (length es)}
          {u = add64 total 1 + length es} {v = total + suc (length es)} (omega arith) (omega arith)
