-- ===== src/Stats/Total.antt =====
-- tools/log_stats.cpp: the counters are those of the entries that were written.
use mpmc_logger.Prelude.{
  ℕ, zero, suc, ◌<◌, ◌≡◌, sym, ap, ap₂, ◌∙◌, List, [], ◌∷◌, ◌++◌, arith, length, length-append,
  take-append_length, drop-append, append_assoc, if-true, if-false, lt→ltb, ge→ltb_false,
}
use mpmc_logger.Entry.{LogEntry, layout, of_layout, entry_size}
use mpmc_logger.Entry.Codec.{length-layout, of_layout-layout}
use mpmc_logger.Logger.Binary.{AllEntries}
use mpmc_logger.Reader.Back.{file_of}
use mpmc_logger.Stats.{Stats, count_entry, stats_loop}

-- The entries counted one after the other.
abbrev pub count_all : List LogEntry → Stats → Stats
count_all [] s = s
count_all (e ∷ es) s = count_all es (count_entry e s)

pub stats_loop_lem :
    (fuel : ℕ) (es : List LogEntry) (partial : List ℕ) (s : Stats)
    → AllEntries es
    → length es < fuel
    → length partial < entry_size
    → stats_loop fuel (file_of es ++ partial) s ≡ count_all es s
unfolding stats_loop
stats_loop_lem zero es partial s all lt short = absurd (omega arith)
stats_loop_lem (suc n) [] partial s all lt short =
    if-true _ _ (lt→ltb (length partial) entry_size short)
stats_loop_lem (suc n) (e ∷ es) partial s all lt short =
    let size = length-layout e all.0 in
    let rest = file_of es ++ partial in
    ap (λ bytes. stats_loop (suc n) bytes s) (append_assoc (layout e) (file_of es) partial)
    ∙ if-false _ _ (
        ge→ltb_false (length (layout e ++ rest)) entry_size
          (omega (arith, length-append (layout e) rest, size)))
    ∙ ap₂ (λ r d. stats_loop n r (count_entry d s))
        (drop-append entry_size 0 (layout e) rest (omega (arith, size)))
        (ap of_layout (take-append_length entry_size (layout e) rest (sym size))
          ∙ of_layout-layout e all.0)
    ∙ stats_loop_lem n es partial (count_entry e s) all.1 (omega arith) short
