-- ===== src/Stats/Levels.antt =====
-- tools/log_stats.cpp: the levels of the report against the entries.
use mpmc_logger.Prelude.{
  sum_from, sum_from-update, le_sum_from, ℕ, zero, suc, ◌+◌, ◌<◌, ◌≡◌, ◌^◌, refl, ap, ◌∙◌, List, [],
  ◌∷◌, arith, length, update, dec_lt, if-true, if-false, lt→ltb, le→leb, ge→ltb_false,
}
use mpmc_logger.Entry.{LogEntry}
use mpmc_logger.Sink.{add64}
use mpmc_logger.Real.{Double}
use mpmc_logger.Stats.{Stats, no_stats, count_entry}
use mpmc_logger.Stats.Total.{count_all}
use mpmc_logger.Stats.Report.{ReportLine, level_line, level_lines}

-- Levels below OFF.
abbrev pub AllLevels : List LogEntry → Type 0
AllLevels [] = Unit {0}
AllLevels (e ∷ es) = (e.level < 6) × AllLevels es

count_all_levels :
    (es : List LogEntry) (s : Stats)
    → AllLevels es
    → sum_from 6 0 s.level_counts + length es < 2 ^ 64
    → sum_from 6 0 (count_all es s).level_counts ≡ sum_from 6 0 s.level_counts + length es
unfolding count_entry
count_all_levels [] s all lt = omega arith
count_all_levels (e ∷ es) s all lt =
    let one =
      sum_from-update 6 0 e.level (add64 (s.level_counts e.level) 1) s.level_counts (omega arith)
        (omega (arith, all.0)) in
    let small = le_sum_from 6 0 e.level s.level_counts (omega arith) (omega (arith, all.0)) in
    let grown : sum_from 6 0 (count_entry e s).level_counts ≡ sum_from 6 0 s.level_counts + 1 =
      ap (sum_from 6 0) {y = update s.level_counts e.level (add64 (s.level_counts e.level) 1)}
        (if-true _ _ (le→leb e.level 6 (omega (arith, all.0))))
      ∙ omega (arith, one, small) in
    omega (arith, count_all_levels es (count_entry e s) all.1 (omega (arith, grown)), grown)

module _ (double : Double) where
  -- The count that a line prints for a level.
  abbrev pub level_count : ReportLine double → ℕ
  level_count (level_line level count pct) = count
  level_count _ = 0

  abbrev pub sum_counts : List (ReportLine double) → ℕ
  sum_counts [] = 0
  sum_counts (l ∷ ls) = level_count l + sum_counts ls

  sum_counts-level_lines :
      (rounds i : ℕ) (s : Stats)
      → sum_counts (level_lines double rounds i s) ≡ sum_from rounds i s.level_counts
  unfolding level_lines sum_from
  sum_counts-level_lines zero i s = refl
  sum_counts-level_lines (suc rounds) i s = elim (dec_lt 0 (s.level_counts i)) [
    | yes lt ↦
        ap sum_counts (if-true _ _ (lt→ltb _ _ lt))
        ∙ ap (λ n. s.level_counts i + n) (sum_counts-level_lines rounds (i + 1) s)
    | no ge ↦
        ap sum_counts (if-false _ _ (ge→ltb_false 0 (s.level_counts i) (omega arith)))
        ∙ sum_counts-level_lines rounds (i + 1) s
        ∙ omega arith
  ]

  none_yet : sum_from 6 0 no_stats.level_counts ≡ 0
  unfolding sum_from
  none_yet = refl

  -- The counts that the report prints for the levels add up to the number of entries, where every
  -- entry has a level below OFF.
  pub level_lines-sum :
      (es : List LogEntry)
      → AllLevels es
      → length es < 2 ^ 64
      → sum_counts (level_lines double 6 0 (count_all es no_stats)) ≡ length es
  level_lines-sum es all lt =
      sum_counts-level_lines 6 0 (count_all es no_stats)
      ∙ count_all_levels es no_stats all (omega (arith, none_yet))
      ∙ omega (arith, none_yet)
