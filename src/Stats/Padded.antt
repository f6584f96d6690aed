-- ===== src/Stats/Padded.antt =====
-- tools/log_stats.cpp over the file that src/mmap_sink.cpp leaves, which ends in zero bytes.
use mpmc_logger.Prelude.{
  ℕ, zero, suc, ◌+◌, ◌^◌, ◌<◌, ◌≡◌, refl, sym, ap, ◌∙◌, List, [], ◌∷◌, ◌++◌, arith, length,
  replicate, subst, append-nil, length-append, length-replicate,
}
use mpmc_logger.Entry.{LogEntry}
use mpmc_logger.Logger.Binary.{AllEntries}
use mpmc_logger.Reader.Back.{file_of}
use mpmc_logger.Reader.Padding.{blank_entry, AllEntries-append, AllEntries-blank}
use mpmc_logger.Stats.{Stats, no_stats, count_entry, stats_loop}
use mpmc_logger.Stats.Total.{count_all, stats_loop_lem}

count_all-append :
    (es fs : List LogEntry) (s : Stats) → count_all (es ++ fs) s ≡ count_all fs (count_all es s)
count_all-append [] fs s = refl
count_all-append (e ∷ es) fs s = count_all-append es fs (count_entry e s)

total-count_all :
    (es : List LogEntry) (s : Stats)
    → s.total + length es < 2 ^ 64
    → (count_all es s).total ≡ s.total + length es
unfolding count_entry
total-count_all [] s lt = omega arith
total-count_all (e ∷ es) s lt = omega (arith, total-count_all es (count_entry e s) (omega arith))

-- What blank entries leave of the times and the lengths.
blanks_leave :
    (k : ℕ) (s : Stats)
    → s.min_ts ≡ 0
    → s.min_payload ≡ 0
    → ((count_all (replicate k blank_entry) s).min_ts ≡ 0)
      × ((count_all (replicate k blank_entry) s).min_payload ≡ 0)
      × ((count_all (replicate k blank_entry) s).max_ts ≡ s.max_ts)
unfolding count_entry
blanks_leave zero s at here = (at, here, refl)
blanks_leave (suc k) s at here =
    let (a, b, c) = blanks_leave k (count_entry blank_entry s) (ground arith) (ground arith) in
    (a, b, c ∙ ground arith)

-- The counters of `es` and `k` blank entries more.
pub record IsSkewed (es : List LogEntry) (k : ℕ) (s : Stats) : Type 0 where
  pub total_eq : s.total ≡ length es + k
  pub min_ts_eq : s.min_ts ≡ 0
  pub min_payload_eq : s.min_payload ≡ 0
  pub max_ts_eq : s.max_ts ≡ (count_all es no_stats).max_ts

counted-IsSkewed :
    (es : List LogEntry) (k : ℕ)
    → length es + suc k < 2 ^ 64
    → IsSkewed es (suc k) (count_all (es ++ replicate (suc k) blank_entry) no_stats)
unfolding count_entry
counted-IsSkewed es k small =
    let s = count_entry blank_entry (count_all es no_stats) in
    let (at, here, same) = blanks_leave k s (ground arith) (ground arith) in
    let both = count_all-append es (replicate (suc k) blank_entry) no_stats in
    let total = total-count_all (es ++ replicate (suc k) blank_entry) no_stats (
      omega (
        arith,
        length-append es (replicate (suc k) blank_entry),
        length-replicate k blank_entry,
      )) in
    record {
      total_eq =
          total
          ∙ omega (
            arith,
            length-append es (replicate (suc k) blank_entry),
            length-replicate k blank_entry,
          );
      min_ts_eq = ap (λ (r : Stats). r.min_ts) both ∙ at;
      min_payload_eq = ap (λ (r : Stats). r.min_payload) both ∙ here;
      max_ts_eq = ap (λ (r : Stats). r.max_ts) both ∙ same ∙ ground arith;
    }

-- Over a file that ends in at least one blank record, the statistics count the blank records as
-- entries, take 0 for the first time and for the shortest payload, and leave the last time as it is.
pub stats_loop-IsSkewed :
    (fuel : ℕ) (es : List LogEntry) (k : ℕ)
    → AllEntries es
    → length es + suc k < fuel
    → length es + suc k < 2 ^ 64
    → IsSkewed es (suc k) (stats_loop fuel (file_of (es ++ replicate (suc k) blank_entry)) no_stats)
stats_loop-IsSkewed fuel es k all lt small =
    let whole = es ++ replicate (suc k) blank_entry in
    subst (IsSkewed es (suc k))
      (sym (
        ap (λ bytes. stats_loop fuel bytes no_stats) (sym (append-nil (file_of whole)))
        ∙ stats_loop_lem fuel whole [] no_stats
            (AllEntries-append es (replicate (suc k) blank_entry) all (AllEntries-blank (suc k)))
            (omega (
              arith,
              length-append es (replicate (suc k) blank_entry),
              length-replicate k blank_entry,
            ))
            (omega arith)))
      (counted-IsSkewed es k small)
