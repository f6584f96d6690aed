-- ===== src/Tests/Tools.antt =====
-- Tests of the clock, the statistics and the benchmarks.
use mpmc_logger.Prelude.{
  ℕ, zero, suc, ◌+◌, ◌*◌, ◌/◌, ◌^◌, ◌≤◌, ◌≡◌, refl, some, List, [], ◌∷◌, ◌++◌, arith, get_elem?,
  replicate, ltb, ◌-◌,
}
use mpmc_logger.Real.{Double}
use mpmc_logger.Clock.Elapsed.{Elapsed, rates, average}
use mpmc_logger.Stats.{no_stats, stats_loop}
use mpmc_logger.Stats.Padded.{IsSkewed, stats_loop-IsSkewed}
use mpmc_logger.Reader.Back.{file_of}
use mpmc_logger.Reader.Padding.{blank_entry}
use mpmc_logger.Bench.{Figures, figures, report, sum64}
use mpmc_logger.Bench.Ordered.{IsSorted, From, report_ordered}
use mpmc_logger.Tests.Logger.{blank, blank-IsEntry}

-- Whole numbers in the place of `double`.
abbrev whole : Double
whole = record {
  Real = ℕ;
  of_nat = λ n. n;
  plus = λ a b. a + b;
  times = λ a b. a * b;
  over = λ a b. a / b;
  less = ltb;
  to_nat = λ n. n;
}

-- Ten milliseconds at three ticks a nanosecond, with a counter that wraps around.
abbrev ten_ms : Elapsed
ten_ms = record { start_ns = 5; start_tsc = 2 ^ 64 - 7; ticks = 30000000; ns = 10000000 }

calibrated : (average whole 1 (ten_ms ∷ [])).ticks_per_ns ≡ 3
unfolding rates
calibrated = refl

stats_loop-IsSkewed_example :
    IsSkewed
      (blank ∷ [])
      2
      (stats_loop 4 (file_of ((blank ∷ []) ++ replicate 2 blank_entry)) no_stats)
stats_loop-IsSkewed_example =
    stats_loop-IsSkewed 4 (blank ∷ []) 1 (blank-IsEntry, tt) (omega arith) (omega arith)

abbrev three_samples : List ℕ
three_samples = 20 ∷ 30 ∷ 50 ∷ []

-- A list in order is sorted.
From-get : (low : ℕ) (xs : List ℕ) (j b : ℕ) → From low xs → get_elem? xs j ≡ some b → low ≤ b
From-get low [] j b f e = cc
From-get low (x ∷ xs) zero b f e = ground arith
From-get low (x ∷ xs) (suc j) b f e = omega (arith, From-get x xs j b f.1 e)

From-IsSorted : (low : ℕ) (xs : List ℕ) → From low xs → IsSorted xs
From-IsSorted low [] f i j a b at_i at_j le = cc
From-IsSorted low (x ∷ xs) f zero zero a b at_i at_j le = ground arith
From-IsSorted low (x ∷ xs) f zero (suc j) a b at_i at_j le =
    ground (arith, From-get x xs j b f.1 at_j)
From-IsSorted low (x ∷ xs) f (suc i) zero a b at_i at_j le = absurd (omega arith)
From-IsSorted low (x ∷ xs) f (suc i) (suc j) a b at_i at_j le =
    From-IsSorted x xs f.1 i j a b at_i at_j (omega arith)

three_samples-IsSorted : IsSorted three_samples
three_samples-IsSorted = From-IsSorted 0 three_samples (omega arith)

report_ordered_example :
    (h : Figures) × (report (λ xs. xs) three_samples ≡ figures h)
    × From h.minimum h.percentiles
    × (h.average ≡ sum64 three_samples 0 / 3)
report_ordered_example =
    report_ordered (λ xs. xs) three_samples three_samples-IsSorted refl (omega arith) (omega arith)
