-- ===== src/Clock/Elapsed.antt =====
-- src/timestamp.cpp: the calibration depends on what has elapsed only, also where a counter has
-- wrapped around.
use mpmc_logger.Prelude.{
  ℕ, ◌+◌, ◌%◌, ◌^◌, ◌<◌, ◌≡◌, refl, ap, ap₂, ◌∙◌, List, [], ◌∷◌, arith, map, ◌&&◌, if◌then◌else◌,
  ltb,
}
use mpmc_logger.Queue.{u64_mod}
use mpmc_logger.Real.{Double}
use mpmc_logger.Clock.{Sample, sub64, add_sample, add_samples, calibrate_tsc, TscCalibration}

-- A round of readings that begin at `start_ns` and `start_tsc`, with what has elapsed.
pub record Elapsed : Type 0 where
  pub start_ns : ℕ
  pub start_tsc : ℕ
  pub ticks : ℕ
  pub ns : ℕ

abbrev pub sample_of : Elapsed → Sample
sample_of e = record {
  start_ns = e.start_ns;
  start_tsc = e.start_tsc;
  end_tsc = (e.start_tsc + e.ticks) % u64_mod;
  end_ns = (e.start_ns + e.ns) % u64_mod;
}

abbrev pub AllElapsed : List Elapsed → Type 0
AllElapsed [] = Unit {0}
AllElapsed (e ∷ es) =
    ((e.start_ns < 2 ^ 64) × (e.start_tsc < 2 ^ 64) × (e.ticks < 2 ^ 64) × (e.ns < 2 ^ 64))
    × AllElapsed es

sub64-add : (a d : ℕ) → a < 2 ^ 64 → d < 2 ^ 64 → sub64 ((a + d) % u64_mod) a ≡ d
sub64-add a d h k = omega arith

module _ (double : Double) where
  open double use {Real, of_nat, plus, over, less}

  -- The rates of the rounds in which time has passed, added up.
  unfoldable pub rates : List Elapsed → Real → Real
  rates [] total = total
  rates (e ∷ es) total =
      rates es (if ltb 0 e.ns then plus total (over (of_nat e.ticks) (of_nat e.ns)) else total)

  add_samples-rates :
      (es : List Elapsed) (total : Real)
      → AllElapsed es
      → add_samples double (map sample_of es) total ≡ rates es total
  unfolding add_samples add_sample rates
  add_samples-rates [] total all = refl
  add_samples-rates (e ∷ es) total all =
      ap₂
        (λ t n.
          add_samples double (map sample_of es)
            (if ltb 0 n then plus total (over (of_nat t) (of_nat n)) else total))
        (sub64-add e.start_tsc e.ticks all.0.1 all.0.2) (sub64-add e.start_ns e.ns all.0.0 all.0.3)
      ∙ add_samples-rates es _ all.1

  -- The average of the rounds, and whether it is a plausible one.
  abbrev pub average : ℕ → List Elapsed → TscCalibration double
  average num_samples es =
      let ticks = over (rates es (of_nat 0)) (of_nat num_samples) in
      record {
        ticks_per_ns = ticks;
        available = less (over (of_nat 1) (of_nat 10)) ticks && less ticks (of_nat 100);
      }

  -- The calibration is the average rate over the rounds in which time has passed, of the ticks and
  -- nanoseconds that have elapsed, whether or not a counter has wrapped around meanwhile.
  pub calibrate_tsc-eq-average :
      (num_samples : ℕ) (es : List Elapsed)
      → AllElapsed es
      → calibrate_tsc double num_samples (map sample_of es) ≡ average num_samples es
  unfolding calibrate_tsc
  calibrate_tsc-eq-average num_samples es all =
      ap
        (λ r. record {
          ticks_per_ns = over r (of_nat num_samples);
          available =
              less (over (of_nat 1) (of_nat 10)) (over r (of_nat num_samples))
              && less (over r (of_nat num_samples)) (of_nat 100);
        })
        (add_samples-rates es (of_nat 0) all)
