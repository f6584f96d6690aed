-- ===== src/Clock.antt =====
-- include/mpmc_logger/timestamp.hpp and src/timestamp.cpp: the clocks and the calibration of the
-- time-stamp counter. What the clocks answer is an argument; `double` is the record `Double`.
pub mod Wall
pub mod Elapsed
use mpmc_logger.Prelude.{
  ℕ, ◌+◌, ◌-◌, ◌*◌, ◌%◌, Bool, true, false, ◌&&◌, List, [], ◌∷◌, if◌then◌else◌, ltb,
}
use mpmc_logger.Queue.{u64_mod}
use mpmc_logger.Format.{ns_per_sec}
use mpmc_logger.Real.{Double}

-- `struct timespec`
pub record Timespec : Type 0 where
  pub tv_sec : ℕ
  pub tv_nsec : ℕ

-- `now_ns` and `wall_clock_ns`, with what `clock_gettime` stores.
unfoldable pub clock_ns : Timespec → ℕ
clock_ns ts = ((ts.tv_sec * ns_per_sec) % u64_mod + ts.tv_nsec) % u64_mod

-- `uint64_t` subtraction
abbrev pub sub64 : ℕ → ℕ → ℕ
sub64 a b = (a + (u64_mod - b)) % u64_mod

-- The four readings of a round.
pub record Sample : Type 0 where
  pub start_ns : ℕ
  pub start_tsc : ℕ
  pub end_tsc : ℕ
  pub end_ns : ℕ

module _ (double : Double) where
  open double use {Real, of_nat, plus, over, less, to_nat}

  pub record TscCalibration : Type 0 where
    pub ticks_per_ns : Real
    pub available : Bool

  -- `total_ticks_per_ns` after a round.
  unfoldable pub add_sample : Sample → Real → Real
  add_sample s total =
      let delta_tsc = sub64 s.end_tsc s.start_tsc in
      let delta_ns = sub64 s.end_ns s.start_ns in
      if ltb 0 delta_ns then plus total (over (of_nat delta_tsc) (of_nat delta_ns)) else total

  unfoldable pub add_samples : List Sample → Real → Real
  add_samples [] total = total
  add_samples (s ∷ ss) total = add_samples ss (add_sample s total)

  -- `calibrate_tsc` on x86-64, with its rounds; NUM_SAMPLES is their number.
  unfoldable pub calibrate_tsc : (num_samples : ℕ) → List Sample → TscCalibration
  calibrate_tsc num_samples samples =
      let ticks = over (add_samples samples (of_nat 0)) (of_nat num_samples) in
      record {
        ticks_per_ns = ticks;
        available = less (over (of_nat 1) (of_nat 10)) ticks && less ticks (of_nat 100);
      }

  unfoldable pub tsc_to_ns : ℕ → TscCalibration → ℕ
  tsc_to_ns ticks cal = to_nat (over (of_nat ticks) cal.ticks_per_ns)
