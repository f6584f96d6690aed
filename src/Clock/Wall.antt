-- ===== src/Clock/Wall.antt =====
-- timestamp.hpp: the clock against the date formatter, which takes its readings apart again.
use mpmc_logger.Prelude.{◌/◌, ◌%◌, ◌^◌, ◌<◌, ◌≡◌, arith}
use mpmc_logger.Format.{ns_per_sec}
use mpmc_logger.Clock.{Timespec, clock_ns}

-- A reading with less than 10^9 nanoseconds and less than 2^34 seconds fits in 64 bits, and the
-- split of the date formatter gives its seconds and its nanoseconds back.
pub clock_ns_split :
    (ts : Timespec)
    → ts.tv_nsec < ns_per_sec
    → ts.tv_sec < 2 ^ 34
    → (clock_ns ts < 2 ^ 64)
      × (clock_ns ts / ns_per_sec ≡ ts.tv_sec)
      × (clock_ns ts % ns_per_sec ≡ ts.tv_nsec)
unfolding clock_ns
clock_ns_split ts h k = omega arith
