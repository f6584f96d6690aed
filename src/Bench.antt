-- ===== src/Bench.antt =====
-- bench/bench_queue_latency.cpp, bench/bench_rdtsc.cpp, bench/bench_logger_e2e.cpp and
-- bench/bench_queue_throughput.cpp: the figures that are printed, and the loops that use the queue
-- from one thread. `std::sort` is a parameter; a read out of range is `none`.
pub mod Contention
pub mod Ordered
pub mod Refill
use mpmc_logger.Prelude.{
  ℕ, zero, suc, ◌+◌, ◌-◌, ◌*◌, ◌/◌, ◌%◌, Bool, true, false, Option, none, some, List, [], ◌∷◌, ◌++◌,
  if◌then◌else◌, ltb, ◌==◌, length, get_elem?, map, codes, drop, ◌>>=◌,
}
use mathlib.Core.Option
use mpmc_logger.Queue
use mpmc_logger.Queue.{MpmcQueue, u64_mod, recompute_and_store_min_tail}
use mpmc_logger.Entry.{LogEntry, lvl_info, new_entry, memcpy}
use mpmc_logger.Clock.{sub64}
use mpmc_logger.Real.{Double}

-- The elements at these places.
unfoldable pub read_all : List ℕ → List ℕ → Option (List ℕ)
read_all xs [] = some []
read_all xs (i ∷ is) = get_elem? xs i >>= (λ x. Option.map (λ rest. x ∷ rest) (read_all xs is))

-- `n * num / den` on `size_t`
abbrev pub scaled : (n num den : ℕ) → ℕ
scaled n num den = ((n * num) % u64_mod) / den

-- The places of p50, p90, p99, p99.9, p99.99 and the maximum.
unfoldable pub latency_places : ℕ → List ℕ
latency_places n =
    scaled n 50 100
    ∷ scaled n 90 100
    ∷ scaled n 99 100
    ∷ scaled n 999 1000
    ∷ scaled n 9999 10000
    ∷ (n - 1)
    ∷ []

-- The sum of the samples on `uint64_t`.
unfoldable pub sum64 : List ℕ → ℕ → ℕ
sum64 [] sum = sum
sum64 (s ∷ ss) sum = sum64 ss ((sum + s) % u64_mod)

pub record Figures : Type 0 where
  pub percentiles : List ℕ
  pub minimum : ℕ
  pub average : ℕ

pub data Printed : Type 0 where
  nothing : Printed
  figures : Figures → Printed
  out_of_range : Printed

-- `LatencyHistogram::add` of `end - start`
unfoldable pub add_sample : (start end : ℕ) → List ℕ → List ℕ
add_sample start end samples = samples ++ (sub64 end start ∷ [])

abbrev pub figures_of : List ℕ → ℕ → Option (List ℕ) → Option ℕ → Printed
figures_of sorted n (some ps) (some low) =
    figures (record { percentiles = ps; minimum = low; average = sum64 sorted 0 / n })
figures_of sorted n none low = out_of_range
figures_of sorted n (some ps) none = out_of_range

module _ (sort : List ℕ → List ℕ) where
  -- `LatencyHistogram::report`
  unfoldable pub report : List ℕ → Printed
  report samples =
      let sorted = sort samples in
      let n = length sorted in
      if length samples == 0
      then nothing
      else figures_of sorted n (read_all sorted (latency_places n)) (get_elem? sorted 0)

  -- The places of `print_percentiles`.
  abbrev pub cycle_places : ℕ → List ℕ
  cycle_places n = (n / 2) ∷ scaled n 90 100 ∷ scaled n 99 100 ∷ scaled n 999 1000 ∷ []

  -- `print_percentiles`: `none` for no cycles, and for a read out of range.
  unfoldable pub print_percentiles :
      (double : Double) → List ℕ → double.Real → Option (List double.Real)
  print_percentiles double cycles freq_hz =
      let sorted = sort cycles in
      let cycles_to_ns = λ (c : ℕ).
        double.over (double.times (double.of_nat c) (double.of_nat 1000000000)) freq_hz in
      if length sorted == 0
      then none
      else Option.map (map cycles_to_ns) (read_all sorted (cycle_places (length sorted)))

  -- The places of `BM_LoggerCallerLatency`.
  abbrev pub caller_places : ℕ → List ℕ
  caller_places n =
      scaled n 50 100 ∷ scaled n 90 100 ∷ scaled n 99 100 ∷ scaled n 999 1000 ∷ (n - 1) ∷ []

  -- The end of `BM_LoggerCallerLatency`: `none` for no latencies, and for a read out of range.
  unfoldable pub caller_latency : List ℕ → Option (List ℕ)
  caller_latency latencies =
      let sorted = sort latencies in
      if ltb 0 (length sorted) then read_all sorted (caller_places (length sorted)) else none

-- `make_bench_entry`, in memory that held `memory`.
unfoldable pub make_bench_entry : List ℕ → LogEntry
make_bench_entry memory =
    let e = new_entry memory in
    record e {
      timestamp_ns = 123456789;
      thread_id = 1;
      level = lvl_info;
      payload_len = 16;
      payload = codes "benchmark_entry!" ++ drop 16 e.payload;
    }

-- 1 << 20
abbrev pub bench_size : ℕ
bench_size = 1048576

-- The loop that fills the queue, whatever `push` answers.
unfoldable pub fill : ℕ → LogEntry → MpmcQueue LogEntry → MpmcQueue LogEntry
fill zero entry q = q
fill (suc n) entry q = fill n entry (Queue.push bench_size entry q).1

-- The timed loop of `BM_QueuePop`: what was popped, or `none` for the error.
unfoldable pub pop_rounds : ℕ → ℕ → LogEntry → MpmcQueue LogEntry → Option (MpmcQueue LogEntry)
pop_rounds zero cid entry q = some q
pop_rounds (suc n) cid entry q =
    let (out, q1) = Queue.pop bench_size cid q in
    let (_, q2) = Queue.push bench_size entry (recompute_and_store_min_tail q1) in
    elim out [ none ↦ none | some e ↦ pop_rounds n cid entry q2 ]
