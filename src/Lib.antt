-- ===== src/Lib.antt =====
-- A model of mpmc_logger, an asynchronous logger in C++, with theorems about it. Producers put
-- 128-byte entries into a lock-free ring buffer; one drain thread takes them out, formats them and
-- copies them into a memory-mapped file, which it rotates. Every consumer of the ring buffer reads
-- every item.
--
-- Prelude          what the other modules share: tests, lists, arrays, texts, options, bits.
-- Queue            include/mpmc_logger/mpmc_queue.hpp, one call at a time. `push`, `pop`,
--                  `register_consumer`, `unregister_consumer`, `compute_min_tail` and the others
--                  have the names of the source. Positions wrap at 2^64.
-- Broadcast        the specification of the queue: one log, which each consumer reads from its place.
-- Concurrent       the same file with its threads: each load, store and compare-exchange is a step,
--                  in any interleaving. The memory is sequentially consistent; the orders weaker
--                  than that are not modelled. The copy of an item is one step. `Late` has the
--                  steps of `register_consumer` as well, so that it may run beside the others, and
--                  `Quiet` those of them that run while no producer is inside a call.
-- Original         original/mpmc_queue.hpp: the first version of the queue.
-- Unrolled         original/mpmc.hpp: the second version.
-- Generic          original/mpmc_2.hpp: the second version for any item type, with its bytes.
-- Shm              original/mpmc_queue.hpp: the shared-memory segment of a queue.
-- Entry            include/mpmc_logger/log_entry.hpp and `fast_copy`: the entry, its 128 bytes in
--                  memory on a little-endian machine, and the copies with AVX2.
-- Format           include/mpmc_logger/formatter.hpp, src/formatter.cpp and `CachedDateFormatter` of
--                  include/mpmc_logger/timestamp.hpp.
-- Sink             include/mpmc_logger/mmap_sink.hpp and src/mmap_sink.cpp, over a record `Os` of the
--                  system calls.
-- Logger           include/mpmc_logger/logger.hpp, include/mpmc_logger/config.hpp, src/logger.cpp.
--                  `Live` is the drain loop beside the producers, in the steps of `Concurrent`; `Session` puts the
--                  logger, the sink and the reader together, and `Live.Session` does so with the
--                  producers beside the drain thread.
-- Reader           tools/log_reader.cpp: the options, the loop over a binary log, and `main`.
-- Stats            tools/log_stats.cpp: the counters over a binary log, the report, and `main`.
-- Clock            `now_ns`, `wall_clock_ns` and `tsc_to_ns` of include/mpmc_logger/timestamp.hpp, and
--                  src/timestamp.cpp.
-- Real             the operations of `double`.
-- Bench            the figures and the single-threaded loops of bench/bench_queue_latency.cpp,
--                  bench/bench_rdtsc.cpp, bench/bench_logger_e2e.cpp, bench/bench_queue_throughput.cpp;
--                  `Contention` has the threads of `BM_ConsumerScaling` in bench/bench_contention.cpp.
-- Tests            runs on concrete inputs, and the theorems at inputs that meet their hypotheses.
--
-- Bounds and fuel. The theorems on the queue are about fewer than 2^64 - 1 - SIZE items. The loop of
-- `push` ends in its first round when nobody interferes, and is a cycle of steps when somebody does.
-- `digit_loop` has as many rounds as its argument, which is more than its digits. The drain loops
-- take fuel, and more than the number of pending entries is shown to be enough.
--
-- Parameters. `localtime_r` with `strftime` (`date_of`), `std::to_string` (`to_string`), `snprintf`,
-- `atoi`, `std::sort`, the readings of the clocks, `double`, and the system calls are arguments; what
-- is relied on of them are named hypotheses (`FileLaws`, `Appears`, `Disk`, `IsSorted`).
--
-- Not modelled: the layout that `printf` gives to a number with a fraction; the threads of the
-- benchmarks other than BM_ConsumerScaling; prefetches and alignment, which have no effect on the results.
pub mod Bench
pub mod Broadcast
pub mod Clock
pub mod Concurrent
pub mod Entry
pub mod Format
pub mod Generic
pub mod Logger
pub mod Original
pub mod Prelude
pub mod Queue
pub mod Reader
pub mod Real
pub mod Shm
pub mod Sink
pub mod Stats
pub mod Tests
pub mod Unrolled
