-- ===== src/Tests/Versions.antt =====
-- Tests of the earlier versions of the queue, the shared segment and the log reader.
use mpmc_logger.Prelude.{
  ℕ, ◌-◌, ◌≡◌, refl, true, none, some, [], ◌∷◌, ◌++◌, arith, replicate, codes, if◌then◌else◌, ◌==◌,
}
use mpmc_logger.Queue
use mpmc_logger.Original
use mpmc_logger.Original.Same.{run-eq-original}
use mpmc_logger.Unrolled
use mpmc_logger.Unrolled.Same.{run-eq-unrolled}
use mpmc_logger.Broadcast.{put, get}
use mpmc_logger.Generic
use mpmc_logger.Generic.{State}
use mpmc_logger.Generic.Same.{HasRoom, items, run-eq-unrolled_items}
use mpmc_logger.Shm.{ShmOs, attach}
use mpmc_logger.Shm.Attach.{Appears, attach_found}
use mpmc_logger.Reader.{read_loop, default_options}
use mpmc_logger.Reader.Back.{file_of, lines_of, read_back}
use mpmc_logger.Stats.{stats_loop, no_stats}
use mpmc_logger.Stats.Tally.{IsTally, stats_loop-IsTally}
use mpmc_logger.Tests.Queue.{ring, script}
use mpmc_logger.Tests.Format.{one_date, warning, warning-IsEntry, blank_formatter}

run-eq-original_example : Queue.Runs.run 16 ring script ≡ Original.run 16 ring script
run-eq-original_example = run-eq-original 16 script ring

run-eq-unrolled_example : Queue.Runs.run 16 ring script ≡ Unrolled.run 16 ring script
run-eq-unrolled_example = run-eq-unrolled 16 script ring

-- A segment that appears after as many sleeps as the state counts.
abbrev waiting : ShmOs ℕ
waiting = record {
  shm_open = λ name create w. (if w == 0 then some 3 else none, w);
  shm_unlink = λ name w. w;
  ftruncate = λ fd len w. (true, w);
  mmap = λ len fd w. (some 65536, w);
  mlock = λ addr len w. w;
  munlock = λ addr len w. w;
  munmap = λ addr len w. w;
  close = λ fd w. w;
  usleep = λ us w. w - 1;
  construct = λ addr w. w;
}

waiting-Appears : Appears waiting (codes "/q") (λ w. w) 3
waiting-Appears = record {
  ready = λ w e. ground arith;
  absent = λ w h. ground arith;
  passes = λ us w. refl;
}

attach_found_example : (attach waiting 4096 50 (codes "/q") 7).0 ≡ some 3
attach_found_example = attach_found 4096 waiting-Appears 50 7 (omega arith)

read_back_example :
    read_loop one_date 3
      (default_options (codes "app.log"))
      (file_of (warning ∷ warning ∷ []) ++ replicate 100 0)
      blank_formatter
      0
      0
    ≡ (lines_of one_date (warning ∷ warning ∷ []) blank_formatter, 2, 2)
read_back_example =
    read_back one_date (codes "app.log") 3 (warning ∷ warning ∷ []) (replicate 100 0)
      blank_formatter 0 0 (warning-IsEntry, (warning-IsEntry, tt)) (omega arith) (omega arith)
      (omega arith) (omega arith)

stats_loop-IsTally_example :
    IsTally
      (warning ∷ warning ∷ [])
      (stats_loop 3 (file_of (warning ∷ warning ∷ []) ++ replicate 100 0) no_stats)
stats_loop-IsTally_example =
    stats_loop-IsTally 3 (warning ∷ warning ∷ []) (replicate 100 0)
      (warning-IsEntry, (warning-IsEntry, tt)) (omega arith) (omega arith) (omega arith)

-- Slots of 120 bytes, in a queue of one consumer.
abbrev wide_ring : State
wide_ring = (Queue.register_consumer (Queue.new_queue (replicate 120 0))).1

wide_ring-HasRoom : HasRoom wide_ring
unfolding Queue.register_consumer Queue.new_queue
wide_ring-HasRoom j = omega arith

run-eq-unrolled_items_example :
    Generic.run 16 (replicate 96 0) wide_ring (put (replicate 96 7) ∷ get 0 ∷ [])
    ≡ Unrolled.run 16 (items wide_ring) (put (replicate 96 7) ∷ get 0 ∷ [])
run-eq-unrolled_items_example =
    run-eq-unrolled_items 16 (put (replicate 96 7) ∷ get 0 ∷ []) (replicate 96 0) wide_ring
      (refl, tt) wide_ring-HasRoom
