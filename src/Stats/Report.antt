-- ===== src/Stats/Report.antt =====
-- tools/log_stats.cpp: the report. A line is what `printf` is given for it.
use mpmc_logger.Prelude.{
  ℕ, zero, suc, ◌+◌, ◌*◌, ◌%◌, ◌&&◌, List, [], ◌∷◌, ◌++◌, if◌then◌else◌, ltb, map, length, Option,
  none, take, drop, ◌==◌,
}
use mathlib.Core.Option
use mpmc_logger.Queue.{u64_mod}
use mpmc_logger.Entry.{of_layout, entry_size}
use mpmc_logger.Clock.{sub64}
use mpmc_logger.Real.{Double}
use mpmc_logger.Stats.{Stats, no_stats, stats_loop}

-- The keys of the map of the threads, in order: `thread_counts[tid]` adds a key that is new.
unfoldable pub insert_key : ℕ → List ℕ → List ℕ
insert_key k [] = k ∷ []
insert_key k (j ∷ js) =
    if k == j then j ∷ js else if ltb k j then k ∷ j ∷ js else j ∷ insert_key k js

-- The keys after the loop over the records.
unfoldable pub tids_loop : ℕ → List ℕ → List ℕ → List ℕ
tids_loop zero bytes keys = keys
tids_loop (suc fuel) bytes keys =
    let rest =
      tids_loop fuel (drop entry_size bytes)
        (insert_key (of_layout (take entry_size bytes)).thread_id keys) in
    if ltb (length bytes) entry_size then keys else rest

module _ (double : Double) where
  open double use {Real, of_nat, times, over}

  pub data ReportLine : Type 0 where
    total_entries : ℕ → ReportLine
    file_size : Real → ReportLine
    level_line : (level count : ℕ) (pct : Real) → ReportLine
    thread_line : (tid count : ℕ) (pct : Real) → ReportLine
    time_span : Real → ReportLine
    throughput : Real → ReportLine
    total_payload : Real → ReportLine
    avg_payload : Real → ReportLine
    min_payload : ℕ → ReportLine
    max_payload : ℕ → ReportLine

  abbrev percent : ℕ → ℕ → Real
  percent count total = over (times (of_nat 100) (of_nat count)) (of_nat total)

  -- `/ (1024.0 * 1024.0)`
  abbrev megabytes : ℕ → Real
  megabytes n = over (of_nat n) (times (of_nat 1024) (of_nat 1024))

  -- The loop over the levels, from `i` on.
  unfoldable pub level_lines : (rounds i : ℕ) → Stats → List ReportLine
  level_lines zero i s = []
  level_lines (suc rounds) i s =
      let rest = level_lines rounds (i + 1) s in
      if ltb 0 (s.level_counts i)
      then level_line i (s.level_counts i) (percent (s.level_counts i) s.total) ∷ rest
      else rest

  unfoldable pub thread_lines : List ℕ → Stats → List ReportLine
  thread_lines tids s =
      map (λ tid. thread_line tid (s.thread_counts tid) (percent (s.thread_counts tid) s.total))
        tids

  unfoldable pub throughput_lines : Stats → List ReportLine
  throughput_lines s =
      let duration_sec = over (of_nat (sub64 s.max_ts s.min_ts)) (of_nat 1000000000) in
      let entries_per_sec = over (of_nat s.total) duration_sec in
      if ltb 0 s.total && ltb s.min_ts s.max_ts
      then time_span duration_sec ∷ throughput (over entries_per_sec (of_nat 1000000)) ∷ []
      else []

  unfoldable pub payload_lines : Stats → List ReportLine
  payload_lines s =
      total_payload (megabytes s.total_payload_bytes)
      ∷ ((if ltb 0 s.total
            then avg_payload (over (of_nat s.total_payload_bytes) (of_nat s.total)) ∷ []
            else [])
          ++ (min_payload s.min_payload ∷ max_payload s.max_payload ∷ []))

  unfoldable pub report : List ℕ → Stats → List ReportLine
  report tids s =
      total_entries s.total
      ∷ file_size (megabytes ((s.total * entry_size) % u64_mod))
      ∷ (level_lines 6 0 s ++ (thread_lines tids s ++ (throughput_lines s ++ payload_lines s)))

  -- `main`: the exit code 1 is `none`, and `contents` opens a file and reads it.
  unfoldable pub print_stats :
      (contents : List ℕ → Option (List ℕ)) → List (List ℕ) → Option (List ReportLine)
  print_stats contents [] = none
  print_stats contents (path ∷ rest) =
      Option.map
        (λ bytes.
          let fuel = suc (length bytes) in
          report (tids_loop fuel bytes []) (stats_loop fuel bytes no_stats))
        (contents path)
