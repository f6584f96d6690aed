-- ===== src/Tests/Session.antt =====
-- A session of the logger on a disk of one file, beside a producer.
use mpmc_logger.Prelude.{
  ℕ, zero, suc, ◌+◌, ◌≡◌, ◌≤◌, ◌≢◌, refl, sym, ap, subst, length, take, none, some, [], ◌∷◌, ◌++◌,
  arith, List, replicate, codes,
}
use mpmc_logger.Queue.{new_queue, register_consumer}
use mpmc_logger.Format.{fast_u32_to_str}
use mpmc_logger.Logger.{DrainState, binary, init, released}
use mpmc_logger.Logger.Drain.{handle_all}
use mpmc_logger.Logger.File.{IsFiled, handle_all-IsFiled}
use mpmc_logger.Logger.Readable.{IsPadded}
use mpmc_logger.Logger.Binary.{AllEntries}
use mpmc_logger.Logger.Session
use mpmc_logger.Concurrent.{registered}
use mpmc_logger.Concurrent.Local.{held}
use mpmc_logger.Logger.Live.{Live, DrainConfig, LiveReach, here, later}
use mpmc_logger.Logger.Live.Walk.{LiveReach-IsWalk}
use mpmc_logger.Logger.Live.Ends.{drain_can_end}
use mpmc_logger.Logger.Live.Pops.{EndsWith}
use mpmc_logger.Logger.Live.Session.{config_of, thread_start-IsWalk, live_session_readable}
use mpmc_logger.Reader.{default_options, read_file}
use mpmc_logger.Reader.Back.{file_of, lines_of}
use mpmc_logger.Reader.Padding.{blank_entry}
use mpmc_logger.Sink.{ensure_directory, make_prefixes, parent, new_sink, open_file, Os}
use mpmc_logger.Tests.Disk.{OneFile, one_file, one_file-Disk, empty_disk, config-IsBinaryConfig}
use mpmc_logger.Tests.Live.{
  LiveRun, pushed, inited, inited_ok, inited_ring, d0, inited-IsLaunched, handled_into_file,
}
use mpmc_logger.Tests.Logger.{blank, blank-IsEntry, one_date, new_ring, stopped, config}

LiveReach-trans :
    {W : Type 0} {os : Os W} {to_string date_of : ℕ → List ℕ} {c : DrainConfig} {s t u : Live W}
    → LiveReach os to_string date_of c s t
    → LiveReach os to_string date_of c t u
    → LiveReach os to_string date_of c s u
LiveReach-trans r here = r
LiveReach-trans r (later r' st) = later (LiveReach-trans r r') st

-- One entry is pushed beside the drain thread.
abbrev one_logged : LiveRun one_file d0 (config_of inited.1)
one_logged = pushed one_file d0 (config_of inited.1)

no_claims : (i : ℕ) → held (one_logged.now.system.producers i) ≡ none
unfolding pushed
no_claims zero = refl
no_claims (suc i) = ground arith

drained :
    EndsWith one_file fast_u32_to_str one_date
      (config_of inited.1)
      blank
      d0
      one_logged.now
      handled_into_file.0
unfolding pushed init new_sink open_file register_consumer new_queue registered Session.new_ring
drained =
    drain_can_end one_file fast_u32_to_str one_date (config_of inited.1) blank d0 one_logged.now
      handled_into_file.0
      (LiveReach-IsWalk one_file fast_u32_to_str one_date (config_of inited.1) blank d0
        one_logged.reach (omega arith)
        (thread_start-IsWalk one_file fast_u32_to_str one_date blank inited.1 (replicate 256 0)
          inited.2 inited-IsLaunched.waiting))
      (omega arith) (λ seen h. cc) no_claims handled_into_file.1

left_by_session : List ℕ
left_by_session =
    (released one_file fast_u32_to_str one_date blank inited.1
      (drained.final.system.memory, drained.final.drain)).1.bytes

-- One entry is logged while the drain thread runs; then the stop is requested.
live_session_readable_example :
    (n : ℕ) × (m : ℕ) × IsPadded one_file-Disk 65536 3 fast_u32_to_str one_date blank
      left_by_session
      (take m drained.final.system.log)
      n
    × (m ≤ length drained.seen.log)
    × (length drained.seen.log ≤ length drained.final.system.log)
    × (((i : ℕ) → held (drained.seen.producers i) ≢ some (drained.seen.memory.consumers 0).tail)
        → take m drained.final.system.log ≡ drained.seen.log)
    × (read_file one_date (default_options (codes "app.log")) stopped.text_fmt left_by_session ≡ (
      lines_of one_date
          (take m drained.final.system.log ++ replicate n blank_entry)
          stopped.text_fmt,
      0 + m + n,
      0 + m + n,
    ))
unfolding one_file-Disk ensure_directory make_prefixes parent left_by_session pushed new_ring init
    new_sink open_file register_consumer new_queue registered
live_session_readable_example =
    live_session_readable one_file-Disk 3 fast_u32_to_str one_date blank config (replicate 20 0)
      (replicate 256 0) stopped inited.1 empty_disk inited.2 new_ring [] 0 drained.final
      drained.seen (codes "app.log") stopped.text_fmt config-IsBinaryConfig refl refl refl refl tt
      refl inited_ok inited_ring (LiveReach-trans one_logged.reach drained.reach) drained.at_end
      (omega (arith, ap length drained.same_log))
      (subst AllEntries (sym drained.same_log) (blank-IsEntry, tt))
      (omega (arith, ap length drained.seen_log))

handle_all-IsFiled_example :
    (d : DrainState OneFile) × (handle_all one_file fast_u32_to_str one_date binary
        (blank ∷ blank ∷ [])
        d0
      ≡ some d)
    × IsFiled one_file-Disk 65536 3 fast_u32_to_str one_date d (file_of (blank ∷ blank ∷ []))
handle_all-IsFiled_example =
    handle_all-IsFiled one_file-Disk 65536 3 fast_u32_to_str one_date (blank ∷ blank ∷ []) d0 []
      (blank-IsEntry, (blank-IsEntry, tt)) inited-IsLaunched.filed (omega arith)
