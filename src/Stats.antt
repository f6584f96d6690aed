-- ===== src/Stats.antt =====
-- tools/log_stats.cpp: the counters over the records of a binary log. The map of the threads is a
-- function; `uint16_t` and `size_t` counters keep their widths.
pub mod Report
pub mod Levels
pub mod Padded
pub mod Total
pub mod Tally
use mpmc_logger.Prelude.{
  ℕ, zero, suc, ◌+◌, ◌%◌, List, if◌then◌else◌, ltb, leb, length, take, drop, update,
}
use mpmc_logger.Queue.{invalid_pos}
use mpmc_logger.Entry.{LogEntry, of_layout, entry_size}
use mpmc_logger.Sink.{add64}

pub record Stats : Type 0 where
  pub total : ℕ
  pub level_counts : ℕ → ℕ
  pub thread_counts : ℕ → ℕ
  pub min_ts : ℕ
  pub max_ts : ℕ
  pub total_payload_bytes : ℕ
  pub min_payload : ℕ
  pub max_payload : ℕ

abbrev pub no_stats : Stats
no_stats = record {
  total = 0;
  level_counts = λ _. 0;
  thread_counts = λ _. 0;
  min_ts = invalid_pos;
  max_ts = 0;
  total_payload_bytes = 0;
  min_payload = 65535;
  max_payload = 0;
}

-- The body of the loop.
unfoldable pub count_entry : LogEntry → Stats → Stats
count_entry e s = record {
  total = add64 s.total 1;
  level_counts =
      if leb e.level 6
      then update s.level_counts e.level (add64 (s.level_counts e.level) 1)
      else s.level_counts;
  thread_counts = update s.thread_counts e.thread_id (add64 (s.thread_counts e.thread_id) 1);
  min_ts = if ltb e.timestamp_ns s.min_ts then e.timestamp_ns else s.min_ts;
  max_ts = if ltb s.max_ts e.timestamp_ns then e.timestamp_ns else s.max_ts;
  total_payload_bytes = add64 s.total_payload_bytes e.payload_len;
  min_payload = if ltb e.payload_len s.min_payload then e.payload_len else s.min_payload;
  max_payload = if ltb s.max_payload e.payload_len then e.payload_len else s.max_payload;
}

-- The loop, on fuel; a record of less than 128 bytes ends it.
unfoldable pub stats_loop : ℕ → List ℕ → Stats → Stats
stats_loop zero bytes s = s
stats_loop (suc fuel) bytes s =
    let rest =
      stats_loop fuel (drop entry_size bytes) (count_entry (of_layout (take entry_size bytes)) s) in
    if ltb (length bytes) entry_size then s else rest
