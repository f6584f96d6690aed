-- ===== src/Stats/Tally.antt =====
-- tools/log_stats.cpp: each counter against the entries of the file.
use mpmc_logger.Prelude.{
  ℕ, ◌+◌, ◌*◌, ◌^◌, ◌≤◌, ◌<◌, ◌≡◌, refl, sym, ap, ◌∙◌, List, [], ◌∷◌, ◌++◌, arith, length, min, max,
  if◌then◌else◌, ◌==◌, subst,
}
use mpmc_logger.Queue.{invalid_pos}
use mpmc_logger.Entry.{LogEntry, entry_size}
use mpmc_logger.Logger.Binary.{AllEntries}
use mpmc_logger.Reader.Back.{file_of}
use mpmc_logger.Stats.{Stats, no_stats, count_entry, stats_loop}
use mpmc_logger.Stats.Total.{count_all, stats_loop_lem}

-- How many entries have a value in a field, the sum of a field, and its least and greatest value.
abbrev pub occurrences : (LogEntry → ℕ) → ℕ → List LogEntry → ℕ
occurrences f x [] = 0
occurrences f x (e ∷ es) = (if f e == x then 1 else 0) + occurrences f x es

abbrev pub sum_of : (LogEntry → ℕ) → List LogEntry → ℕ
sum_of f [] = 0
sum_of f (e ∷ es) = f e + sum_of f es

abbrev pub least_of : (LogEntry → ℕ) → List LogEntry → ℕ → ℕ
least_of f [] n = n
least_of f (e ∷ es) n = least_of f es (min n (f e))

abbrev pub greatest_of : (LogEntry → ℕ) → List LogEntry → ℕ → ℕ
greatest_of f [] n = n
greatest_of f (e ∷ es) n = greatest_of f es (max n (f e))

abbrev payload : LogEntry → ℕ
payload e = e.payload_len

abbrev time : LogEntry → ℕ
time e = e.timestamp_ns

total_counts :
    (es : List LogEntry) (s : Stats)
    → s.total + length es < 2 ^ 64
    → (count_all es s).total ≡ s.total + length es
unfolding count_entry
total_counts [] s lt = omega arith
total_counts (e ∷ es) s lt = omega (arith, total_counts es (count_entry e s) (omega arith))

level_of_counted :
    (e : LogEntry) (s : Stats) (x : ℕ)
    → x ≤ 6
    → s.level_counts x + 1 < 2 ^ 64
    → (count_entry e s).level_counts x ≡ s.level_counts x + (if e.level == x then 1 else 0)
unfolding count_entry
level_of_counted e s x le lt = ground arith

levels :
    (es : List LogEntry) (s : Stats) (x : ℕ)
    → x ≤ 6
    → s.level_counts x + length es < 2 ^ 64
    → (count_all es s).level_counts x ≡ s.level_counts x + occurrences (λ e. e.level) x es
levels [] s x le lt = omega arith
levels (e ∷ es) s x le lt =
    let one = level_of_counted e s x le (omega arith) in
    let small : (if e.level == x then 1 else 0) ≤ 1 = ground arith in
    omega (arith, levels es (count_entry e s) x le (omega (arith, one, small)), one)

thread_of_counted :
    (e : LogEntry) (s : Stats) (x : ℕ)
    → s.thread_counts x + 1 < 2 ^ 64
    → (count_entry e s).thread_counts x ≡ s.thread_counts x + (if e.thread_id == x then 1 else 0)
unfolding count_entry
thread_of_counted e s x lt = ground arith

threads :
    (es : List LogEntry) (s : Stats) (x : ℕ)
    → s.thread_counts x + length es < 2 ^ 64
    → (count_all es s).thread_counts x ≡ s.thread_counts x + occurrences (λ e. e.thread_id) x es
threads [] s x lt = omega arith
threads (e ∷ es) s x lt =
    let one = thread_of_counted e s x (omega arith) in
    let small : (if e.thread_id == x then 1 else 0) ≤ 1 = ground arith in
    omega (arith, threads es (count_entry e s) x (omega (arith, one, small)), one)

payload_bytes :
    (es : List LogEntry) (s : Stats)
    → s.total_payload_bytes + sum_of payload es < 2 ^ 64
    → (count_all es s).total_payload_bytes ≡ s.total_payload_bytes + sum_of payload es
unfolding count_entry
payload_bytes [] s lt = omega arith
payload_bytes (e ∷ es) s lt = omega (arith, payload_bytes es (count_entry e s) (omega arith))

extremes :
    (es : List LogEntry) (s : Stats)
    → ((count_all es s).min_ts ≡ least_of time es s.min_ts)
      × ((count_all es s).max_ts ≡ greatest_of time es s.max_ts)
      × ((count_all es s).min_payload ≡ least_of payload es s.min_payload)
      × ((count_all es s).max_payload ≡ greatest_of payload es s.max_payload)
unfolding count_entry
extremes [] s = (refl, refl, refl, refl)
extremes (e ∷ es) s =
    let (a, b, c, d) = extremes es (count_entry e s) in
    (
      a ∙ ap (least_of time es) (ground arith),
      b ∙ ap (greatest_of time es) (ground arith),
      c ∙ ap (least_of payload es) (ground arith),
      d ∙ ap (greatest_of payload es) (ground arith),
    )

sum_of_payload : (es : List LogEntry) → AllEntries es → sum_of payload es ≤ length es * 65535
sum_of_payload [] all = omega arith
sum_of_payload (e ∷ es) all = omega (arith, sum_of_payload es all.1, all.0.len_fits)

-- The counters of the entries, where OFF is the greatest level that is counted.
pub record IsTally (es : List LogEntry) (s : Stats) : Type 0 where
  pub total_eq : s.total ≡ length es
  pub levels_eq : (x : ℕ) → x ≤ 6 → s.level_counts x ≡ occurrences (λ e. e.level) x es
  pub threads_eq : (x : ℕ) → s.thread_counts x ≡ occurrences (λ e. e.thread_id) x es
  pub bytes_eq : s.total_payload_bytes ≡ sum_of (λ e. e.payload_len) es
  pub min_ts_eq : s.min_ts ≡ least_of (λ e. e.timestamp_ns) es invalid_pos
  pub max_ts_eq : s.max_ts ≡ greatest_of (λ e. e.timestamp_ns) es 0
  pub min_payload_eq : s.min_payload ≡ least_of (λ e. e.payload_len) es 65535
  pub max_payload_eq : s.max_payload ≡ greatest_of (λ e. e.payload_len) es 0

count_all-IsTally :
    (es : List LogEntry) → AllEntries es → length es < 2 ^ 48 → IsTally es (count_all es no_stats)
count_all-IsTally es all few =
    let (a, b, c, d) = extremes es no_stats in
    record {
      total_eq = omega (arith, total_counts es no_stats (omega arith));
      levels_eq = λ x le. omega (arith, levels es no_stats x le (omega arith));
      threads_eq = λ x. omega (arith, threads es no_stats x (omega arith));
      bytes_eq = omega (arith, payload_bytes es no_stats (omega (arith, sum_of_payload es all)));
      min_ts_eq = a;
      max_ts_eq = b;
      min_payload_eq = c;
      max_payload_eq = d;
    }

-- Over a file of the records of fewer than 2^48 entries within their widths, with less than a record
-- after them, the counters end as the number of the entries, the number of those with each level up
-- to OFF and with each thread, the sum of the payload lengths, and the least and greatest time and
-- payload length, from the initial values on.
pub stats_loop-IsTally :
    (fuel : ℕ) (es : List LogEntry) (partial : List ℕ)
    → AllEntries es
    → length es < fuel
    → length partial < entry_size
    → length es < 2 ^ 48
    → IsTally es (stats_loop fuel (file_of es ++ partial) no_stats)
stats_loop-IsTally fuel es partial all enough short few =
    subst (IsTally es) (sym (stats_loop_lem fuel es partial no_stats all enough short))
      (count_all-IsTally es all few)
