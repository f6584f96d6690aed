-- ===== src/Bench/Ordered.antt =====
-- The figures of the benchmarks: every read is in range, and the percentiles are in order.
use mpmc_logger.Prelude.{
  ℕ, ◌/◌, ◌^◌, ◌≤◌, ◌<◌, ◌≡◌, refl, ap, ◌∙◌, false, some, List, [], ◌∷◌, arith, length, get_elem?,
  get_elem?-in_range, if-false, if-true, ◌>>=◌, lt→ltb, ◌==◌,
}
use mathlib.Core.Option
use mpmc_logger.Bench.{
  read_all, latency_places, Figures, figures, figures_of, report, caller_places, caller_latency,
  sum64,
}

abbrev pub IsSorted : List ℕ → Type 0
IsSorted xs = (i j a b : ℕ) → get_elem? xs i ≡ some a → get_elem? xs j ≡ some b → i ≤ j → a ≤ b

-- From `low` on, each at least as large as the one before.
abbrev pub From : ℕ → List ℕ → Type 0
From low [] = Unit {0}
From low (y ∷ ys) = (low ≤ y) × From y ys

-- Places in a list of `n` elements, in order.
abbrev Places : ℕ → ℕ → List ℕ → Type 0
Places n low [] = Unit {0}
Places n low (i ∷ is) = (low ≤ i) × (i < n) × Places n i is

read_all-From :
    (xs is : List ℕ) (j b : ℕ)
    → IsSorted xs
    → get_elem? xs j ≡ some b
    → Places (length xs) j is
    → (ys : List ℕ) × (read_all xs is ≡ some ys) × From b ys
unfolding read_all
read_all-From xs [] j b sorted at_j p = ([], refl, tt)
read_all-From xs (i ∷ is) j b sorted at_j p =
    let (a, at_i) = get_elem?-in_range xs i p.1 in
    let (ys, rest, ordered) = read_all-From xs is i a sorted at_i p.2 in
    (
      a ∷ ys,
      ap (λ o. o >>= (λ x. Option.map (λ r. x ∷ r) (read_all xs is))) at_i
          ∙ ap (Option.map (λ r. a ∷ r)) rest,
      (sorted j i b a at_j at_i p.0, ordered),
    )

not_zero : (n : ℕ) → 0 < n → (n == 0) ≡ false
not_zero n h = ground arith

weaker : (low : ℕ) (ys : List ℕ) → From low ys → From 0 ys
weaker low [] f = tt
weaker low (y ∷ ys) f = (omega arith, f.1)

places : (n : ℕ) → 0 < n → n < 2 ^ 50 → Places n 0 (latency_places n)
unfolding latency_places
places n h k = omega arith

module _ (sort : List ℕ → List ℕ) (samples : List ℕ) (sorted : IsSorted (sort samples))
    (same : length (sort samples) ≡ length samples) (some_samples : 0 < length samples)
    (few : length samples < 2 ^ 50) where
  -- With at least one sample, and fewer than 2^50, the report of the latencies reads within the
  -- sorted samples, and its percentiles are in order, the minimum before them; its average is the
  -- sum on 64 bits divided by the number of samples.
  pub report_ordered :
      (h : Figures) × (report sort samples ≡ figures h)
      × From h.minimum h.percentiles
      × (h.average ≡ sum64 (sort samples) 0 / length samples)
  unfolding report latency_places
  report_ordered =
      let xs = sort samples in
      let n = length xs in
      let (low, at_0) = get_elem?-in_range xs 0 (omega (arith, same)) in
      let (ys, found, ordered) =
        read_all-From xs (latency_places n) 0 low sorted at_0
          (places n (omega arith) (omega arith)) in
      (
        record { percentiles = ys; minimum = low; average = sum64 xs 0 / n },
        if-false _ _ (not_zero (length samples) some_samples)
            ∙ ap (λ o. figures_of xs n o (get_elem? xs 0)) found
            ∙ ap (figures_of xs n (some ys)) at_0,
        ordered,
        ap (λ k. sum64 xs 0 / k) same,
      )

  -- So does the report of the caller's latencies.
  pub caller_latency_ordered : (ys : List ℕ) × (caller_latency sort samples ≡ some ys) × From 0 ys
  unfolding caller_latency
  caller_latency_ordered =
      let xs = sort samples in
      let n = length xs in
      let (low, at_0) = get_elem?-in_range xs 0 (omega (arith, same)) in
      let (ys, found, ordered) =
        read_all-From xs (caller_places sort n) 0 low sorted at_0 (omega (arith, same)) in
      (ys, if-true _ _ (lt→ltb 0 n (omega (arith, same))) ∙ found, weaker low ys ordered)
