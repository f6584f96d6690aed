-- ===== src/Queue/MinTail.antt =====
-- mpmc_queue.hpp, `compute_min_tail`: the unrolled scan against a plain loop over the consumers.
use mpmc_logger.Prelude.{
  if◌then◌else◌, ◌==◌, ℕ_discrete, ℕ, zero, suc, ◌+◌, ◌≤◌, ◌<◌, ◌≡◌, refl, ap, ◌∙◌, ◌⊎◌, inl, inr,
  true, false, arith, dec_le, Bool-cases, bool_absurd,
}
use mpmc_logger.Queue.{
  ConsumerInfo, MpmcQueue, Mins, least, take_tail, scan_tails, no_mins, compute_min_tail,
  invalid_pos, max_consumers, recompute_and_store_min_tail,
}
use mpmc_logger.Original
use mpmc_logger.Original.{plain_scan}

abbrev quad : ℕ → ℕ
quad zero = zero
quad (suc r) = suc (suc (suc (suc (quad r))))

pub least-take_tail0 :
    (c : ConsumerInfo) (m : Mins)
    → least (record m { min0 = take_tail c m.min0 }) ≡ take_tail c (least m)
least-take_tail0 c m = ground arith

pub least-take_tail1 :
    (c : ConsumerInfo) (m : Mins)
    → least (record m { min1 = take_tail c m.min1 }) ≡ take_tail c (least m)
least-take_tail1 c m = ground arith

pub least-take_tail2 :
    (c : ConsumerInfo) (m : Mins)
    → least (record m { min2 = take_tail c m.min2 }) ≡ take_tail c (least m)
least-take_tail2 c m = ground arith

pub least-take_tail3 :
    (c : ConsumerInfo) (m : Mins)
    → least (record m { min3 = take_tail c m.min3 }) ≡ take_tail c (least m)
least-take_tail3 c m = ground arith

least_round :
    (c0 c1 c2 c3 : ConsumerInfo) (m : Mins)
    → least (record {
      min0 = take_tail c0 m.min0;
      min1 = take_tail c1 m.min1;
      min2 = take_tail c2 m.min2;
      min3 = take_tail c3 m.min3;
    })
      ≡ take_tail c3 (take_tail c2 (take_tail c1 (take_tail c0 (least m))))
least_round c0 c1 c2 c3 m =
    let m0 : Mins = record m { min0 = take_tail c0 m.min0 } in
    let m1 : Mins = record m0 { min1 = take_tail c1 m.min1 } in
    let m2 : Mins = record m1 { min2 = take_tail c2 m.min2 } in
    least-take_tail3 c3 m2
    ∙ ap (take_tail c3) (
        least-take_tail2 c2 m1
        ∙ ap (take_tail c2) (least-take_tail1 c1 m0 ∙ ap (take_tail c1) (least-take_tail0 c0 m)))

plain_scan_four :
    (r i : ℕ) (cs : ℕ → ConsumerInfo) (acc : ℕ)
    → plain_scan r
        (i + 4)
        cs
        (take_tail (cs (i + 3)) (take_tail (cs (i + 2)) (take_tail (cs (i + 1)) acc)))
      ≡ plain_scan r
          (i + 1 + 1 + 1 + 1)
          cs
          (take_tail (cs (i + 1 + 1 + 1)) (take_tail (cs (i + 1 + 1)) (take_tail (cs (i + 1)) acc)))
plain_scan_four r i cs acc = rw (two, three, four)
  where
    two : i + 1 + 1 ≡ i + 2
    two = omega arith

    three : i + 2 + 1 ≡ i + 3
    three = omega arith

    four : i + 3 + 1 ≡ i + 4
    four = omega arith

-- Four accumulators, combined at the end, find what one accumulator finds.
least-scan_tails :
    (r i : ℕ) (cs : ℕ → ConsumerInfo) (m : Mins)
    → least (scan_tails r i cs m) ≡ plain_scan (quad r) i cs (least m)
unfolding scan_tails plain_scan
least-scan_tails zero i cs m = refl
least-scan_tails (suc r) i cs m =
    least-scan_tails r (i + 4) cs _
    ∙ ap (plain_scan (quad r) (i + 4) cs)
        (least_round (cs i) (cs (i + 1)) (cs (i + 2)) (cs (i + 3)) m)
    ∙ plain_scan_four (quad r) i cs (take_tail (cs i) (least m))

take_tail_cases :
    (c : ConsumerInfo) (acc : ℕ)
    → (take_tail c acc ≡ acc) ⊎ ((c.active ≡ true) × (take_tail c acc ≡ c.tail))
take_tail_cases c acc = elim (Bool-cases c.active) [
  | inr off ↦ inl (ground arith)
  | inl on ↦ elim (dec_le acc c.tail) [
    | yes le ↦ inl (ground arith)
    | no gt ↦ inr (on, ground arith)
  ]
]

module _ (cs : ℕ → ConsumerInfo) where
  plain_scan-le_acc : (n i acc : ℕ) → plain_scan n i cs acc ≤ acc
  unfolding plain_scan
  plain_scan-le_acc zero i acc = omega arith
  plain_scan-le_acc (suc n) i acc =
      ground (arith, plain_scan-le_acc n (i + 1) (take_tail (cs i) acc))

  plain_scan-le_tail :
      (n i acc c : ℕ)
      → i ≤ c
      → c < i + n
      → (cs c).active ≡ true
      → plain_scan n i cs acc ≤ (cs c).tail
  unfolding plain_scan
  plain_scan-le_tail zero i acc c lo hi on = absurd (omega arith)
  plain_scan-le_tail (suc n) i acc c lo hi on = ground (
    arith,
    plain_scan-le_acc n (i + 1) (take_tail (cs i) acc),
    plain_scan-le_tail n (i + 1) (take_tail (cs i) acc) c,
  )

  abbrev pub Found : ℕ → ℕ → Type 0
  Found bound v = (c : ℕ) × (c < bound) × ((cs c).active ≡ true) × (v ≡ (cs c).tail)

  plain_scan-Found :
      (n i acc : ℕ) → (plain_scan n i cs acc ≡ acc) ⊎ Found (i + n) (plain_scan n i cs acc)
  unfolding plain_scan
  plain_scan-Found zero i acc = inl refl
  plain_scan-Found (suc n) i acc = elim (plain_scan-Found n (i + 1) (take_tail (cs i) acc)) [
    | inr (c, lt, on, e) ↦ inr (c, omega arith, on, e)
    | inl e ↦ elim (take_tail_cases (cs i) acc) [
      | inr (on, at) ↦ inr (i, omega arith, on, e ∙ at)
      | inl at ↦ inl (e ∙ at)
    ]
  ]

-- The scan for the slowest consumer with four accumulators, and its store, give what the
-- one-accumulator scan of the original queue gives, for every queue.
pub compute_min_tail-eq-original {ℓ} :
    {T : Type ℓ} (q : MpmcQueue T)
    → (compute_min_tail q ≡ (Original.compute_min_tail q).0)
      × (recompute_and_store_min_tail q ≡ (Original.compute_min_tail q).1)
unfolding compute_min_tail Original.compute_min_tail recompute_and_store_min_tail
compute_min_tail-eq-original q = rw (least-scan_tails 8 0 q.consumers no_mins) (refl, refl)

module _ {ℓ} {T : Type ℓ} (q : MpmcQueue T) where
  scan : ℕ
  scan = plain_scan max_consumers 0 q.consumers invalid_pos

  compute_min_tail-scan : compute_min_tail q ≡ (if scan == invalid_pos then 0 else scan)
  unfolding scan Original.compute_min_tail
  compute_min_tail-scan = (compute_min_tail-eq-original q).0

  -- The scan returns no more than the tail of any active consumer.
  pub compute_min_tail-le :
      (c : ℕ)
      → c < max_consumers
      → (q.consumers c).active ≡ true
      → compute_min_tail q ≤ (q.consumers c).tail
  unfolding scan
  compute_min_tail-le c lt on =
      ground
        (arith, compute_min_tail-scan, plain_scan-le_tail q.consumers max_consumers 0 invalid_pos c)

  -- With an active consumer, the scan returns the tail of one.
  pub compute_min_tail-Found :
      (c : ℕ)
      → c < max_consumers
      → (q.consumers c).active ≡ true
      → (q.consumers c).tail < invalid_pos
      → Found q.consumers max_consumers (compute_min_tail q)
  unfolding scan
  compute_min_tail-Found c lt on small =
      elim (plain_scan-Found q.consumers max_consumers 0 invalid_pos) [
        | inl e ↦
            absurd (omega (arith, plain_scan-le_tail q.consumers max_consumers 0 invalid_pos c))
        | inr (d, below, active, e) ↦ (
          d,
          omega arith,
          active,
          ground (
            arith,
            compute_min_tail-scan,
            plain_scan-le_tail q.consumers max_consumers 0 invalid_pos c,
          ),
        )
      ]

  -- Without one, it returns 0.
  pub compute_min_tail_none : ((c : ℕ) → (q.consumers c).active ≡ false) → compute_min_tail q ≡ 0
  unfolding scan
  compute_min_tail_none off = elim (plain_scan-Found q.consumers max_consumers 0 invalid_pos) [
    | inl e ↦ ground (arith, compute_min_tail-scan)
    | inr (d, below, active, e) ↦ bool_absurd active (off d)
  ]

  -- It returns 0 or the tail of an active consumer.
  pub compute_min_tail_cases :
      (compute_min_tail q ≡ 0) ⊎ Found q.consumers max_consumers (compute_min_tail q)
  unfolding scan
  compute_min_tail_cases = elim (plain_scan-Found q.consumers max_consumers 0 invalid_pos) [
    | inl e ↦ inl (ground (arith, compute_min_tail-scan))
    | inr (d, below, active, e) ↦ elim (ℕ_discrete scan invalid_pos) [
      | yes last ↦ inl (ground (arith, compute_min_tail-scan))
      | no other ↦ inr (d, omega arith, active, ground (arith, compute_min_tail-scan))
    ]
  ]
