-- ===== src/Queue/Lagging.antt =====
-- mpmc_queue.hpp: the check for a full queue, with its cached minimum, against the tails.
use mpmc_logger.Prelude.{
  ℕ, zero, suc, ◌+◌, ◌≤◌, ◌<◌, ◌≡◌, ◌↔◌, sym, ap, ◌∙◌, subst, true, List, arith, length, ℕ_discrete,
  inl, inr, Bool-cases, bool_ext, bool_absurd,
}
use mpmc_logger.Broadcast
use mpmc_logger.Broadcast.{Broadcast, Call, put, get, Reply, pushed, popped}
use mpmc_logger.Queue.{IsSize, MpmcQueue, max_consumers, is_full, compute_min_tail}
use mpmc_logger.Queue.MinTail.{compute_min_tail-le, compute_min_tail-Found}
use mpmc_logger.Queue.Inv.{Fits}
use mpmc_logger.Queue.Push.{Idle, view, refused, refresh_cases}

module _ {ℓ} {T : Type ℓ} {size : ℕ} (v : IsSize size) where
  -- An active consumer that lags makes the check fail, and nothing else does.
  lagging_witness :
      (n : ℕ) (b : Broadcast T)
      → Broadcast.lagging size n b ≡ true
      → (c : ℕ) × ((b.readers c).active ≡ true) × ((b.readers c).tail + size ≤ length b.log)
  unfolding Broadcast.lagging
  lagging_witness zero b h = cc
  lagging_witness (suc n) b h = elim (Bool-cases (Broadcast.lagging size n b)) [
    | inl there ↦ lagging_witness n b there
    | inr not_there ↦ (n, ground arith, ground arith)
  ]

  lagging_of :
      (n c : ℕ) (b : Broadcast T)
      → c < n
      → (b.readers c).active ≡ true
      → (b.readers c).tail + size ≤ length b.log
      → Broadcast.lagging size n b ≡ true
  unfolding Broadcast.lagging
  lagging_of zero c b lt on le = absurd (omega arith)
  lagging_of (suc n) c b lt on le = elim (ℕ_discrete c n) [
    | yes here ↦
        ground (arith, ap (λ k. (b.readers k).active) here, ap (λ k. (b.readers k).tail) here)
    | no there ↦ ground (arith, lagging_of n c b (omega arith) on le)
  ]

  module _ {q : MpmcQueue T} {log : List T} (fits : Fits size log) (core : Idle size q log) where
    lagging_of_refused :
        (c : ℕ)
        → (q.consumers c).active ≡ true
        → refused size q ≡ true
        → Broadcast.lagging size max_consumers (view q log) ≡ true
    lagging_of_refused c on h = elim (refresh_cases size q) [
      | inl (room, e) ↦ bool_absurd (rw e at h) room
      | inr (full, e) ↦
          let scanned : is_full size q.head (compute_min_tail q) ≡ true = rw e at h in
          let (d, lt, active, at) =
            compute_min_tail-Found q c (core.ids c on) on
              (omega (arith, core.tail_le c, core.count)) in
          lagging_of max_consumers d (view q log) lt active
            (ground (arith, core.count, core.tail_le d))
    ]

    refused_of_lagging :
        Broadcast.lagging size max_consumers (view q log) ≡ true → refused size q ≡ true
    refused_of_lagging h =
        let (d, active, le) = lagging_witness max_consumers (view q log) h in
        elim (refresh_cases size q) [
          | inl (room, e) ↦
              bool_absurd {b = is_full size q.head q.min_tail}
                (ground (arith, core.behind.le_tail d active, core.count, core.tail_le d)) room
          | inr (full, e) ↦ rw e (
              ground (
                arith,
                compute_min_tail-le q d (core.ids d active) active,
                core.count,
                core.tail_le d,
              ))
        ]

  -- Between calls, beside an active consumer, the check of `push` refuses exactly when an active
  -- consumer lags by the whole buffer.
  pub refused-eq-lagging :
      {q : MpmcQueue T} {log : List T} (c : ℕ)
      → Fits size log
      → Idle size q log
      → (q.consumers c).active ≡ true
      → refused size q ≡ Broadcast.lagging size max_consumers (view q log)
  refused-eq-lagging c fits core on =
      bool_ext _ _ (lagging_of_refused fits core c on) (refused_of_lagging fits core)

  -- With one consumer, the check refuses exactly when that one lags by the whole buffer.
  pub refused_by_only :
      {q : MpmcQueue T} {log : List T} (c : ℕ)
      → Fits size log
      → Idle size q log
      → (q.consumers c).active ≡ true
      → ((d : ℕ) → (q.consumers d).active ≡ true → d ≡ c)
      → (refused size q ≡ true) ↔ ((q.consumers c).tail + size ≤ length log)
  refused_by_only {q} {log} c fits core on only =
      let same = refused-eq-lagging c fits core on in
      (
        λ h.
            let (d, active, le) = lagging_witness max_consumers (view q log) (sym same ∙ h) in
            subst (λ k. (q.consumers k).tail + size ≤ length log) (only d active) le,
        λ le. same ∙ lagging_of max_consumers c (view q log) (core.ids c on) on le,
      )
