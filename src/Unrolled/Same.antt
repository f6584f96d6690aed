-- ===== src/Unrolled/Same.antt =====
-- original/mpmc.hpp against include/mpmc_logger/mpmc_queue.hpp.
use mpmc_logger.Prelude.{
  ℕ, length, ◌≤◌, ◌≡◌, refl, ap, ◌∙◌, true, false, List, [], ◌∷◌, if◌then◌else◌, update,
}
use mpmc_logger.Broadcast.{Call, put, get}
use mpmc_logger.Queue
use mpmc_logger.Queue.{
  MpmcQueue, is_full, next_pos, refresh_min_tail, compute_min_tail, slot_index, Slot,
}
use mpmc_logger.Queue.Runs
use mpmc_logger.Unrolled
use mpmc_logger.Unrolled.{recheck, fast_copy_96}
use mpmc_logger.Entry.{memcpy}
use mpmc_logger.Entry.Copy.{three_blocks, stored}
use mpmc_logger.Original.Same.{min_tail_stored, slot_written}

-- `fast_copy_96` copies 96 bytes whole, and leaves what follows them.
pub fast_copy_96-eq-memcpy :
    (dst src : List ℕ) → 96 ≤ length src → fast_copy_96 dst src ≡ memcpy dst src 96
unfolding fast_copy_96
fast_copy_96-eq-memcpy dst src h = three_blocks src dst h ∙ stored 96 dst src h

module _ {ℓ} {T : Type ℓ} (size : ℕ) where
  recheck-eq : (q : MpmcQueue T) → recheck size q ≡ refresh_min_tail size q
  unfolding recheck refresh_min_tail Unrolled.compute_min_tail compute_min_tail
  recheck-eq q = min_tail_stored (is_full size q.head q.min_tail) (compute_min_tail q) q

  push-eq : (x : T) (q : MpmcQueue T) → Unrolled.push size x q ≡ Queue.push size x q
  unfolding Unrolled.push Queue.push slot_index
  push-eq x q =
      ap
        (λ q'. if is_full size q'.head q'.min_tail then (false, q') else (
          true,
          record q' {
            head = next_pos q.head;
            slots =
                update q'.slots (slot_index size q.head) (record { sequence = q.head; item = x });
          },
        ))
        (recheck-eq q)
      ∙ ap
          (λ slots.
            if is_full size (refresh_min_tail size q).head (refresh_min_tail size q).min_tail
            then (false, refresh_min_tail size q)
            else (true, record (refresh_min_tail size q) { head = next_pos q.head; slots = slots }))
          (slot_written (refresh_min_tail size q).slots (slot_index size q.head) q.head x)

  pop-eq : (id : ℕ) (q : MpmcQueue T) → Unrolled.pop size id q ≡ Queue.pop size id q
  unfolding Unrolled.pop Queue.pop slot_index
  pop-eq id q = refl

  -- Every sequence of calls of `push` and `pop` answers, on every queue, as the second version of
  -- the queue does.
  pub run-eq-unrolled :
      (calls : List (Call T)) (q : MpmcQueue T)
      → Queue.Runs.run size q calls ≡ Unrolled.run size q calls
  unfolding Unrolled.run Queue.Runs.run
  run-eq-unrolled [] q = refl
  run-eq-unrolled (put x ∷ calls) q =
      rw (push-eq x q, run-eq-unrolled calls (Queue.push size x q).1) refl
  run-eq-unrolled (get id ∷ calls) q =
      rw (pop-eq id q, run-eq-unrolled calls (Queue.pop size id q).1) refl
