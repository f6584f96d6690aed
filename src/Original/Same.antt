-- ===== src/Original/Same.antt =====
-- original/mpmc_queue.hpp against include/mpmc_logger/mpmc_queue.hpp.
use mpmc_logger.Prelude.{
  ℕ, ◌≡◌, ◌≢◌, refl, sym, ap, ◌∙◌, Bool, true, false, List, [], ◌∷◌, arith, fun_ext, if◌then◌else◌,
  ◌==◌, ℕ_discrete, update, if-true, if-false,
}
use mpmc_logger.Broadcast.{Call, put, get}
use mpmc_logger.Queue
use mpmc_logger.Queue.{
  MpmcQueue, is_full, next_pos, refresh_min_tail, compute_min_tail, slot_index, Slot,
}
use mpmc_logger.Queue.MinTail.{compute_min_tail-eq-original}
use mpmc_logger.Queue.Runs
use mpmc_logger.Original
use mpmc_logger.Original.{recheck}

-- The two stores of the present `push` make the slot that the original one writes.
pub slot_written {ℓ} :
    {T : Type ℓ} (f : ℕ → Slot T) (i h : ℕ) (x : T)
    → update f i (record { sequence = h; item = x })
      ≡ update
          (update f i (record (f i) { item = x }))
          i
          (record (update f i (record (f i) { item = x }) i) { sequence = h })
slot_written f i h x = fun_ext λ j. ground arith

pub min_tail_stored {ℓ} :
    {T : Type ℓ} (b : Bool) (mini : ℕ) (q : MpmcQueue T)
    → (if b
        then if mini == q.min_tail
          then record q { min_tail = mini }
          else record q { min_tail = mini }
        else q)
      ≡ (if b then if mini == q.min_tail then q else record q { min_tail = mini } else q)
min_tail_stored false mini q = refl
min_tail_stored true mini q = elim (ℕ_discrete mini q.min_tail) [
  | yes e ↦
      if_same (mini == q.min_tail)
      ∙ ap (λ m. record q { min_tail = m }) e
      ∙ sym (if-true _ _ (test_eq e))
  | no ne ↦ if_same (mini == q.min_tail) ∙ sym (if-false _ _ (test_ne ne))
]
  where
    if_same :
        (b : Bool)
        → (if b then record q { min_tail = mini } else record q { min_tail = mini })
          ≡ record q { min_tail = mini }
    if_same true = refl
    if_same false = refl

    test_eq : mini ≡ q.min_tail → (mini == q.min_tail) ≡ true
    test_eq e = ground arith

    test_ne : mini ≢ q.min_tail → (mini == q.min_tail) ≡ false
    test_ne e = ground arith

module _ {ℓ} {T : Type ℓ} (size : ℕ) where
  recheck-eq : (q : MpmcQueue T) → recheck size q ≡ refresh_min_tail size q
  unfolding recheck refresh_min_tail Original.compute_min_tail
  recheck-eq q =
      min_tail_stored (is_full size q.head q.min_tail) (Original.compute_min_tail q).0 q
      ∙ ap
          (λ m.
            if is_full size q.head q.min_tail
            then if m == q.min_tail then q else record q { min_tail = m }
            else q)
          (sym (compute_min_tail-eq-original q).0)

  push-eq : (x : T) (q : MpmcQueue T) → Original.push size x q ≡ Queue.push size x q
  unfolding Original.push Queue.push slot_index
  push-eq x q =
      ap
        (λ q'. if is_full size q'.head q'.min_tail then (false, q') else (
          true,
          record q' {
            head = next_pos q.head;
            slots =
                update q'.slots (slot_index size q.head) (record { sequence = q.head; item = x });
          },
        ))
        (recheck-eq q)
      ∙ ap
          (λ slots.
            if is_full size (refresh_min_tail size q).head (refresh_min_tail size q).min_tail
            then (false, refresh_min_tail size q)
            else (true, record (refresh_min_tail size q) { head = next_pos q.head; slots = slots }))
          (slot_written (refresh_min_tail size q).slots (slot_index size q.head) q.head x)

  pop-eq : (id : ℕ) (q : MpmcQueue T) → Original.pop size id q ≡ Queue.pop size id q
  unfolding Original.pop Queue.pop slot_index
  pop-eq id q = refl

  -- Every sequence of calls of `push` and `pop` answers, on every queue, as the first version of the
  -- queue does.
  pub run-eq-original :
      (calls : List (Call T)) (q : MpmcQueue T)
      → Queue.Runs.run size q calls ≡ Original.run size q calls
  unfolding Original.run Queue.Runs.run
  run-eq-original [] q = refl
  run-eq-original (put x ∷ calls) q =
      rw (push-eq x q, run-eq-original calls (Queue.push size x q).1) refl
  run-eq-original (get id ∷ calls) q =
      rw (pop-eq id q, run-eq-original calls (Queue.pop size id q).1) refl
