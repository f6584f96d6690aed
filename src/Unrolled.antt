-- ===== src/Unrolled.antt =====
-- original/mpmc.hpp: the second version of the queue, with the state of the present one. Its copy by
-- 32-byte blocks is `fast_copy_96`; `purge_lock` is stored to in the constructor only, and left out.
pub mod Same
use mpmc_logger.Prelude.{
  ℕ, zero, suc, ◌+◌, ◌-◌, ◌%◌, Bool, true, false, not, Option, none, some, List, [], ◌∷◌, ◌==◌, leb,
  bit_and, update, if◌then◌else◌,
}
use mpmc_logger.Queue.{
  MpmcQueue, scan_tails, scan_result, no_mins, max_consumers, invalid_pos, u32_mod, u64_mod,
  is_full, next_pos,
}
use mpmc_logger.Entry.{load_block, store_block}
use mpmc_logger.Broadcast.{Call, put, get, Reply, pushed, popped}

-- `fast_copy_96` with AVX2: three loads, then three stores.
unfoldable pub fast_copy_96 : (dst src : List ℕ) → List ℕ
fast_copy_96 dst src =
    let y0 = load_block 0 src in
    let y1 = load_block 32 src in
    let y2 = load_block 64 src in store_block 64 y2 (store_block 32 y1 (store_block 0 y0 dst))

-- The members of the class, which are those of the present queue.
abbrev pub State {ℓ} : Type ℓ → Type ℓ
State T = MpmcQueue T

-- `computeMinTail` with four accumulators, which also stores what it returns.
unfoldable pub compute_min_tail {ℓ} : {T : Type ℓ} → MpmcQueue T → ℕ × MpmcQueue T
compute_min_tail q =
    let mini = scan_result (scan_tails 8 0 q.consumers no_mins) in
    (mini, record q { min_tail = mini })

-- `recomputeAndStoreMinTail`
unfoldable pub store_min_tail {ℓ} : {T : Type ℓ} → MpmcQueue T → MpmcQueue T
store_min_tail q = let (mini, q') = compute_min_tail q in record q' { min_tail = mini }

unfoldable pub empty_queue {ℓ} : {T : Type ℓ} → T → State T
empty_queue blank = record {
  consumers = λ _. record { tail = 0; active = false };
  head = 0;
  num_consumers = 0;
  min_tail = 0;
  slots = λ _. record { sequence = invalid_pos; item = blank };
}

-- `none` for the exception
unfoldable pub reg_consumer {ℓ} : {T : Type ℓ} → MpmcQueue T → Option ℕ × MpmcQueue T
reg_consumer q =
    let id = q.num_consumers in
    let counted = record q { num_consumers = (id + 1) % u32_mod } in
    if leb max_consumers id then (none, counted) else (
      some id,
      record counted {
        consumers = update q.consumers id (record { tail = q.head; active = true });
      },
    )

unfoldable pub del_consumer {ℓ} : {T : Type ℓ} → ℕ → MpmcQueue T → MpmcQueue T
del_consumer id q = record q {
  consumers = update q.consumers id (record (q.consumers id) { active = false });
}

-- `head & (SIZE - 1)`
abbrev pub masked : ℕ → ℕ → ℕ
masked size head = bit_and head (size - 1)

-- The check of `push`: a full queue computes the minimum, which stores it, and stores it once more
-- where it has changed.
unfoldable pub recheck {ℓ} : {T : Type ℓ} → ℕ → MpmcQueue T → MpmcQueue T
recheck size q =
    let (new_min, q') = compute_min_tail q in
    if is_full size q.head q.min_tail
    then if new_min == q.min_tail then q' else record q' { min_tail = new_min }
    else q

-- With nobody else pushing, the loop ends in its first round.
unfoldable pub push {ℓ} : {T : Type ℓ} → ℕ → T → MpmcQueue T → Bool × MpmcQueue T
push size x q =
    let q' = recheck size q in
    let i = masked size q.head in
    if is_full size q'.head q'.min_tail then (false, q') else (
      true,
      record q' {
        head = next_pos q.head;
        slots = update q'.slots i (record { sequence = q.head; item = x });
      },
    )

unfoldable pub pop {ℓ} : {T : Type ℓ} → ℕ → ℕ → MpmcQueue T → Option T × MpmcQueue T
pop size id q =
    let tail = (q.consumers id).tail in
    let slot = q.slots (masked size tail) in
    if not (q.consumers id).active
    then (none, q)
    else if not (slot.sequence == tail)
    then (none, q)
    else (
      some slot.item,
      record q {
        consumers = update q.consumers id (record (q.consumers id) { tail = next_pos tail });
      },
    )

-- A client's calls, one after the other.
unfoldable pub run {ℓ} : {T : Type ℓ} → ℕ → MpmcQueue T → List (Call T) → List (Reply T)
run size q [] = []
run size q (put x ∷ calls) = let (ok, q') = push size x q in pushed ok ∷ run size q' calls
run size q (get id ∷ calls) = let (out, q') = pop size id q in popped out ∷ run size q' calls
