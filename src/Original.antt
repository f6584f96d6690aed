-- ===== src/Original.antt =====
-- original/mpmc_queue.hpp: the first version of the queue, with the state of the present one. The
-- member `purge_lock` that its constructor stores to is declared nowhere, and is left out.
pub mod Same
use mpmc_logger.Prelude.{
  ℕ, zero, suc, ◌+◌, ◌-◌, ◌%◌, Bool, true, false, not, Option, none, some, List, [], ◌∷◌, ◌==◌, leb,
  bit_and, update, if◌then◌else◌,
}
use mpmc_logger.Queue.{
  ConsumerInfo, MpmcQueue, take_tail, max_consumers, invalid_pos, u32_mod, u64_mod, is_full,
  next_pos,
}
use mpmc_logger.Broadcast.{Call, put, get, Reply, pushed, popped}

-- The item of the original, with its five prices and quantities on each side.
pub record MarketData : Type 0 where
  pub token : ℕ
  pub bids : List ℕ
  pub asks : List ℕ
  pub bids_quantity : List ℕ
  pub asks_quantity : List ℕ
  pub seq_no : ℕ
  pub push_ts_n : ℕ

-- The members of the class, which are those of the present queue.
abbrev pub State {ℓ} : Type ℓ → Type ℓ
State T = MpmcQueue T

-- The loop of `computeMinTail`, with one accumulator.
unfoldable pub plain_scan : (rounds i : ℕ) → (ℕ → ConsumerInfo) → ℕ → ℕ
plain_scan zero i cs acc = acc
plain_scan (suc rounds) i cs acc = plain_scan rounds (i + 1) cs (take_tail (cs i) acc)

-- `computeMinTail`, which also stores what it returns.
unfoldable pub compute_min_tail {ℓ} : {T : Type ℓ} → MpmcQueue T → ℕ × MpmcQueue T
compute_min_tail q =
    let found = plain_scan max_consumers 0 q.consumers invalid_pos in
    let mini = if found == invalid_pos then 0 else found in (mini, record q { min_tail = mini })

-- `recomputeAndStoreMinTail`
unfoldable pub store_min_tail {ℓ} : {T : Type ℓ} → MpmcQueue T → MpmcQueue T
store_min_tail q = let (mini, q') = compute_min_tail q in record q' { min_tail = mini }

unfoldable pub empty_queue {ℓ} : {T : Type ℓ} → T → State T
empty_queue blank = record {
  consumers = λ _. record { tail = 0; active = false };
  head = 0;
  num_consumers = 0;
  min_tail = 0;
  slots = λ _. record { sequence = invalid_pos; item = blank };
}

-- `none` for the exception
unfoldable pub reg_consumer {ℓ} : {T : Type ℓ} → MpmcQueue T → Option ℕ × MpmcQueue T
reg_consumer q =
    let id = q.num_consumers in
    let counted = record q { num_consumers = (id + 1) % u32_mod } in
    if leb max_consumers id then (none, counted) else (
      some id,
      record counted {
        consumers = update q.consumers id (record { tail = q.head; active = true });
      },
    )

unfoldable pub del_consumer {ℓ} : {T : Type ℓ} → ℕ → MpmcQueue T → MpmcQueue T
del_consumer id q = record q {
  consumers = update q.consumers id (record (q.consumers id) { active = false });
}

-- `head & (SIZE - 1)`
abbrev pub masked : ℕ → ℕ → ℕ
masked size head = bit_and head (size - 1)

-- The check of `push`: a full queue computes the minimum, which stores it, and stores it once more
-- where it has changed.
unfoldable pub recheck {ℓ} : {T : Type ℓ} → ℕ → MpmcQueue T → MpmcQueue T
recheck size q =
    let (new_min, q') = compute_min_tail q in
    if is_full size q.head q.min_tail
    then if new_min == q.min_tail then q' else record q' { min_tail = new_min }
    else q

-- With nobody else pushing, the loop ends in its first round.
unfoldable pub push {ℓ} : {T : Type ℓ} → ℕ → T → MpmcQueue T → Bool × MpmcQueue T
push size x q =
    let q' = recheck size q in
    let i = masked size q.head in
    if is_full size q'.head q'.min_tail then (false, q') else (
      true,
      record q' {
        head = next_pos q.head;
        slots = update q'.slots i (record { sequence = q.head; item = x });
      },
    )

unfoldable pub pop {ℓ} : {T : Type ℓ} → ℕ → ℕ → MpmcQueue T → Option T × MpmcQueue T
pop size id q =
    let tail = (q.consumers id).tail in
    let slot = q.slots (masked size tail) in
    if not (q.consumers id).active
    then (none, q)
    else if not (slot.sequence == tail)
    then (none, q)
    else (
      some slot.item,
      record q {
        consumers = update q.consumers id (record (q.consumers id) { tail = next_pos tail });
      },
    )

-- A client's calls, one after the other.
unfoldable pub run {ℓ} : {T : Type ℓ} → ℕ → MpmcQueue T → List (Call T) → List (Reply T)
run size q [] = []
run size q (put x ∷ calls) = let (ok, q') = push size x q in pushed ok ∷ run size q' calls
run size q (get id ∷ calls) = let (out, q') = pop size id q in popped out ∷ run size q' calls
