-- ===== src/Queue.antt =====
-- include/mpmc_logger/mpmc_queue.hpp, one call at a time: the ring buffer, its registration of
-- consumers, `push`, `pop` and the scan for the slowest consumer. `size` is the template argument
-- SIZE, and the item type is the template argument T. Interleaved calls are in `Concurrent`.
pub mod Index
pub mod MinTail
pub mod Inv
pub mod Push
pub mod Lagging
pub mod Refine
pub mod Runs
use mpmc_logger.Prelude.{
  ℕ, zero, suc, ◌+◌, ◌-◌, ◌%◌, ◌^◌, ◌≤◌, ◌≡◌, min, bit_and, Bool, true, false, not, Option, none,
  some, if◌then◌else◌, ltb, leb, ◌==◌, update,
}

abbrev pub max_consumers : ℕ
max_consumers = 32

abbrev pub u64_mod : ℕ
u64_mod = 2 ^ 64

abbrev pub u32_mod : ℕ
u32_mod = 2 ^ 32

-- UINT64_MAX
abbrev pub invalid_pos : ℕ
invalid_pos = 2 ^ 64 - 1

-- The two `static_assert`s on SIZE.
pub record IsSize (size : ℕ) : Type 0 where
  pub power : bit_and size (size - 1) ≡ 0
  pub large : 16 ≤ size

pub record Slot {ℓ} (T : Type ℓ) : Type ℓ where
  pub sequence : ℕ
  pub item : T

pub record ConsumerInfo : Type 0 where
  pub tail : ℕ
  pub active : Bool

-- `ProducerInfo` and `MetaInfo` have one user each, and their fields stand here.
pub record MpmcQueue {ℓ} (T : Type ℓ) : Type ℓ where
  pub consumers : ℕ → ConsumerInfo
  pub head : ℕ
  pub num_consumers : ℕ
  pub min_tail : ℕ
  pub slots : ℕ → Slot T

-- The constructor; `blank` is the default-constructed item.
unfoldable pub new_queue {ℓ} : {T : Type ℓ} → T → MpmcQueue T
new_queue blank = record {
  consumers = λ _. record { tail = 0; active = false };
  head = 0;
  num_consumers = 0;
  min_tail = 0;
  slots = λ _. record { sequence = invalid_pos; item = blank };
}

-- `head & INDEX_MASK`
unfoldable pub slot_index : ℕ → ℕ → ℕ
slot_index size pos = bit_and pos (size - 1)

-- uint64_t `pos + 1`
abbrev pub next_pos : ℕ → ℕ
next_pos pos = (pos + 1) % u64_mod

-- `head >= min_tail + SIZE`
abbrev pub is_full : ℕ → ℕ → ℕ → Bool
is_full size head min_tail = leb ((min_tail + size) % u64_mod) head

-- The four accumulators of `compute_min_tail`.
pub record Mins : Type 0 where
  pub min0 : ℕ
  pub min1 : ℕ
  pub min2 : ℕ
  pub min3 : ℕ

abbrev pub no_mins : Mins
no_mins = record { min0 = invalid_pos; min1 = invalid_pos; min2 = invalid_pos; min3 = invalid_pos }

abbrev pub least : Mins → ℕ
least m = min (min m.min0 m.min1) (min m.min2 m.min3)

-- `(result == INVALID_POS) ? 0 : result`
abbrev pub scan_result : Mins → ℕ
scan_result m = if least m == invalid_pos then 0 else least m

-- `if (c.active) acc = std::min(acc, c.tail)`
abbrev pub take_tail : ConsumerInfo → ℕ → ℕ
take_tail c acc = if c.active then min acc c.tail else acc

-- The rounds of the unrolled loop, four consumers each.
unfoldable pub scan_tails : (rounds i : ℕ) → (ℕ → ConsumerInfo) → Mins → Mins
scan_tails zero i cs m = m
scan_tails (suc rounds) i cs m = scan_tails rounds (i + 4) cs (record {
  min0 = take_tail (cs i) m.min0;
  min1 = take_tail (cs (i + 1)) m.min1;
  min2 = take_tail (cs (i + 2)) m.min2;
  min3 = take_tail (cs (i + 3)) m.min3;
})

unfoldable pub compute_min_tail {ℓ} : {T : Type ℓ} → MpmcQueue T → ℕ
compute_min_tail q = scan_result (scan_tails 8 0 q.consumers no_mins)

unfoldable pub recompute_and_store_min_tail {ℓ} : {T : Type ℓ} → MpmcQueue T → MpmcQueue T
recompute_and_store_min_tail q = record q { min_tail = compute_min_tail q }

-- The identifier of the new consumer; `none` for the `std::runtime_error`. The count has gone up
-- by then.
unfoldable pub register_consumer {ℓ} : {T : Type ℓ} → MpmcQueue T → Option ℕ × MpmcQueue T
register_consumer q =
    let id = q.num_consumers in
    let counted = record q { num_consumers = (id + 1) % u32_mod } in
    if leb max_consumers id then (none, counted) else (
      some id,
      record counted {
        consumers = update q.consumers id (record { tail = q.head; active = true });
      },
    )

unfoldable pub unregister_consumer {ℓ} : {T : Type ℓ} → ℕ → MpmcQueue T → MpmcQueue T
unregister_consumer id q = record q {
  consumers = update q.consumers id (record (q.consumers id) { active = false });
}

-- The copy into the slot, and the store of its sequence number.
abbrev pub write_item {ℓ} : {T : Type ℓ} → ℕ → ℕ → T → MpmcQueue T → MpmcQueue T
write_item size head x q =
    let i = slot_index size head in
    record q { slots = update q.slots i (record (q.slots i) { item = x }) }

abbrev pub write_sequence {ℓ} : {T : Type ℓ} → ℕ → ℕ → MpmcQueue T → MpmcQueue T
write_sequence size head q =
    let i = slot_index size head in
    record q { slots = update q.slots i (record (q.slots i) { sequence = head }) }

abbrev pub advance_head {ℓ} : {T : Type ℓ} → ℕ → MpmcQueue T → MpmcQueue T
advance_head head q = record q { head = next_pos head }

abbrev pub advance_tail {ℓ} : {T : Type ℓ} → ℕ → ℕ → MpmcQueue T → MpmcQueue T
advance_tail id tail q = record q {
  consumers = update q.consumers id (record (q.consumers id) { tail = next_pos tail });
}

-- The cached minimum after the check for a full queue: a full queue recomputes it.
unfoldable pub refresh_min_tail {ℓ} : {T : Type ℓ} → ℕ → MpmcQueue T → MpmcQueue T
refresh_min_tail size q =
    if is_full size q.head q.min_tail
    then if compute_min_tail q == q.min_tail then q else record q { min_tail = compute_min_tail q }
    else q

-- Without a competitor the loop ends in its first round: `false` from the second check, or a
-- successful compare-exchange.
unfoldable pub push {ℓ} : {T : Type ℓ} → ℕ → T → MpmcQueue T → Bool × MpmcQueue T
push size x q =
    let q' = refresh_min_tail size q in
    if is_full size q'.head q'.min_tail
    then (false, q')
    else (true, write_sequence size q.head (write_item size q.head x (advance_head q.head q')))

-- `some` is `true` with the item that is copied out.
unfoldable pub pop {ℓ} : {T : Type ℓ} → ℕ → ℕ → MpmcQueue T → Option T × MpmcQueue T
pop size id q =
    let tail = (q.consumers id).tail in
    let slot = q.slots (slot_index size tail) in
    if not (q.consumers id).active
    then (none, q)
    else if not (slot.sequence == tail)
    then (none, q)
    else (some slot.item, advance_tail id tail q)

-- The loads of the observers.
unfoldable pub tail_of {ℓ} : {T : Type ℓ} → MpmcQueue T → ℕ → ℕ
tail_of q id = (q.consumers id).tail

unfoldable pub capacity : ℕ → ℕ
capacity size = size
