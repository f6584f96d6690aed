-- ===== src/Generic.antt =====
-- original/mpmc_2.hpp: the second version of the queue for any item type `T`. The parameters of
-- `push` and `pop` are `MarketData` all the same, and `fast_copy_96` copies 96 bytes. A slot's item
-- is the memory from `data` to the end of the slot, and is at least 96 bytes long, since a slot
-- fills 128 bytes. What does not move bytes is the text of original/mpmc.hpp.
pub mod Same
use mpmc_logger.Prelude.{
  ℕ, Bool, true, false, not, Option, none, some, List, [], ◌∷◌, ◌==◌, update, take, if◌then◌else◌,
}
use mpmc_logger.Queue.{MpmcQueue, is_full, next_pos}
use mpmc_logger.Unrolled.{fast_copy_96, masked, recheck}
use mpmc_logger.Broadcast.{Call, put, get, Reply, pushed, popped}

-- The members of the class.
abbrev pub State : Type 0
State = MpmcQueue (List ℕ)

unfoldable pub push : ℕ → (market_data : List ℕ) → State → Bool × State
push size market_data q =
    let q' = recheck size q in
    let i = masked size q.head in
    if is_full size q'.head q'.min_tail then (false, q') else (
      true,
      record q' {
        head = next_pos q.head;
        slots =
            update q'.slots i
              (record { sequence = q.head; item = fast_copy_96 (q'.slots i).item market_data });
      },
    )

-- The answer, and the memory of `item`.
unfoldable pub pop : (size id : ℕ) (item : List ℕ) → State → Bool × List ℕ × State
pop size id item q =
    let tail = (q.consumers id).tail in
    let slot = q.slots (masked size tail) in
    if not (q.consumers id).active
    then (false, item, q)
    else if not (slot.sequence == tail)
    then (false, item, q)
    else (
      true,
      fast_copy_96 item slot.item,
      record q {
        consumers = update q.consumers id (record (q.consumers id) { tail = next_pos tail });
      },
    )

-- What the caller of `pop` reads of its item.
abbrev pub answer : Bool → List ℕ → Option (List ℕ)
answer true item = some (take 96 item)
answer false item = none

-- A client's calls, one after the other, with one item for all its calls of `pop`.
unfoldable pub run : ℕ → (item : List ℕ) → State → List (Call (List ℕ)) → List (Reply (List ℕ))
run size item q [] = []
run size item q (put x ∷ calls) = let (ok, q') = push size x q in pushed ok ∷ run size item q' calls
run size item q (get id ∷ calls) =
    let (ok, item', q') = pop size id item q in popped (answer ok item') ∷ run size item' q' calls
