-- ===== src/Broadcast.antt =====
-- What include/mpmc_logger/mpmc_queue.hpp promises: one log of items, which every registered
-- consumer reads from the position at which it stands. A producer is refused while an active
-- consumer is `size` items behind.
use mpmc_logger.Prelude.{
  ℕ, zero, suc, ◌+◌, Bool, true, false, ◌&&◌, ◌||◌, Option, none, some, List, [], ◌∷◌, ◌++◌,
  if◌then◌else◌, leb, update, length, get_elem?,
}
use mpmc_logger.Queue.{ConsumerInfo, max_consumers}

pub record Broadcast {ℓ} (T : Type ℓ) : Type ℓ where
  pub log : List T
  pub readers : ℕ → ConsumerInfo

module _ {ℓ} {T : Type ℓ} (size : ℕ) where
  -- An active consumer among the first `n` has `size` items still to read.
  unfoldable pub lagging : ℕ → Broadcast T → Bool
  lagging zero b = false
  lagging (suc n) b =
      ((b.readers n).active && leb ((b.readers n).tail + size) (length b.log)) || lagging n b

  unfoldable pub push : T → Broadcast T → Bool × Broadcast T
  push x b =
      if lagging max_consumers b then (false, b) else (true, record b { log = b.log ++ (x ∷ []) })

module _ {ℓ} {T : Type ℓ} where
  abbrev pub read_at : ℕ → Broadcast T → Option T → Option T × Broadcast T
  read_at id b none = (none, b)
  read_at id b (some x) = (
    some x,
    record b {
      readers = update b.readers id (record (b.readers id) { tail = (b.readers id).tail + 1 });
    },
  )

  unfoldable pub pop : ℕ → Broadcast T → Option T × Broadcast T
  pop id b =
      if (b.readers id).active
      then read_at id b (get_elem? b.log (b.readers id).tail)
      else (none, b)

-- A client's calls, and what it sees of each.
pub data Call {ℓ} (T : Type ℓ) : Type ℓ where
  put : T → Call T
  get : ℕ → Call T

pub data Reply {ℓ} (T : Type ℓ) : Type ℓ where
  pushed : Bool → Reply T
  popped : Option T → Reply T

unfoldable pub run {ℓ} : {T : Type ℓ} → ℕ → Broadcast T → List (Call T) → List (Reply T)
run size b [] = []
run size b (put x ∷ calls) = let (ok, b') = push size x b in pushed ok ∷ run size b' calls
run size b (get id ∷ calls) = let (out, b') = pop id b in popped out ∷ run size b' calls
