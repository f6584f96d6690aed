-- ===== src/Generic/Same.antt =====
-- original/mpmc_2.hpp against original/mpmc.hpp: the copies move whole items.
use mpmc_logger.Prelude.{
  ℕ, ◌+◌, ◌≤◌, ◌≡◌, refl, sym, ap, ◌∙◌, subst, inl, inr, Bool, true, false, not, Option, none, some,
  List, [], ◌∷◌, ◌==◌, arith, length, take, drop, update, map-update, update_elim, if◌then◌else◌,
  if-true, if-false, Bool-cases, take-append_length, length-take, length-append, take_all,
}
use mpmc_logger.Queue.{MpmcQueue, Slot, is_full, next_pos}
use mpmc_logger.Unrolled
use mpmc_logger.Unrolled.{fast_copy_96, masked, recheck, compute_min_tail}
use mpmc_logger.Unrolled.Same.{fast_copy_96-eq-memcpy}
use mpmc_logger.Broadcast.{Call, put, get, pushed, popped}
use mpmc_logger.Generic
use mpmc_logger.Generic.{State, answer}

-- Every slot has room for an item.
abbrev pub HasRoom : State → Type 0
HasRoom q = (j : ℕ) → 96 ≤ length (q.slots j).item

abbrev pub AllItems : List (Call (List ℕ)) → Type 0
AllItems [] = Unit {0}
AllItems (put x ∷ calls) = (length x ≡ 96) × AllItems calls
AllItems (get id ∷ calls) = AllItems calls

abbrev item_slot : Slot (List ℕ) → Slot (List ℕ)
item_slot s = record { sequence = s.sequence; item = take 96 s.item }

-- The queue of the items that the slots begin with.
abbrev pub items : State → State
items q = record q { slots = λ j. item_slot (q.slots j) }

-- The first 96 bytes after a copy are those of the source.
take-fast_copy_96 :
    (dst src : List ℕ) → 96 ≤ length src → take 96 (fast_copy_96 dst src) ≡ take 96 src
take-fast_copy_96 dst src h =
    ap (take 96) (fast_copy_96-eq-memcpy dst src h)
    ∙ take-append_length 96 (take 96 src) _ (omega (arith, length-take 96 src))

length-fast_copy_96 : (dst src : List ℕ) → 96 ≤ length src → 96 ≤ length (fast_copy_96 dst src)
length-fast_copy_96 dst src h = omega (
  arith,
  ap length (fast_copy_96-eq-memcpy dst src h),
  length-append (take 96 src) (drop (0 + length (take 96 src)) dst),
  length-take 96 src,
)

-- The two tests of `pop`.
abbrev tested {ℓ} : {A : Type ℓ} → (active ready : Bool) → (stop go : A) → A
tested active ready stop go = if not active then stop else if not ready then stop else go

-- The answer of `pop`, and the items of the queue that it leaves.
abbrev seen : Bool × List ℕ × State → Option (List ℕ) × State
seen (ok, item, q) = (answer ok item, items q)

pop_cases :
    (active ready : Bool) (item item' x : List ℕ) (q q' : State)
    → take 96 item' ≡ x
    → seen (tested active ready (false, item, q) (true, item', q'))
      ≡ tested active ready (none, items q) (some x, items q')
pop_cases false ready item item' x q q' e = refl
pop_cases true false item item' x q q' e = refl
pop_cases true true item item' x q q' e = ap (λ y. (some y, items q')) e

module _ (size : ℕ) where
  recheck-items : (q : State) → recheck size (items q) ≡ items (recheck size q)
  unfolding recheck compute_min_tail
  recheck-items q =
      let mini = (compute_min_tail q).0 in
      elim (Bool-cases (is_full size q.head q.min_tail)) [
        | inl full ↦ elim (Bool-cases (mini == q.min_tail)) [
          | inl same ↦ rw (full, same) refl
          | inr other ↦ rw (full, other) refl
        ]
        | inr room ↦ rw room refl
      ]

  recheck-slots : (q : State) → (recheck size q).slots ≡ q.slots
  unfolding recheck compute_min_tail
  recheck-slots q = ground arith

  push_after : (q : State) (x : List ℕ) → MpmcQueue (List ℕ) → Bool × MpmcQueue (List ℕ)
  push_after q x r = if is_full size r.head r.min_tail then (false, r) else (
    true,
    record r {
      head = next_pos q.head;
      slots = update r.slots (masked size q.head) (record { sequence = q.head; item = x });
    },
  )

  whole_item : (dst x : List ℕ) → length x ≡ 96 → x ≡ take 96 (fast_copy_96 dst x)
  whole_item dst x h = sym (take-fast_copy_96 dst x (omega arith) ∙ take_all 96 x (omega arith))

  -- `push` of an item leaves the items that the second version leaves.
  push-items :
      (x : List ℕ) (q : State)
      → length x ≡ 96
      → ((Generic.push size x q).0, items (Generic.push size x q).1)
        ≡ Unrolled.push size x (items q)
  unfolding Generic.push Unrolled.push push_after
  push-items x q h =
      let q' = recheck size q in
      let i = masked size q.head in
      let copied : Slot (List ℕ) = record {
        sequence = q.head;
        item = fast_copy_96 (q'.slots i).item x;
      } in
      let written =
        ap
          (λ item.
            update (λ j. item_slot (q'.slots j)) i (record { sequence = q.head; item = item }))
          (whole_item (q'.slots i).item x h)
        ∙ map-update item_slot q'.slots i copied in
      elim (Bool-cases (is_full size q'.head q'.min_tail)) [
        | inl full ↦ rw full refl ∙ sym (ap (push_after q x) (recheck-items q) ∙ if-true _ _ full)
        | inr room ↦
            rw room refl
            ∙ sym (
                ap (push_after q x) (recheck-items q)
                ∙ if-false _ _ room
                ∙ ap (λ slots. (true, record (items q') { head = next_pos q.head; slots = slots }))
                    written)
      ]

  push-HasRoom :
      (x : List ℕ) (q : State) → length x ≡ 96 → HasRoom q → HasRoom (Generic.push size x q).1
  unfolding Generic.push
  push-HasRoom x q h room =
      let q' = recheck size q in
      let kept : HasRoom q' =
        λ j. subst (λ s. 96 ≤ length (s j).item) (sym (recheck-slots q)) (room j) in
      elim (Bool-cases (is_full size q'.head q'.min_tail)) [
        | inl full ↦ rw full kept
        | inr free ↦ rw free (
            update_elim (λ _ s. 96 ≤ length s.item) q'.slots (masked size q.head) _
              (length-fast_copy_96 (q'.slots (masked size q.head)).item x (omega arith))
              (λ j _. kept j))
      ]

  -- So does `pop`, and it answers the same.
  pop-items :
      (id : ℕ) (item : List ℕ) (q : State)
      → HasRoom q
      → (
        answer (Generic.pop size id item q).0 (Generic.pop size id item q).1,
        items (Generic.pop size id item q).2,
      )
        ≡ Unrolled.pop size id (items q)
  unfolding Generic.pop Unrolled.pop
  pop-items id item q room =
      let tail = (q.consumers id).tail in
      let slot = q.slots (masked size tail) in
      pop_cases (q.consumers id).active (slot.sequence == tail) item (fast_copy_96 item slot.item)
        (take 96 slot.item) q
        (record q {
          consumers = update q.consumers id (record (q.consumers id) { tail = next_pos tail });
        })
        (take-fast_copy_96 item slot.item (room (masked size tail)))

  pop-HasRoom :
      (id : ℕ) (item : List ℕ) (q : State) → HasRoom q → HasRoom (Generic.pop size id item q).2
  unfolding Generic.pop
  pop-HasRoom id item q room =
      let tail = (q.consumers id).tail in
      elim (Bool-cases (q.consumers id).active) [
        | inr off ↦ rw off room
        | inl on ↦ elim (Bool-cases ((q.slots (masked size tail)).sequence == tail)) [
          | inr other ↦ rw (on, other) room
          | inl here ↦ rw (on, here) room
        ]
      ]

  -- For items of 96 bytes, and slots with room for as many, every sequence of calls of `push` and
  -- `pop` of the version for any item type answers as the version with a fixed item type does: no
  -- byte of an item is lost in a copy.
  pub run-eq-unrolled_items :
      (calls : List (Call (List ℕ))) (item : List ℕ) (q : State)
      → AllItems calls
      → HasRoom q
      → Generic.run size item q calls ≡ Unrolled.run size (items q) calls
  unfolding Generic.run Unrolled.run
  run-eq-unrolled_items [] item q all room = refl
  run-eq-unrolled_items (put x ∷ calls) item q all room =
      let r = Generic.push size x q in
      ap (λ replies. pushed r.0 ∷ replies)
        (run-eq-unrolled_items calls item r.1 all.1 (push-HasRoom x q all.0 room))
      ∙ ap (λ s. pushed s.0 ∷ Unrolled.run size s.1 calls) (push-items x q all.0)
  run-eq-unrolled_items (get id ∷ calls) item q all room =
      let r = Generic.pop size id item q in
      ap (λ replies. popped (answer r.0 r.1) ∷ replies)
        (run-eq-unrolled_items calls r.1 r.2 all (pop-HasRoom id item q room))
      ∙ ap (λ s. popped s.0 ∷ Unrolled.run size s.1 calls) (pop-items id item q room)
