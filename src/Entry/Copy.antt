-- ===== src/Entry/Copy.antt =====
-- log_entry.hpp and mpmc_queue.hpp: the copy by blocks is the copy of all the bytes.
use mpmc_logger.Prelude.{
  ℕ, ◌+◌, ◌≤◌, ◌≡◌, refl, sym, ap, ap₂, ◌∙◌, List, ◌++◌, arith, length, take, drop, append_assoc,
  ◌==◌, ℕ_discrete, length-take, length-drop, take-append_length, drop-append, take-add, drop-drop,
  if-false, subst, ◌≢◌, false,
}
use mpmc_logger.Entry.{load_block, store_block, fast_copy_128, fast_copy, memcpy}

store_after :
    (off : ℕ) (a b c : List ℕ)
    → off ≡ length a
    → store_block off b (a ++ c) ≡ (a ++ b) ++ drop (length b) c
store_after off a b c e =
    ap₂ (λ x y. x ++ (b ++ y)) (take-append_length off a c e)
      (drop-append (off + length b) (length b) a c (omega arith))
    ∙ sym (append_assoc a b _)

-- Storing the next block after a prefix that is already there extends the prefix.
block_step :
    (off : ℕ) (src dst : List ℕ)
    → off + 32 ≤ length src
    → store_block off (load_block off src) (take off src ++ drop off dst)
      ≡ take (off + 32) src ++ drop (off + 32) dst
block_step off src dst hs =
    store_after off (take off src) (load_block off src) (drop off dst)
      (omega (arith, length-take off src))
    ∙ ap₂ ◌++◌ (sym (take-add (off + 32) off 32 src refl)) (
        drop-drop (off + 32) off _ dst
          (omega (arith, length-take 32 (drop off src), length-drop off src)))

pub three_blocks :
    (src dst : List ℕ)
    → 96 ≤ length src
    → store_block 64
        (load_block 64 src)
        (store_block 32 (load_block 32 src) (store_block 0 (load_block 0 src) dst))
      ≡ take 96 src ++ drop 96 dst
three_blocks src dst h =
    ap (store_block 64 (load_block 64 src)) (
      ap (store_block 32 (load_block 32 src)) (block_step 0 src dst (omega arith))
      ∙ block_step 32 src dst (omega arith))
    ∙ block_step 64 src dst (omega arith)

test_false : (a b : ℕ) → a ≢ b → (a == b) ≡ false
test_false a b h = ground arith

pub stored :
    (n : ℕ) (dst src : List ℕ) → n ≤ length src → take n src ++ drop n dst ≡ memcpy dst src n
stored n dst src h = ap (λ k. take n src ++ drop k dst) (omega (arith, length-take n src))

-- `fast_copy_128` copies 128 bytes, and leaves what follows them.
pub fast_copy_128-eq-memcpy :
    (dst src : List ℕ) → 128 ≤ length src → fast_copy_128 dst src ≡ memcpy dst src 128
unfolding fast_copy_128
fast_copy_128-eq-memcpy dst src h =
    ap (store_block 96 (load_block 96 src)) (three_blocks src dst (omega arith))
    ∙ block_step 96 src dst (omega arith)
    ∙ stored 128 dst src h

-- `fast_copy` by blocks of 32 bytes is the copy of all the bytes of the item, and leaves what
-- follows them, for every size of an item.
pub fast_copy-eq-memcpy :
    (size : ℕ) (dst src : List ℕ) → size ≤ length src → fast_copy size dst src ≡ memcpy dst src size
unfolding fast_copy
fast_copy-eq-memcpy size dst src h = elim (ℕ_discrete size 128) [
  | yes e ↦
      subst (λ n. fast_copy n dst src ≡ memcpy dst src n) (sym e)
        (fast_copy_128-eq-memcpy dst src (omega arith))
  | no other ↦ elim (ℕ_discrete size 96) [
    | yes e ↦
        subst (λ n. fast_copy n dst src ≡ memcpy dst src n) (sym e)
          (three_blocks src dst (omega arith) ∙ stored 96 dst src (omega arith))
    | no another ↦
        if-false _ _ (test_false size 128 other) ∙ if-false _ _ (test_false size 96 another)
  ]
]
