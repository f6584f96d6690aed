-- ===== src/Sink/Rotate.antt =====
-- src/mmap_sink.cpp: what a rotation does to the files.
use mathlib.Core.List.{append_cancel_left, tail-eq_of_cons-eq}
use mpmc_logger.Prelude.{
  ℕ, zero, suc, ◌+◌, ◌-◌, ◌%◌, ◌≤◌, ◌<◌, ◌≡◌, ◌≢◌, refl, sym, ap, ap₂, ◌∙◌, Option, none, List, ◌∷◌,
  ◌++◌, arith, ℕ_discrete, codes, length, length-append,
}
use mpmc_logger.Queue.{u64_mod}
use mpmc_logger.Sink.{Os, MMapSink, rotated_name, shift_files, rotate_files, add64}

-- What `::unlink` and `::rename` do to the files by name, where none of them fails for a reason
-- other than a missing file. `rename` replaces a target; the code relies on it only for a target
-- that does not exist.
pub record FileLaws {W : Type 0} (os : Os W) {F : Type 0} (files : W → List ℕ → Option F)
    : Type 0 where
  pub unlinked : (p : List ℕ) (w : W) → files (os.unlink p w) p ≡ none
  pub unlink_others : (p q : List ℕ) (w : W) → q ≢ p → files (os.unlink p w) q ≡ files w q
  pub renamed :
      (a b : List ℕ) (w : W) → a ≢ b → files w b ≡ none → files (os.rename a b w) b ≡ files w a
  pub rename_source : (a b : List ℕ) (w : W) → a ≢ b → files (os.rename a b w) a ≡ none
  pub rename_others :
      (a b q : List ℕ) (w : W) → q ≢ a → q ≢ b → files (os.rename a b w) q ≡ files w q

module _ {W : Type 0} {os : Os W} {F : Type 0} {files : W → List ℕ → Option F}
    (laws : FileLaws os files) {to_string : ℕ → List ℕ}
    (distinct : (i j : ℕ) → to_string i ≡ to_string j → i ≡ j) where
  name_injective :
      (s : MMapSink) (i j : ℕ)
      → rotated_name os to_string s i ≡ rotated_name os to_string s j
      → i ≡ j
  name_injective s i j e = distinct i j (tail-eq_of_cons-eq (append_cancel_left s.base_path _ _ e))

  base_apart : (s : MMapSink) (i : ℕ) → s.base_path ≢ rotated_name os to_string s i
  base_apart s i e = omega (arith, ap length e, length-append s.base_path (b'.' ∷ to_string i))

  -- The loop over the suffixes `n` down to 1, with no file in the last place.
  module _ (s : MMapSink) where
    abbrev name : ℕ → List ℕ
    name i = rotated_name os to_string s i

    apart : (i j : ℕ) → i ≢ j → name i ≢ name j
    apart i j ne e = ne (name_injective s i j e)

    wrap_free : (n : ℕ) → n + 1 < u64_mod → name (add64 n 1) ≡ name (n + 1)
    wrap_free n h = ap name (omega arith)

    -- One round, which renames suffix `suc n`.
    abbrev round : ℕ → W → W
    round n w = os.rename (name (suc n)) (name (add64 (suc n) 1)) w

    round_moved :
        (n : ℕ) (w : W)
        → suc n + 1 < u64_mod
        → files w (name (suc n + 1)) ≡ none
        → files (round n w) (name (suc n + 1)) ≡ files w (name (suc n))
    round_moved n w h free =
        ap (λ b. files (os.rename (name (suc n)) b w) (name (suc n + 1))) (wrap_free (suc n) h)
        ∙ laws.renamed (name (suc n)) (name (suc n + 1)) w (apart (suc n) (suc n + 1) (omega arith))
            free

    round_freed : (n : ℕ) (w : W) → suc n + 1 < u64_mod → files (round n w) (name (n + 1)) ≡ none
    round_freed n w h =
        ap (λ k. files (round n w) (name k)) (omega arith)
        ∙ laws.rename_source (name (suc n)) (name (add64 (suc n) 1)) w
            (λ e. apart (suc n) (suc n + 1) (omega arith) (e ∙ wrap_free (suc n) h))

    round_kept :
        (n i : ℕ) (w : W)
        → suc n + 1 < u64_mod
        → i ≤ n
        → files (round n w) (name i) ≡ files w (name i)
    round_kept n i w h b =
        laws.rename_others (name (suc n)) (name (add64 (suc n) 1)) (name i) w
          (apart i (suc n) (omega arith))
          (λ e. apart i (suc n + 1) (omega arith) (e ∙ wrap_free (suc n) h))

    -- Names other than those of the loop keep their files.
    shift_others :
        (n : ℕ) (q : List ℕ) (w : W)
        → n + 1 < u64_mod
        → ((i : ℕ) → 1 ≤ i → i ≤ n + 1 → q ≢ name i)
        → files (shift_files os to_string s n w) q ≡ files w q
    unfolding shift_files
    shift_others zero q w h other = refl
    shift_others (suc n) q w h other =
        shift_others n q _ (omega arith) (λ i a b. other i a (omega arith))
        ∙ laws.rename_others (name (suc n)) (name (add64 (suc n) 1)) q w
            (other (suc n) (omega arith) (omega arith))
            (λ e. other (suc n + 1) (omega arith) (omega arith) (e ∙ wrap_free (suc n) h))

    -- The first suffix is free afterwards.
    shift_first :
        (n : ℕ) (w : W)
        → n + 1 < u64_mod
        → files w (name (n + 1)) ≡ none
        → files (shift_files os to_string s n w) (name 1) ≡ none
    unfolding shift_files
    shift_first zero w h free = free
    shift_first (suc n) w h free = shift_first n (round n w) (omega arith) (round_freed n w h)

    -- Every file moves up by one.
    shift_each :
        (n : ℕ) (w : W)
        → n + 1 < u64_mod
        → files w (name (n + 1)) ≡ none
        → (i : ℕ) → 1 ≤ i
        → i ≤ n
        → files (shift_files os to_string s n w) (name (i + 1)) ≡ files w (name i)
    unfolding shift_files
    shift_each zero w h free i a b = absurd (omega arith)
    shift_each (suc n) w h free i a b = elim (ℕ_discrete i (suc n)) [
      | yes e ↦
          shift_others n (name (i + 1)) (round n w) (omega arith)
            (λ j c d. apart (i + 1) j (omega arith))
          ∙ ap (λ k. files (round n w) (name k)) (omega arith)
          ∙ round_moved n w h free
          ∙ ap (λ k. files w (name k)) (sym e)
      | no ne ↦
          shift_each n (round n w) (omega arith) (round_freed n w h) i a (omega arith)
          ∙ round_kept n i w h (omega arith)
    ]

    abbrev before_last : W → W
    before_last w =
        shift_files os to_string s (s.max_rotated - 1) (os.unlink (name s.max_rotated) w)

    module _ (one : to_string 1 ≡ codes "1") (h : 0 < s.max_rotated) (lt : s.max_rotated < u64_mod)
        (w : W) where
      rotated : (rotate_files os to_string s w).1 ≡ os.rename s.base_path (name 1) (before_last w)
      unfolding rotate_files
      rotated =
          ap₂
            (λ n b.
              os.rename s.base_path b
                (shift_files os to_string s n (os.unlink (name s.max_rotated) w)))
            {x = (s.max_rotated + (u64_mod - 1)) % u64_mod} {y = s.max_rotated - 1}
            {u = s.base_path ++ codes ".1"} (omega arith)
            (ap (λ d. s.base_path ++ (b'.' ∷ d)) (sym one))

      last_free : files (os.unlink (name s.max_rotated) w) (name (s.max_rotated - 1 + 1)) ≡ none
      last_free =
          ap (λ k. files (os.unlink (name s.max_rotated) w) (name k)) {y = s.max_rotated}
            (omega arith)
          ∙ laws.unlinked (name s.max_rotated) w

      -- With at least one old file kept, a rotation gives the name `.(i + 1)` to the file `.i`, for
      -- every `i` from 1 below `max_rotated`; where `.i` is missing, `.(i + 1)` is missing.
      pub rotate_files_shift :
          (i : ℕ)
          → 1 ≤ i
          → i < s.max_rotated
          → files (rotate_files os to_string s w).1 (name (i + 1)) ≡ files w (name i)
      rotate_files_shift i a b =
          ap (λ v. files v (name (i + 1))) rotated
          ∙ laws.rename_others s.base_path (name 1) (name (i + 1)) (before_last w)
              (λ e. base_apart s (i + 1) (sym e)) (apart (i + 1) 1 (omega arith))
          ∙ shift_each (s.max_rotated - 1) (os.unlink (name s.max_rotated) w) (omega arith)
              last_free i a (omega arith)
          ∙ laws.unlink_others (name s.max_rotated) (name i) w (apart i s.max_rotated (omega arith))

      -- With at least one old file kept, a rotation gives the name `.1` to the current file, and
      -- leaves the base path free.
      pub rotate_files_current :
          (files (rotate_files os to_string s w).1 (name 1) ≡ files w s.base_path)
          × (files (rotate_files os to_string s w).1 s.base_path ≡ none)
      rotate_files_current = (
        ap (λ v. files v (name 1)) rotated
            ∙ laws.renamed s.base_path (name 1) (before_last w) (base_apart s 1)
                (shift_first (s.max_rotated - 1) _ (omega arith) last_free)
            ∙ shift_others (s.max_rotated - 1) s.base_path (os.unlink (name s.max_rotated) w)
                (omega arith) (λ i a b. base_apart s i)
            ∙ laws.unlink_others (name s.max_rotated) s.base_path w (base_apart s s.max_rotated),
        ap (λ v. files v s.base_path) rotated
            ∙ laws.rename_source s.base_path (name 1) (before_last w) (base_apart s 1),
      )
