-- ===== src/Sink/Unaligned.antt =====
-- src/mmap_sink.cpp: a region that would begin within a page.
use mpmc_logger.Prelude.{
  ℕ, ◌+◌, ◌%◌, ◌≤◌, ◌<◌, ◌≡◌, ◌≢◌, refl, sym, ap, ◌∙◌, Bool, true, false, Option, none, some, List,
  arith, inl, inr, length, ◌==◌, if-true, if-false, Bool-cases, subst, lt→ltb, ge→ltb_false,
}
use mpmc_logger.Queue.{u64_mod}
use mpmc_logger.Sink.Region.{test_zero}
use mpmc_logger.Sink.{
  Os, MMapSink, Outcome, returned, terminated, add64, mapped_at, extended, map_file, map_region,
  unmap_region, append_to, append_if_mapped, remap, next_region, write_to, write,
}

module _ {W : Type 0} (os : Os W) (to_string : ℕ → List ℕ) (page : ℕ)
    (refuses : (len fd offset : ℕ) (w : W)
      → offset % page ≢ 0
      → (os.mmap len fd offset w).0 ≡ none) where
  -- What a write leaves that stored nothing: no region, and no later write stores anything.
  abbrev pub Dead : Outcome W → Type 0
  Dead (returned n t w) =
      (n ≡ 0)
      × (t.mmap_ptr ≡ none)
      × ((later : List ℕ) (w' : W) → write os to_string later t w' ≡ returned 0 t w')
  Dead (terminated w) = ⊥

  Dead-after : (t : MMapSink) (w : W) → t.mmap_ptr ≡ none → Dead (returned 0 t w)
  unfolding write
  Dead-after t w p = (
    refl,
    p,
    λ later w'. elim (Bool-cases (length later == 0)) [
      | inl e ↦ if-true _ _ e
      | inr e ↦ if-false _ _ e ∙ ap (λ q. write_to os to_string q later t w') p
    ],
  )

  extended_refused :
      (s : MMapSink) (fd : ℕ) (r : Bool × W)
      → s.mmap_ptr ≡ none
      → s.file_offset % page ≢ 0
      → (extended os to_string s fd r).0.mmap_ptr ≡ none
  extended_refused s fd (false, w) p odd = p
  extended_refused s fd (true, w) p odd =
      ap
        (λ o.
          (mapped_at os to_string s (o, (os.mmap s.region_size fd s.file_offset w).1)).0.mmap_ptr)
        (refuses s.region_size fd s.file_offset w odd)

  map_file_refused :
      (s : MMapSink) (w : W) (fd : Option ℕ)
      → s.mmap_ptr ≡ none
      → s.file_offset % page ≢ 0
      → (map_file os to_string s w fd).0.mmap_ptr ≡ none
  map_file_refused s w none p odd = p
  map_file_refused s w (some fd) p odd = extended_refused s fd _ p odd

  append_refused :
      (bytes : List ℕ) (r : MMapSink × W)
      → r.0.mmap_ptr ≡ none
      → Dead (append_if_mapped os to_string bytes r)
  append_refused bytes (t, w) p =
      subst Dead (sym (ap (λ q. append_to os to_string q bytes t w) p)) (Dead-after t w p)

  -- Where `mmap` refuses offsets that are not at a page, a `write` that fills the region at a file
  -- offset within a page, without a rotation, returns 0 and leaves the sink without a region, and so
  -- does every later write.
  pub write-Dead :
      (bytes : List ℕ) (s : MMapSink) (w : W) (addr : ℕ)
      → s.mmap_ptr ≡ some addr
      → s.mmap_offset + length bytes < u64_mod
      → s.region_size < s.mmap_offset + length bytes
      → s.file_offset + length bytes < u64_mod
      → s.file_offset + length bytes ≤ s.max_file_size
      → 0 < length bytes
      → s.file_offset % page ≢ 0
      → Dead (write os to_string bytes s w)
  unfolding write next_region unmap_region map_region
  write-Dead bytes s w addr p wrap full wrap' small some_bytes odd =
      subst Dead
        (sym (
          if-false _ _ (test_zero (length bytes) some_bytes)
          ∙ ap (λ q. write_to os to_string q bytes s w) p
          ∙ if-true _ _ (lt→ltb s.region_size (add64 s.mmap_offset (length bytes)) (omega arith))
          ∙ ap (remap os to_string bytes) (
              if-false _ _
                (ge→ltb_false s.max_file_size (add64 s.file_offset (length bytes)) (omega arith)))))
        (append_refused bytes
          (map_region os to_string (record s { mmap_ptr = none; mmap_offset = 0 }) _)
          (map_file_refused (record s { mmap_ptr = none; mmap_offset = 0 }) _ s.fd refl odd))
