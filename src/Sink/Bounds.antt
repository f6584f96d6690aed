-- ===== src/Sink/Bounds.antt =====
-- src/mmap_sink.cpp: a write stays within the mapped region, and is counted.
use mpmc_logger.Prelude.{
  ℕ, ◌+◌, ◌^◌, ◌≤◌, ◌<◌, ◌≡◌, refl, sym, ap, ◌∙◌, Bool, true, false, Option, none, some, List,
  arith, ◌⊎◌, inl, inr, length, ltb, ◌==◌, if◌then◌else◌, lt→ltb, ge→ltb_false, if-true, if-false,
  subst, dec_lt,
}
use mpmc_logger.Queue.{u64_mod}
use mpmc_logger.Sink.{
  Os, MMapSink, Outcome, returned, terminated, add64, sized, opened, open_file, close_file,
  mapped_at, extended, map_file, map_region, unmap_region, append_to, write_to, rotate_files,
  append, next_file, file_for, remap, next_region, write,
}

-- The offset is within the region, and no sum of a size and an offset wraps.
pub record IsSink (s : MMapSink) : Type 0 where
  pub offset_le : s.mmap_offset ≤ s.region_size
  pub region_lt : s.region_size < 2 ^ 63
  pub total_lt : s.total_bytes_written < u64_mod

-- A sink before its next write, at the start of a region if it has one.
pub record Restarted (s t : MMapSink) : Type 0 where
  pub same_region : t.region_size ≡ s.region_size
  pub same_total : t.total_bytes_written ≡ s.total_bytes_written
  pub at_start : t.mmap_offset ≡ 0

either : {A : Type 0} (P : A → Type 0) (b : Bool) {x y : A} → P x → P y → P (if b then x else y)
either P true p q = p
either P false p q = q

module _ {W : Type 0} (os : Os W) (to_string : ℕ → List ℕ) where
  Restarted-trans : {s t u : MMapSink} → Restarted s t → Restarted t u → Restarted s u
  Restarted-trans a b = record {
    same_region = b.same_region ∙ a.same_region;
    same_total = b.same_total ∙ a.same_total;
    at_start = b.at_start;
  }

  mapped_at_lem :
      (s : MMapSink) (r : Option ℕ × W)
      → s.mmap_offset ≡ 0
      → Restarted s (mapped_at os to_string s r).0
  mapped_at_lem s (some addr, w) z = record {
    same_region = refl;
    same_total = refl;
    at_start = refl;
  }
  mapped_at_lem s (none, w) z = record { same_region = refl; same_total = refl; at_start = z }

  extended_lem :
      (s : MMapSink) (fd : ℕ) (r : Bool × W)
      → s.mmap_offset ≡ 0
      → Restarted s (extended os to_string s fd r).0
  extended_lem s fd (false, w) z = record { same_region = refl; same_total = refl; at_start = z }
  extended_lem s fd (true, w) z = mapped_at_lem s _ z

  map_file_lem :
      (s : MMapSink) (w : W) (fd : Option ℕ)
      → s.mmap_offset ≡ 0
      → Restarted s (map_file os to_string s w fd).0
  map_file_lem s w none z = record { same_region = refl; same_total = refl; at_start = z }
  map_file_lem s w (some fd) z = extended_lem s fd _ z

  opened_lem :
      (s : MMapSink) (r : Option ℕ × W)
      → s.mmap_offset ≡ 0
      → Restarted s (opened os to_string s r).1
  opened_lem s (none, w) z = record { same_region = refl; same_total = refl; at_start = z }
  opened_lem s (some fd, w) z = sized_lem (os.fstat fd w).0
    where
      sized_lem :
          (size : Option ℕ) → Restarted s (sized os to_string size (record s { fd = some fd }))
      sized_lem (some n) = record { same_region = refl; same_total = refl; at_start = z }
      sized_lem none = record { same_region = refl; same_total = refl; at_start = z }

  next_file_lem :
      (s : MMapSink) (w : W) → s.mmap_offset ≡ 0 → Restarted s (next_file os to_string s w).1
  unfolding open_file close_file rotate_files
  next_file_lem s w z =
      Restarted-trans
        {t = record s { fd = none; file_offset = 0; rotation_count = add64 s.rotation_count 1 }}
        (record { same_region = refl; same_total = refl; at_start = z }) (opened_lem _ _ z)

  file_for_lem :
      (bytes : List ℕ) (s : MMapSink) (w : W)
      → s.mmap_offset ≡ 0
      → Restarted s (file_for os to_string bytes s w).1
  file_for_lem bytes s w z =
      either (λ (r : Bool × MMapSink × W). Restarted s r.1)
        (ltb s.max_file_size (add64 s.file_offset (length bytes))) {x = next_file os to_string s w}
        {y = (true, s, w)} (next_file_lem s w z)
        (record { same_region = refl; same_total = refl; at_start = z })

  -- What `write` may leave: nothing stored, or all the bytes stored within the region.
  abbrev pub Wrote : MMapSink → List ℕ → Outcome W → Type 0
  Wrote s bytes (returned n t w) =
      ((n ≡ 0) ⊎ (n ≡ length bytes))
      × (t.total_bytes_written ≡ add64 s.total_bytes_written n)
      × IsSink t
      × (t.region_size ≡ s.region_size)
  Wrote s bytes (terminated w) = Unit {0}

  append-Wrote :
      (addr : ℕ) (bytes : List ℕ) (s : MMapSink) (w : W)
      → IsSink s
      → s.mmap_offset + length bytes ≤ s.region_size
      → Wrote s bytes (append os to_string addr bytes s w)
  append-Wrote addr bytes s w v fits = (
    inr refl,
    refl,
    record {
      offset_le = omega (arith, v.region_lt);
      region_lt = v.region_lt;
      total_lt = omega arith;
    },
    refl,
  )

  refused_Wrote :
      (bytes : List ℕ) (s : MMapSink) (w : W) → IsSink s → Wrote s bytes (returned 0 s w)
  refused_Wrote bytes s w v = (inl refl, omega (arith, v.total_lt), v, refl)

  append_to-Wrote :
      (ptr : Option ℕ) (bytes : List ℕ) (s : MMapSink) (w : W)
      → IsSink s
      → s.mmap_offset + length bytes ≤ s.region_size
      → Wrote s bytes (append_to os to_string ptr bytes s w)
  append_to-Wrote (some addr) bytes s w v fits = append-Wrote addr bytes s w v fits
  append_to-Wrote none bytes s w v fits = refused_Wrote bytes s w v

  -- The outcome from a restarted sink is one from the sink before.
  Wrote-from :
      {s t : MMapSink} (bytes : List ℕ) (o : Outcome W)
      → Restarted s t
      → Wrote t bytes o
      → Wrote s bytes o
  Wrote-from bytes (returned n u w) r (a, b, c, d) =
      (a, b ∙ ap (λ k. add64 k n) r.same_total, c, d ∙ r.same_region)
  Wrote-from bytes (terminated w) r done = done

  Restarted-IsSink : {s t : MMapSink} → IsSink s → Restarted s t → IsSink t
  Restarted-IsSink v r = record {
    offset_le = omega (arith, r.at_start);
    region_lt = omega (arith, v.region_lt, r.same_region);
    total_lt = omega (arith, v.total_lt, r.same_total);
  }

  remap-Wrote :
      (bytes : List ℕ) (s : MMapSink) (r : Bool × MMapSink × W)
      → IsSink s
      → Restarted s r.1
      → length bytes ≤ s.region_size
      → Wrote s bytes (remap os to_string bytes r)
  unfolding map_region
  remap-Wrote bytes s (false, t, w) v r fits = tt
  remap-Wrote bytes s (true, t, w) v r fits =
      let again = Restarted-trans r (map_file_lem t w t.fd r.at_start) in
      Wrote-from bytes _ again (
        append_to-Wrote (map_file os to_string t w t.fd).0.mmap_ptr bytes
          (map_file os to_string t w t.fd).0 (map_file os to_string t w t.fd).1
          (Restarted-IsSink v again) (omega (arith, again.at_start, again.same_region)))

  next_region-Wrote :
      (addr : ℕ) (bytes : List ℕ) (s : MMapSink) (w : W)
      → IsSink s
      → length bytes ≤ s.region_size
      → Wrote s bytes (next_region os to_string addr bytes s w)
  unfolding next_region unmap_region
  next_region-Wrote addr bytes s w v fits =
      let unmapped : Restarted s (unmap_region os to_string s w).0 = record {
        same_region = refl;
        same_total = refl;
        at_start = refl;
      } in
      remap-Wrote bytes s (file_for os to_string bytes (unmap_region os to_string s w).0 _) v
        (Restarted-trans unmapped (file_for_lem bytes (unmap_region os to_string s w).0 _ refl))
        fits

  -- For a sink whose offset is within its region, and bytes no longer than the region, whatever the
  -- system answers, `write` ends the process, or it returns 0 or the number of the bytes, counts
  -- what it returns, and leaves the offset after the bytes within the region.
  pub write-Wrote :
      (bytes : List ℕ) (s : MMapSink) (w : W)
      → IsSink s
      → length bytes ≤ s.region_size
      → Wrote s bytes (write os to_string bytes s w)
  unfolding write
  write-Wrote bytes s w v fits =
      either (Wrote s bytes) (length bytes == 0) (refused_Wrote bytes s w v) (on_ptr s.mmap_ptr)
    where
      on_ptr : (ptr : Option ℕ) → Wrote s bytes (write_to os to_string ptr bytes s w)
      on_ptr none = refused_Wrote bytes s w v
      on_ptr (some addr) = elim (dec_lt s.region_size (add64 s.mmap_offset (length bytes))) [
        | yes lt ↦
            subst (Wrote s bytes) (sym (if-true _ _ (lt→ltb _ _ lt)))
              (next_region-Wrote addr bytes s w v fits)
        | no ge ↦
            subst (Wrote s bytes)
              (sym (
                if-false _ _
                  (ge→ltb_false s.region_size (add64 s.mmap_offset (length bytes)) (omega arith))))
              (append-Wrote addr bytes s w v (omega (arith, v.offset_le, v.region_lt)))
      ]
