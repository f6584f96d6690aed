-- ===== src/Sink/Rotated.antt =====
-- src/mmap_sink.cpp: the bytes of the files under a `write` that rotates.
use mpmc_logger.Prelude.{
  ℕ, ◌+◌, ◌≤◌, ◌<◌, codes, ◌≡◌, refl, sym, ap, ◌∙◌, true, Option, none, some, List, [], arith,
  length, if-true, if-false, subst, lt→ltb,
}
use mpmc_logger.Entry.{entry_size}
use mpmc_logger.Sink.{
  Os, MMapSink, add64, map_region, unmap_region, append_to, append_if_mapped, file_for, next_file,
  remap, next_region, write_to, write, close_file, rotated_name, rotate_files, open_file, opened,
  sized,
}
use mpmc_logger.Queue.{u64_mod}
use mpmc_logger.Sink.Rotate.{FileLaws, rotate_files_shift, rotate_files_current}
use mpmc_logger.Sink.Region.{resized}
use mpmc_logger.Sink.Region.{test_zero}
use mpmc_logger.Sink.Disk.{Disk}
use mpmc_logger.Sink.Stored.{
  IsStored, IsUnmapped, Stored, synced, leave-IsUnmapped, map_region_stores, append-Stored,
}

module _ {W : Type 0} {os : Os W} {page : ℕ} (disk : Disk os page) (limit fd : ℕ)
    (to_string : ℕ → List ℕ) where
  open disk use {content, munmap_keeps, close_keeps, fstat_tells}

  -- The sink and the system after the file is closed.
  abbrev pub file_closed : (addr : ℕ) → MMapSink → W → MMapSink × W
  file_closed addr s w =
      let (s1, w1) = unmap_region os to_string s (synced disk limit fd to_string addr s w) in
      close_file os to_string s1 w1

  -- After the files have got their new names.
  abbrev pub renamed : (addr : ℕ) → MMapSink → W → MMapSink × W
  renamed addr s w = let (s1, w1) = file_closed addr s w in rotate_files os to_string s1 w1

  abbrev pub reopened : (addr : ℕ) → MMapSink → W → Option ℕ × W
  reopened addr s w = os.open_path s.base_path (renamed addr s w).1

  -- A new file that is empty is given a region.
  module _ (rec : List ℕ) (len : length rec ≡ entry_size) (next : ℕ) where
    fresh_Stored :
        (t : MMapSink) (w : W)
        → IsUnmapped disk limit next t w []
        → Stored disk limit next to_string rec
            (append_if_mapped os to_string rec (map_region os to_string t w))
    fresh_Stored t w v =
        let (t', w', e, u, start) =
          map_region_stores disk limit next to_string t w v
            (omega (arith, v.size, v.between.base_eq)) in
        subst (λ r. Stored disk limit next to_string rec (append_if_mapped os to_string rec r))
          (sym e)
          (subst (λ p. Stored disk limit next to_string rec (append_to os to_string p rec t' w'))
            (sym u.binary.is_mapped)
            (append-Stored disk limit next to_string rec len t' w' u
              (omega (arith, start, u.binary.region.records_eq))))

    -- The branch for a full region and a file at its limit.
    next_file_Stored :
        (s : MMapSink) (w : W) {done : List ℕ} (v : IsStored disk limit fd s w done)
        → s.region_size < s.mmap_offset + entry_size
        → limit < length done + entry_size
        → (reopened v.binary.address s w).0 ≡ some next
        → content next (reopened v.binary.address s w).1 ≡ []
        → Stored disk limit next to_string rec (next_region os to_string v.binary.address rec s w)
    unfolding next_region unmap_region close_file rotate_files open_file
    next_file_Stored s w {done} v full over opens empty =
        let b = v.binary in
        let w0 = synced disk limit fd to_string b.address s w in
        let w1 = (unmap_region os to_string s w0).1 in
        let s1 = record s { mmap_ptr = none; mmap_offset = 0 } in
        let w3 = (reopened b.address s w).1 in
        let (told, same) = fstat_tells next w3 in
        let s2 = (renamed b.address s w).0 in
        let t = record s2 { fd = some next; file_offset = length (content next w3) } in
        let tested : file_for os to_string rec s1 w1 ≡ next_file os to_string s1 w1 = if-true _ _ (
          lt→ltb s.max_file_size (add64 s.file_offset (length rec)) (
            omega
              (arith, v.size, v.max_eq, b.base_eq, b.base_le, b.offset_le, b.region.no_wrap))) in
        let next_eq : next_file os to_string s1 w1 ≡ (true, t, (os.fstat next w3).1) =
          ap (λ o. opened os to_string s2 (o, w3)) opens
          ∙ ap
              (λ n.
                (true, sized os to_string n (record s2 { fd = some next }), (os.fstat next w3).1))
              told in
        subst (λ r. Stored disk limit next to_string rec (remap os to_string rec r))
          (sym (tested ∙ next_eq))
          (fresh_Stored t (os.fstat next w3).1 (record {
            between = record {
              region = resized b.region refl refl;
              base = 0;
              descriptor = next;
              is_open = refl;
              at_start = refl;
              base_eq = omega (arith, ap length empty);
              base_le = omega arith;
            };
            same_fd = refl;
            max_eq = v.max_eq;
            size = sym (ap length empty);
            content_eq = same ∙ empty;
          }))

    -- The file that is closed holds the records, and nothing after them.
    closed_content :
        (s : MMapSink) (w : W) {done : List ℕ} (v : IsStored disk limit fd s w done)
        → s.region_size < s.mmap_offset + entry_size
        → content fd (file_closed v.binary.address s w).1 ≡ done
    unfolding unmap_region close_file
    closed_content s w {done} v full =
        let b = v.binary in
        let w0 = synced disk limit fd to_string b.address s w in
        ap
          (λ p. content fd (elim s.fd [
            | some d ↦
                os.close d (elim p [ some addr ↦ os.munmap addr s.region_size w0 | none ↦ w0 ])
            | none ↦ elim p [ some addr ↦ os.munmap addr s.region_size w0 | none ↦ w0 ]
          ]))
          b.is_mapped
        ∙ ap
            (λ p. content fd (elim p [
              | some d ↦ os.close d (os.munmap b.address s.region_size w0)
              | none ↦ os.munmap b.address s.region_size w0
            ]))
            (b.is_open ∙ ap some v.same_fd)
        ∙ close_keeps fd (os.munmap b.address s.region_size w0)
        ∙ (leave-IsUnmapped disk limit fd to_string s w v full).content_eq

    module _ {F : Type 0} {files : W → List ℕ → Option F} (laws : FileLaws os files)
        (distinct : (i j : ℕ) → to_string i ≡ to_string j → i ≡ j)
        (one : to_string 1 ≡ codes "1") where
      -- What the files are named after the rotation of `s`, from what they are named before it.
      pub record IsRenamed (s : MMapSink) (before after : W) : Type 0 where
        pub current : files after (rotated_name os to_string s 1) ≡ files before s.base_path
        pub base_free : files after s.base_path ≡ none
        pub older :
            (i : ℕ)
            → 1 ≤ i
            → i < s.max_rotated
            → files after (rotated_name os to_string s (i + 1))
              ≡ files before (rotated_name os to_string s i)

      renamed_files :
          (addr : ℕ) (s : MMapSink) (w : W)
          → 0 < s.max_rotated
          → s.max_rotated < u64_mod
          → IsRenamed s (file_closed addr s w).1 (renamed addr s w).1
      unfolding close_file unmap_region
      renamed_files addr s w some_kept lt =
          let (s1, w1) = file_closed addr s w in
          let (now, free) = rotate_files_current laws distinct s1 one some_kept lt w1 in
          record {
            current = now;
            base_free = free;
            older = rotate_files_shift laws distinct s1 one some_kept lt w1;
          }

      -- On a disk that works, with at least one old file kept, a `write` of 128 bytes to a sink
      -- whose region is full and whose file would exceed the limit closes the file, which then holds
      -- the bytes written before and no others. Then the file at the base path gets the name `.1`,
      -- each file `.i` below `max_rotated` the name `.(i + 1)`, and the base path is free; and a new
      -- file is opened there. Where that is opened and empty, the `write` returns 128, and the new
      -- file holds the bytes, and zero bytes up to the end of its first region.
      pub write_rotates :
          (s : MMapSink) (w : W) (done : List ℕ) (v : IsStored disk limit fd s w done)
          → s.region_size < s.mmap_offset + entry_size
          → limit < length done + entry_size
          → 0 < s.max_rotated
          → s.max_rotated < u64_mod
          → (reopened v.binary.address s w).0 ≡ some next
          → content next (reopened v.binary.address s w).1 ≡ []
          → (content fd (file_closed v.binary.address s w).1 ≡ done)
            × IsRenamed s (file_closed v.binary.address s w).1 (renamed v.binary.address s w).1
            × Stored disk limit next to_string rec (write os to_string rec s w)
      unfolding write
      write_rotates s w done v full over some_kept lt opens empty =
          let b = v.binary in
          (
            closed_content s w v full,
            renamed_files b.address s w some_kept lt,
            subst (Stored disk limit next to_string rec)
                (sym (
                  if-false _ _ (test_zero (length rec) (omega arith))
                  ∙ ap (λ p. write_to os to_string p rec s w) b.is_mapped
                  ∙ if-true _ _ (
                      lt→ltb s.region_size (add64 s.mmap_offset (length rec))
                        (omega (arith, b.offset_le, b.region.no_wrap)))))
                (next_file_Stored s w v full over opens empty),
          )
