-- ===== src/Sink/Stored.antt =====
-- src/mmap_sink.cpp: the bytes of the file under `write`, for a sink of 128-byte records that stays
-- below the limit for rotation.
use mpmc_logger.Prelude.{
  ℕ, ◌+◌, ◌-◌, ◌*◌, ◌≤◌, ◌<◌, ◌≡◌, refl, sym, ap, ◌∙◌, false, Option, none, some, List, ◌++◌, arith,
  length, length-append, dec_lt, if-true, if-false, ap₂, subst, lt→ltb, ge→ltb_false, ltb,
  if◌then◌else◌, append-nil,
}
use mpmc_logger.Entry.{entry_size}
use mpmc_logger.Sink.{
  Os, MMapSink, Outcome, returned, terminated, add64, mapped_at, extended, map_file, map_region,
  unmap_region, append, append_to, append_if_mapped, file_for, remap, next_region, write_to, write,
}
use mpmc_logger.Sink.Region.{
  IsBetween, IsBinary, advance, advance-IsBinary, mapped-IsBinary, unmapped-IsBetween,
}
use mpmc_logger.Sink.Region.{test_zero}
use mpmc_logger.Sink.Disk.{Disk, zeros, length-zeros, overwrite, overwrite-zeros}

module _ {W : Type 0} {os : Os W} {page : ℕ} (disk : Disk os page) (limit fd : ℕ) where
  open disk use {content, Maps}

  -- The sink has a region, and its file consists of these bytes and the rest of the region.
  pub record IsStored (s : MMapSink) (w : W) (bytes : List ℕ) : Type 0 where
    pub binary : IsBinary page limit s
    pub same_fd : binary.descriptor ≡ fd
    pub max_eq : s.max_file_size ≡ limit
    pub size : length bytes ≡ s.file_offset
    pub window : Maps w binary.address fd (binary.base * page) s.region_size
    pub content_eq : content fd w ≡ bytes ++ zeros (s.region_size - s.mmap_offset)

  -- The sink has no region, and its file consists of these bytes.
  pub record IsUnmapped (s : MMapSink) (w : W) (bytes : List ℕ) : Type 0 where
    pub between : IsBetween page limit s
    pub same_fd : between.descriptor ≡ fd
    pub max_eq : s.max_file_size ≡ limit
    pub size : length bytes ≡ s.file_offset
    pub content_eq : content fd w ≡ bytes

module _ {W : Type 0} {os : Os W} {page : ℕ} (disk : Disk os page) (limit fd : ℕ)
    (to_string : ℕ → List ℕ) where
  open disk use {content, Maps, extend, map_at, map_lt, store_at, madvise_keeps, msync_keeps}
  open disk use {munmap_keeps}

  -- The outcome of a write of a record after which the file consists of these bytes.
  abbrev pub Stored : List ℕ → Outcome W → Type 0
  Stored bytes (returned n t w) = (n ≡ entry_size) × IsStored disk limit fd t w bytes
  Stored bytes (terminated w) = ⊥

  module _ (rec : List ℕ) (len : length rec ≡ entry_size) (s : MMapSink) (w : W)
      {done : List ℕ} where
    pub append-Stored :
        (v : IsStored disk limit fd s w done)
        → s.mmap_offset + entry_size ≤ s.region_size
        → Stored (done ++ rec) (append os to_string v.binary.address rec s w)
    unfolding advance-IsBinary
    append-Stored v fits =
        let b = v.binary in
        let all_of : length (content fd w) ≡ b.base * page + s.region_size =
          ap length v.content_eq
          ∙ omega (
            arith,
            length-append done (zeros (s.region_size - s.mmap_offset)),
            length-zeros (s.region_size - s.mmap_offset),
            v.size,
            b.base_eq,
            b.offset_le,
          ) in
        let (window, bytes) =
          store_at v.window s.mmap_offset rec (omega arith) (omega (arith, all_of)) in
        let addr_eq : add64 b.address s.mmap_offset ≡ b.address + s.mmap_offset =
          omega (arith, map_lt v.window) in
        subst
          (λ a.
            Stored (done ++ rec)
              (returned (length rec) (advance (length rec) s) (os.store a rec w)))
          (sym addr_eq)
          (
            len,
            record {
              binary = advance-IsBinary s b (length rec) len fits;
              same_fd = v.same_fd;
              max_eq = v.max_eq;
              size =
                  omega
                    (arith, length-append done rec, v.size, b.base_eq, b.base_le, b.region.no_wrap);
              window = window;
              content_eq =
                  bytes
                  ∙ ap (overwrite (b.base * page + s.mmap_offset) rec) v.content_eq
                  ∙ overwrite-zeros (b.base * page + s.mmap_offset) done rec
                      (s.region_size - s.mmap_offset) (omega (arith, v.size, b.base_eq))
                  ∙ ap (λ n. (done ++ rec) ++ zeros n)
                      {y = s.region_size - add64 s.mmap_offset (length rec)}
                      (omega (arith, b.region.no_wrap));
            },
          )

  -- The file grows by a region of zero bytes, and the region is mapped at its old end.
  pub map_region_stores :
      (s : MMapSink) (w : W) {done : List ℕ} (v : IsUnmapped disk limit fd s w done)
      → v.between.base * page ≤ limit
      → (t : MMapSink) × (w' : W) × (map_region os to_string s w ≡ (t, w'))
        × IsStored disk limit fd t w' done
        × (t.mmap_offset ≡ 0)
  unfolding map_region mapped-IsBinary
  map_region_stores s w {done} v le =
      let b = v.between in
      let base = b.base * page in
      let len = add64 s.file_offset s.region_size in
      let size : length (content fd w) ≡ base =
        omega (arith, ap length v.content_eq, v.size, b.base_eq) in
      let len_eq : len ≡ base + s.region_size =
        omega (arith, b.base_eq, b.base_le, b.region.no_wrap) in
      let (grown, longer) =
        extend fd len w (omega (arith, len_eq, size))
          (omega (arith, len_eq, b.base_le, b.region.no_wrap)) in
      let w1 = (os.ftruncate fd len w).1 in
      let (addr, found, window, same) =
        map_at s.region_size fd b.base w1 (omega (arith, b.region.no_wrap)) in
      let w2 = (os.mmap s.region_size fd base w1).1 in
      let (window', same') = madvise_keeps window addr s.region_size in
      (
        record s { mmap_ptr = some addr; mmap_offset = 0 },
        os.madvise addr s.region_size w2,
        ap (map_file os to_string s w) (b.is_open ∙ ap some v.same_fd)
            ∙ ap (λ ok. extended os to_string s fd (ok, w1)) grown
            ∙ ap (λ off. mapped_at os to_string s (os.mmap s.region_size fd off w1)) b.base_eq
            ∙ ap (λ o. mapped_at os to_string s (o, w2)) found,
        record {
          binary = mapped-IsBinary s addr b le;
          same_fd = v.same_fd;
          max_eq = v.max_eq;
          size = v.size;
          window = window';
          content_eq =
              same'
              ∙ same
              ∙ longer
              ∙ ap₂ (λ l n. l ++ zeros n) {u = len - length (content fd w)} {v = s.region_size - 0}
                  v.content_eq (omega (arith, len_eq, size));
        },
        refl,
      )

  -- The system after the mapped part of a full region is handed over.
  abbrev pub synced : (addr : ℕ) → MMapSink → W → W
  synced addr s w = if ltb 0 s.mmap_offset then os.msync addr s.mmap_offset false w else w

  -- A full region holds no byte but the written ones.
  pub leave-IsUnmapped :
      (s : MMapSink) (w : W) {done : List ℕ} (v : IsStored disk limit fd s w done)
      → s.region_size < s.mmap_offset + entry_size
      → IsUnmapped disk limit fd
          (record s { mmap_ptr = none; mmap_offset = 0 })
          (os.munmap v.binary.address s.region_size (synced v.binary.address s w))
          done
  unfolding unmapped-IsBetween
  leave-IsUnmapped s w {done} v full =
      let b = v.binary in
      let w0 = synced b.address s w in
      let same : content fd w0 ≡ content fd w = elim (dec_lt 0 s.mmap_offset) [
        | yes lt ↦
            ap (content fd) (if-true _ _ (lt→ltb _ _ lt))
            ∙ (msync_keeps v.window b.address s.mmap_offset false).1
        | no ge ↦ ap (content fd) (if-false _ _ (ge→ltb_false 0 s.mmap_offset (omega arith)))
      ] in
      record {
        between = unmapped-IsBetween s b full;
        same_fd = v.same_fd;
        max_eq = v.max_eq;
        size = v.size;
        content_eq =
            munmap_keeps b.address s.region_size fd w0
            ∙ same
            ∙ v.content_eq
            ∙ ap (λ n. done ++ zeros n) {y = 0}
                (omega (arith, b.offset_eq, b.offset_le, b.region.records_eq))
            ∙ append-nil done;
      }

  module _ (rec : List ℕ) (len : length rec ≡ entry_size) where
    first_Stored :
        (s : MMapSink) (w : W) {done : List ℕ} (v : IsUnmapped disk limit fd s w done)
        → length done + entry_size ≤ limit
        → Stored (done ++ rec) (remap os to_string rec (file_for os to_string rec s w))
    first_Stored s w {done} v le =
        let b = v.between in
        let (t, w', e, u, start) = map_region_stores s w v (omega (arith, v.size, b.base_eq)) in
        subst (λ r. Stored (done ++ rec) (remap os to_string rec r))
          (sym (
            if-false _ _ (
              ge→ltb_false s.max_file_size (add64 s.file_offset (length rec))
                (omega (arith, v.size, v.max_eq, b.region.no_wrap)))))
          (subst (λ r. Stored (done ++ rec) (append_if_mapped os to_string rec r)) (sym e)
            (subst (λ p. Stored (done ++ rec) (append_to os to_string p rec t w'))
              (sym u.binary.is_mapped)
              (append-Stored rec len t w' u (omega (arith, start, u.binary.region.records_eq)))))

    -- A record that does not fit begins a new region, and the file grows by it.
    full_Stored :
        (s : MMapSink) (w : W) {done : List ℕ} (v : IsStored disk limit fd s w done)
        → s.region_size < s.mmap_offset + entry_size
        → length done + entry_size ≤ limit
        → Stored (done ++ rec) (next_region os to_string v.binary.address rec s w)
    unfolding next_region unmap_region
    full_Stored s w {done} v full le =
        let b = v.binary in
        let w0 = synced b.address s w in
        let s1 = record s { mmap_ptr = none; mmap_offset = 0 } in
        let stored = λ (p : Option ℕ). Stored (done ++ rec) (
          remap os to_string rec (
            file_for os to_string rec s1
              (elim p [ some addr ↦ os.munmap addr s.region_size w0 | none ↦ w0 ]))) in
        subst stored (sym b.is_mapped)
          (first_Stored s1 (os.munmap b.address s.region_size w0) (leave-IsUnmapped s w v full) le)

    -- On a disk that works, and below the limit for rotation, a `write` of 128 bytes to a sink in a
    -- region of whole pages and whole records returns 128 and leaves a file that holds these bytes
    -- after those written before, and zero bytes up to the end of the mapped region.
    pub write-Stored :
        (s : MMapSink) (w : W) (done : List ℕ)
        → IsStored disk limit fd s w done
        → length done + entry_size ≤ limit
        → Stored (done ++ rec) (write os to_string rec s w)
    unfolding write
    write-Stored s w done v le =
        let b = v.binary in
        subst (Stored (done ++ rec))
          (sym (
            if-false _ _ (test_zero (length rec) (omega arith))
            ∙ ap (λ p. write_to os to_string p rec s w) b.is_mapped))
          (elim (dec_lt s.region_size (add64 s.mmap_offset (length rec))) [
            | yes lt ↦
                subst (Stored (done ++ rec)) (sym (if-true _ _ (lt→ltb _ _ lt)))
                  (full_Stored s w v (omega (arith, b.offset_le, b.region.no_wrap)) le)
            | no ge ↦
                subst (Stored (done ++ rec))
                  (sym (
                    if-false _ _ (
                      ge→ltb_false s.region_size (add64 s.mmap_offset (length rec)) (omega arith))))
                  (append-Stored rec len s w v (omega (arith, b.offset_le, b.region.no_wrap)))
          ])
