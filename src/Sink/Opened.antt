-- ===== src/Sink/Opened.antt =====
-- src/mmap_sink.cpp: the bytes of the file under the constructor, `flush` and the destructor.
use mpmc_logger.Prelude.{
  ℕ, ◌+◌, ◌*◌, ◌-◌, ◌^◌, ◌≤◌, ◌<◌, ◌≡◌, refl, sym, ap, ◌∙◌, true, none, some, List, ◌++◌, arith,
  length, dec_lt, if-true, if-false, if◌then◌else◌, ltb, lt→ltb, ge→ltb_false, subst,
}
use mpmc_logger.Entry.{entry_size}
use mpmc_logger.Sink.{
  Os, MMapSink, sized, opened, open_file, map_opened, blank_sink, new_sink, parent, with_parent,
  unmap_region, close_file, flush, delete_sink,
}
use mpmc_logger.Sink.Disk.{Disk, zeros}
use mpmc_logger.Sink.Stored.{IsStored, map_region_stores}

module _ {W : Type 0} {os : Os W} {page : ℕ} (disk : Disk os page) (limit fd : ℕ)
    (to_string : ℕ → List ℕ) where
  open disk use {content, Maps, fstat_tells, msync_keeps, munmap_keeps, close_keeps}

  -- A sink on a file of whole pages below the limit has its first region mapped at the file's end,
  -- and the file holds its old bytes and a region of zero bytes.
  pub new_sink-IsStored :
      (path : List ℕ) (region_size max_rotated : ℕ) (w : W) (start : List ℕ) (records pages k : ℕ)
      → region_size ≡ (1 + records) * entry_size
      → region_size ≡ pages * page
      → limit + region_size + region_size < 2 ^ 63
      → (os.open_path path (with_parent os to_string (parent path) w)).0 ≡ some fd
      → content fd (os.open_path path (with_parent os to_string (parent path) w)).1 ≡ start
      → length start ≡ k * page
      → length start ≤ limit
      → (s : MMapSink) × (w' : W) × (new_sink os to_string path region_size limit max_rotated w
          ≡ (true, s, w'))
        × IsStored disk limit fd s w' start
  unfolding new_sink open_file
  new_sink-IsStored path region_size max_rotated w start records pages k whole even small found
        holds at le =
      let blank = blank_sink os to_string path region_size limit max_rotated in
      let answer = os.open_path path (with_parent os to_string (parent path) w) in
      let w1 = answer.1 in
      let (told, same) = fstat_tells fd w1 in
      let size = length (content fd w1) in
      let s1 = record blank { fd = some fd; file_offset = size } in
      let size_eq : size ≡ length start = ap length holds in
      let (s, w', mapped, stored, zero) =
        map_region_stores disk limit fd to_string s1 (os.fstat fd w1).1 {done = start}
          (record {
            between = record {
              region = record {
                records = records;
                pages = pages;
                records_eq = whole;
                pages_eq = even;
                max_le = omega arith;
                no_wrap = small;
              };
              base = k;
              descriptor = fd;
              is_open = refl;
              at_start = refl;
              base_eq = size_eq ∙ at;
              base_le = omega (arith, at);
            };
            same_fd = refl;
            max_eq = refl;
            size = sym size_eq;
            content_eq = same ∙ holds;
          })
          (omega (arith, at)) in
      (
        s,
        w',
        ap (λ o. map_opened os to_string (opened os to_string blank (o, w1))) found
            ∙ ap
                (λ n.
                  map_opened os to_string (
                    true,
                    sized os to_string n (record blank { fd = some fd }),
                    (os.fstat fd w1).1,
                  ))
                told
            ∙ ap (λ r. (true, r.0, r.1)) mapped,
        stored,
      )

  -- `flush` leaves the sink's file and mapping.
  pub flush-IsStored :
      (s : MMapSink) (w : W) (done : List ℕ)
      → IsStored disk limit fd s w done
      → IsStored disk limit fd s (flush os to_string s w) done
  unfolding flush
  flush-IsStored s w done v =
      let b = v.binary in
      let synced = msync_keeps v.window b.address s.mmap_offset true in
      let kept : W → Type 0 = λ w'. IsStored disk limit fd s w' done in
      subst kept
        (sym (
          ap
            (λ p. elim p [
              | some addr ↦ if ltb 0 s.mmap_offset then os.msync addr s.mmap_offset true w else w
              | none ↦ w
            ])
            b.is_mapped))
        (elim (dec_lt 0 s.mmap_offset) [
          | yes lt ↦ subst kept (sym (if-true _ _ (lt→ltb _ _ lt))) (record {
            binary = b;
            same_fd = v.same_fd;
            max_eq = v.max_eq;
            size = v.size;
            window = synced.0;
            content_eq = synced.1 ∙ v.content_eq;
          })
          | no ge ↦ subst kept (sym (if-false _ _ (ge→ltb_false 0 s.mmap_offset (omega arith)))) v
        ])

  -- After the destructor the file holds what was written and the zero bytes up to the end of the
  -- region: it is not cut to its length.
  pub delete_sink_keeps :
      (s : MMapSink) (w : W) (done : List ℕ)
      → IsStored disk limit fd s w done
      → content fd (delete_sink os to_string s w).1 ≡ done ++ zeros (s.region_size - s.mmap_offset)
  unfolding delete_sink unmap_region close_file
  delete_sink_keeps s w done v =
      let b = v.binary in
      let f = flush-IsStored s w done v in
      let w1 = flush os to_string s w in
      ap
        (λ p. content fd (elim p [
          | some d ↦ os.close d (unmap_region os to_string s w1).1
          | none ↦ (unmap_region os to_string s w1).1
        ]))
        (b.is_open ∙ ap some v.same_fd)
      ∙ close_keeps fd (unmap_region os to_string s w1).1
      ∙ ap (λ p. content fd (elim p [ some addr ↦ os.munmap addr s.region_size w1 | none ↦ w1 ]))
          b.is_mapped
      ∙ munmap_keeps b.address s.region_size fd w1
      ∙ f.content_eq
