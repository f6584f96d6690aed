-- ===== src/Logger/File.antt =====
-- src/logger.cpp with binary output, src/mmap_sink.cpp and tools/log_reader.cpp together: from the
-- entries that the drain thread handles to the bytes of the file, and back.
use mpmc_logger.Prelude.{
  ℕ, ◌+◌, ◌*◌, ◌≤◌, ◌≡◌, refl, sym, ap, ◌∙◌, none, some, List, [], ◌∷◌, ◌++◌, arith, length, take,
  ◌>>=◌, append_assoc, append-nil, subst, length-append, take-append_length, take_all, length-take,
}
use mpmc_logger.Entry.{LogEntry, IsEntry, entry_size, layout, fast_copy_128}
use mpmc_logger.Entry.Codec.{length-layout}
use mpmc_logger.Entry.Copy.{fast_copy_128-eq-memcpy}
use mpmc_logger.Format.{format_binary, max_formatted_size}
use mpmc_logger.Sink.{Os, MMapSink, Outcome, returned, terminated, add64, write}
use mpmc_logger.Sink.Disk.{Disk}
use mpmc_logger.Sink.Stored.{IsStored, Stored, write-Stored}
use mpmc_logger.Logger.{binary, DrainState, format_entry, after_write, handle}
use mpmc_logger.Logger.Drain.{handle_all}
use mpmc_logger.Logger.Binary.{AllEntries, length-formatted}
use mpmc_logger.Reader.Back.{file_of}

module _ {W : Type 0} {os : Os W} {page : ℕ} (disk : Disk os page) (limit fd : ℕ)
    (to_string : ℕ → List ℕ) (date_of : ℕ → List ℕ) where
  -- The drain thread has its buffer, and a sink whose file consists of these bytes.
  pub record IsFiled (d : DrainState W) (bytes : List ℕ) : Type 0 where
    pub the_sink : MMapSink
    pub sink_eq : d.sink ≡ some the_sink
    pub stored : IsStored disk limit fd the_sink d.world bytes
    pub buf_full : length d.buf ≡ max_formatted_size

  after_Stored :
      (d : DrainState W) (o : Outcome W) (bytes : List ℕ)
      → Stored disk limit fd to_string bytes o
      → length d.buf ≡ max_formatted_size
      → (d' : DrainState W) × (after_write os to_string date_of d o ≡ some d') × IsFiled d' bytes
  after_Stored d (returned n s w) bytes r full = (
    record d { sink = some s; world = w },
    refl,
    record { the_sink = s; sink_eq = refl; stored = r.1; buf_full = full },
  )
  after_Stored d (terminated w) bytes r full = absurd r

  -- The 128 bytes that the drain thread takes from its buffer are the entry's.
  record_bytes :
      (e : LogEntry) (buf : List ℕ)
      → IsEntry e
      → length buf ≡ max_formatted_size
      → take entry_size (fast_copy_128 buf (layout e)) ≡ layout e
  record_bytes e buf v full =
      let size = length-layout e v in
      let whole : take 128 (layout e) ≡ layout e = take_all 128 (layout e) (omega (arith, size)) in
      ap (take entry_size) (fast_copy_128-eq-memcpy buf (layout e) (omega (arith, size)))
      ∙ take-append_length entry_size (take 128 (layout e)) _
          (omega (arith, size, length-take 128 (layout e)))
      ∙ whole

  handle-IsFiled :
      (e : LogEntry) (d : DrainState W) (bytes : List ℕ)
      → IsEntry e
      → IsFiled d bytes
      → length bytes + entry_size ≤ limit
      → (d' : DrainState W) × (handle os to_string date_of binary e d ≡ some d')
        × IsFiled d' (bytes ++ layout e)
  unfolding handle format_entry format_binary
  handle-IsFiled e d bytes v g le =
      let buf = fast_copy_128 d.buf (layout e) in
      let full = length-formatted e d.buf v g.buf_full in
      let d1 = record d { drained = add64 d.drained 1; buf = buf } in
      let rec = take entry_size buf in
      let rec_eq = record_bytes e d.buf v g.buf_full in
      let (d', done, good) =
        after_Stored d1 (write os to_string rec g.the_sink d1.world) (bytes ++ rec)
          (write-Stored disk limit fd to_string rec (ap length rec_eq ∙ length-layout e v)
            g.the_sink d1.world bytes g.stored le)
          full in
      (
        d',
        ap
              (λ k. elim k [
                | none ↦ some d1
                | some s ↦ after_write os to_string date_of d1 (write os to_string rec s d1.world)
              ])
              g.sink_eq
            ∙ done,
        subst (λ r. IsFiled d' (bytes ++ r)) rec_eq good,
      )

  -- With binary output, on a disk that works, a sink in a region of whole pages and whole records,
  -- and room below the limit for rotation, the drain thread handles every entry within its widths:
  -- the process does not end, and the file then holds the records of the entries in order after the
  -- bytes that it held before.
  pub handle_all-IsFiled :
      (es : List LogEntry) (d : DrainState W) (bytes : List ℕ)
      → AllEntries es
      → IsFiled d bytes
      → length bytes + length es * entry_size ≤ limit
      → (d' : DrainState W) × (handle_all os to_string date_of binary es d ≡ some d')
        × IsFiled d' (bytes ++ file_of es)
  unfolding handle_all
  handle_all-IsFiled [] d bytes all g le = (d, refl, subst (IsFiled d) (sym (append-nil bytes)) g)
  handle_all-IsFiled (e ∷ es) d bytes all g le =
      let (d1, first, g1) = handle-IsFiled e d bytes all.0 g (omega arith) in
      let (d2, rest, g2) =
        handle_all-IsFiled es d1 (bytes ++ layout e) all.1 g1
          (omega (arith, length-append bytes (layout e), length-layout e all.0)) in
      (
        d2,
        ap (λ o. o >>= handle_all os to_string date_of binary es) first ∙ rest,
        subst (IsFiled d2) (append_assoc bytes (layout e) (file_of es)) g2,
      )
