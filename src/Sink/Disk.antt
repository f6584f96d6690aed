-- ===== src/Sink/Disk.antt =====
-- src/mmap_sink.cpp: what the sink relies on of the operating system for the bytes of its file, as
-- the manual pages of ftruncate(2), mmap(2) and msync(2) describe a shared mapping of a file.
use mpmc_logger.Prelude.{
  ℕ, zero, suc, ◌+◌, ◌-◌, ◌*◌, ◌≤◌, ◌<◌, ◌≡◌, sym, ap, ◌∙◌, ◌^◌, Bool, true, some, List, ◌++◌,
  arith, length, take, drop, replicate, length-replicate, take-append_length, drop-append,
  append_assoc,
}
use mpmc_logger.Sink.{Os}

-- Bytes written over a file's, from a place within it.
abbrev pub overwrite : ℕ → List ℕ → List ℕ → List ℕ
overwrite at bytes old = take at old ++ (bytes ++ drop (at + length bytes) old)

abbrev pub zeros : ℕ → List ℕ
zeros n = replicate n 0

pub length-zeros : (n : ℕ) → length (zeros n) ≡ n
length-zeros n = length-replicate n 0

pub drop-zeros : (k n : ℕ) → drop k (zeros n) ≡ zeros (n - k)
drop-zeros zero n = ap zeros (omega arith)
drop-zeros (suc k) zero = ap zeros {x = 0} (omega arith)
drop-zeros (suc k) (suc n) = drop-zeros k n ∙ ap zeros {x = n - k} (omega arith)

-- Bytes at the end of the written part take the place of as many zero bytes after it.
pub overwrite-zeros :
    (at : ℕ) (done bytes : List ℕ) (pad : ℕ)
    → at ≡ length done
    → overwrite at bytes (done ++ zeros pad) ≡ (done ++ bytes) ++ zeros (pad - length bytes)
overwrite-zeros at done bytes pad e =
    ap (λ l. l ++ (bytes ++ drop (at + length bytes) (done ++ zeros pad)))
      (take-append_length at done (zeros pad) e)
    ∙ ap (λ l. done ++ (bytes ++ l))
        (drop-append (at + length bytes) (length bytes) done (zeros pad) (omega arith)
          ∙ drop-zeros (length bytes) pad)
    ∙ sym (append_assoc done bytes (zeros (pad - length bytes)))

module _ {W : Type 0} (os : Os W) where
  -- The bytes of the file that a descriptor was last opened on, and the mappings that are in force: the address, the
  -- descriptor, the place in the file, and the length.
  pub record Disk (page : ℕ) : Type 1 where
    pub content : ℕ → W → List ℕ
    pub Maps : W → (addr fd offset len : ℕ) → Type 0
    pub extend :
        (fd len : ℕ) (w : W)
        → length (content fd w) ≤ len
        → len < 2 ^ 63
        → ((os.ftruncate fd len w).0 ≡ true)
          × (content fd (os.ftruncate fd len w).1
              ≡ content fd w ++ zeros (len - length (content fd w)))
    pub map_at :
        (len fd k : ℕ) (w : W)
        → len < 2 ^ 63
        → (addr : ℕ) × ((os.mmap len fd (k * page) w).0 ≡ some addr)
          × Maps (os.mmap len fd (k * page) w).1 addr fd (k * page) len
          × (content fd (os.mmap len fd (k * page) w).1 ≡ content fd w)
    -- A mapping ends before the end of the address space.
    pub map_lt : {w : W} {addr fd offset len : ℕ} → Maps w addr fd offset len → addr + len < 2 ^ 64
    pub store_at :
        {w : W} {addr fd offset len : ℕ}
        → Maps w addr fd offset len
        → (at : ℕ) (bytes : List ℕ) → at + length bytes ≤ len
        → offset + len ≤ length (content fd w)
        → Maps (os.store (addr + at) bytes w) addr fd offset len
          × (content fd (os.store (addr + at) bytes w)
              ≡ overwrite (offset + at) bytes (content fd w))
    pub madvise_keeps :
        {w : W} {addr fd offset len : ℕ}
        → Maps w addr fd offset len
        → (a n : ℕ)
        → Maps (os.madvise a n w) addr fd offset len
          × (content fd (os.madvise a n w) ≡ content fd w)
    pub msync_keeps :
        {w : W} {addr fd offset len : ℕ}
        → Maps w addr fd offset len
        → (a n : ℕ) (sync : Bool)
        → Maps (os.msync a n sync w) addr fd offset len
          × (content fd (os.msync a n sync w) ≡ content fd w)
    pub munmap_keeps : (addr len fd : ℕ) (w : W) → content fd (os.munmap addr len w) ≡ content fd w
    pub close_keeps : (fd : ℕ) (w : W) → content fd (os.close fd w) ≡ content fd w
    pub fstat_tells :
        (fd : ℕ) (w : W)
        → ((os.fstat fd w).0 ≡ some (length (content fd w)))
          × (content fd (os.fstat fd w).1 ≡ content fd w)
