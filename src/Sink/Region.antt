-- ===== src/Sink/Region.antt =====
-- src/mmap_sink.cpp: the offsets of a sink of 128-byte records, in a region of whole pages and
-- whole records.
use native.Mathlib.Nat.{add-mul}
use mpmc_logger.Prelude.{
  ℕ, ◌+◌, ◌^◌, ◌*◌, ◌≤◌, ◌<◌, ◌≡◌, refl, sym, ap, ◌∙◌, none, some, arith, false, ◌==◌,
}
use mpmc_logger.Entry.{entry_size}
use mpmc_logger.Sink.{MMapSink, add64}

-- The sizes of a sink of 128-byte records: a region is a whole number of pages and of records.
pub record IsRegion (page limit : ℕ) (s : MMapSink) : Type 0 where
  pub records : ℕ
  pub pages : ℕ
  pub records_eq : s.region_size ≡ (1 + records) * entry_size
  pub pages_eq : s.region_size ≡ pages * page
  pub max_le : s.max_file_size ≤ limit
  pub no_wrap : limit + s.region_size + s.region_size < 2 ^ 63

pub resized :
    {page limit : ℕ} {s t : MMapSink} (v : IsRegion page limit s)
    → t.region_size ≡ s.region_size
    → t.max_file_size ≡ s.max_file_size
    → IsRegion page limit t
resized v same max = record {
  records = v.records;
  pages = v.pages;
  records_eq = same ∙ v.records_eq;
  pages_eq = same ∙ v.pages_eq;
  max_le = omega (arith, v.max_le);
  no_wrap = omega (arith, v.no_wrap);
}

-- The sink before it maps a region: the region will begin at a whole page.
pub record IsBetween (page limit : ℕ) (s : MMapSink) : Type 0 where
  pub region : IsRegion page limit s
  pub base : ℕ
  pub descriptor : ℕ
  pub is_open : s.fd ≡ some descriptor
  pub at_start : s.mmap_offset ≡ 0
  pub base_eq : s.file_offset ≡ base * page
  pub base_le : base * page ≤ limit + s.region_size

-- The sink with a region, which began at a whole page and holds whole records so far.
pub record IsBinary (page limit : ℕ) (s : MMapSink) : Type 0 where
  pub region : IsRegion page limit s
  pub base : ℕ
  pub count : ℕ
  pub address : ℕ
  pub descriptor : ℕ
  pub is_mapped : s.mmap_ptr ≡ some address
  pub is_open : s.fd ≡ some descriptor
  pub offset_eq : s.mmap_offset ≡ count * entry_size
  pub offset_le : s.mmap_offset ≤ s.region_size
  pub base_eq : s.file_offset ≡ base * page + s.mmap_offset
  pub base_le : base * page ≤ limit

-- The three counters after a record that fits.
abbrev pub advance : ℕ → MMapSink → MMapSink
advance n s = record s {
  mmap_offset = add64 s.mmap_offset n;
  file_offset = add64 s.file_offset n;
  total_bytes_written = add64 s.total_bytes_written n;
}

module _ {page limit : ℕ} where
  unfoldable pub advance-IsBinary :
      (s : MMapSink) (v : IsBinary page limit s) (n : ℕ)
      → n ≡ entry_size
      → s.mmap_offset + entry_size ≤ s.region_size
      → IsBinary page limit (advance n s)
  advance-IsBinary s v n len fits = record {
    region = resized v.region refl refl;
    base = v.base;
    count = v.count + 1;
    address = v.address;
    descriptor = v.descriptor;
    is_mapped = v.is_mapped;
    is_open = v.is_open;
    offset_eq = omega (arith, v.offset_eq, v.region.no_wrap);
    offset_le = omega (arith, v.region.no_wrap);
    base_eq = omega (arith, v.base_eq, v.region.no_wrap, v.base_le);
    base_le = v.base_le;
  }

  unfoldable pub mapped-IsBinary :
      (s : MMapSink) (addr : ℕ) (v : IsBetween page limit s)
      → v.base * page ≤ limit
      → IsBinary page limit (record s { mmap_ptr = some addr; mmap_offset = 0 })
  mapped-IsBinary s addr v le = record {
    region = resized v.region refl refl;
    base = v.base;
    count = 0;
    address = addr;
    descriptor = v.descriptor;
    is_mapped = refl;
    is_open = v.is_open;
    offset_eq = omega arith;
    offset_le = omega arith;
    base_eq = omega (arith, v.base_eq);
    base_le = le;
  }

  -- A region of whole records is full to the last byte when a record does not fit.
  unfoldable pub unmapped-IsBetween :
      (s : MMapSink) (v : IsBinary page limit s)
      → s.region_size < s.mmap_offset + entry_size
      → IsBetween page limit (record s { mmap_ptr = none; mmap_offset = 0 })
  unmapped-IsBetween s v full =
      let exact : s.mmap_offset ≡ s.region_size =
        omega (arith, v.offset_eq, v.offset_le, v.region.records_eq) in
      record {
        region = resized v.region refl refl;
        base = v.base + v.region.pages;
        descriptor = v.descriptor;
        is_open = v.is_open;
        at_start = refl;
        base_eq =
            v.base_eq
            ∙ ap (λ n. v.base * page + n) (exact ∙ v.region.pages_eq)
            ∙ sym (add-mul v.base v.region.pages page);
        base_le = omega (arith, add-mul v.base v.region.pages page, v.base_le, v.region.pages_eq);
      }

pub test_zero : (n : ℕ) → 0 < n → (n == 0) ≡ false
test_zero n h = ground arith
