-- ===== src/Tests/Files.antt =====
-- Tests of the sink over a disk where every file that is opened is a new one.
use mpmc_logger.Prelude.{
  ℕ, ◌+◌, ◌-◌, ◌^◌, ◌<◌, ◌≡◌, refl, ap, ◌∙◌, true, none, some, Option, codes, List, [], ◌++◌, arith,
  length, replicate, update, update_self,
}
use mpmc_logger.Sink.{Os, MMapSink, write, unmap_region, close_file, rotate_files, shift_files}
use mpmc_logger.Sink.Disk.{Disk, zeros, overwrite}
use mpmc_logger.Sink.Stored.{IsStored, Stored}
use mpmc_logger.Sink.Rotated.{file_closed, renamed, IsRenamed, write_rotates}
use mpmc_logger.Sink.Rotate.{FileLaws}
use mpmc_logger.Format.{fast_u32_to_str}
use mpmc_logger.Tests.Sink.{
  full_sink, remove, moved, pick, names_discrete, filing-FileLaws, digits_distinct, digits_one,
}

-- The bytes of the files, which names there are and their files, the next descriptor, and the mapping of a part of a file.
record Files : Type 0 where
  bytes : ℕ → List ℕ
  names : List ℕ → Option ℕ
  next : ℕ
  file : ℕ
  offset : ℕ
  len : ℕ

abbrev store_bytes : ℕ → List ℕ → Files → Files
store_bytes addr new w = record w {
  bytes = update w.bytes w.file (overwrite (w.offset + (addr - 65536)) new (w.bytes w.file));
}

-- The mappings are at 65536.
abbrev files : Os Files
files = record {
  open_path = λ path w. (
    some w.next,
    record w {
      names = (λ q. pick (names_discrete q path) (some w.next) (w.names q));
      next = w.next + 1;
    },
  );
  fstat = λ fd w. (some (length (w.bytes fd)), w);
  close = λ fd w. w;
  ftruncate = λ fd len w. (
    true,
    record w { bytes = update w.bytes fd (w.bytes fd ++ zeros (len - length (w.bytes fd))) },
  );
  mmap = λ len fd offset w. (some 65536, record w { file = fd; offset = offset; len = len });
  madvise = λ addr len w. w;
  munmap = λ addr len w. w;
  msync = λ addr len sync w. w;
  store = store_bytes;
  unlink = λ path w. record w { names = remove path w.names };
  rename = λ old new w. record w { names = moved old new w.names };
  mkdir = λ path w. w;
}

record IsMapped (w : Files) (addr fd offset len : ℕ) : Type 0 where
  addr_eq : addr ≡ 65536
  file_eq : w.file ≡ fd
  offset_eq : w.offset ≡ offset
  len_eq : w.len ≡ len
  small : len < 2 ^ 63

store-files :
    {w : Files} {addr fd offset len : ℕ}
    → IsMapped w addr fd offset len
    → (at : ℕ) (new : List ℕ)
    → IsMapped (files.store (addr + at) new w) addr fd offset len
      × ((files.store (addr + at) new w).bytes fd ≡ overwrite (offset + at) new (w.bytes fd))
store-files {w} {addr} {fd} {offset} m at new = (
  record {
    addr_eq = m.addr_eq;
    file_eq = m.file_eq;
    offset_eq = m.offset_eq;
    len_eq = m.len_eq;
    small = m.small;
  },
  ap (λ f. update w.bytes f (overwrite (w.offset + (addr + at - 65536)) new (w.bytes f)) fd)
        m.file_eq
      ∙ update_self w.bytes fd _
      ∙ ap (λ n. overwrite n new (w.bytes fd)) {x = w.offset + (addr + at - 65536)}
          {y = offset + at} (omega (arith, m.addr_eq, m.offset_eq)),
)

files-Disk : Disk files 4096
files-Disk = record {
  content = λ fd w. w.bytes fd;
  Maps = IsMapped;
  extend = λ fd len w le lt. (refl, update_self w.bytes fd _);
  map_at = λ len fd k w lt. (
    65536,
    refl,
    record { addr_eq = refl; file_eq = refl; offset_eq = refl; len_eq = refl; small = lt },
    refl,
  );
  map_lt = λ m. omega (arith, m.addr_eq, m.small);
  store_at = λ m at new le lt. store-files m at new;
  madvise_keeps = λ m a n. (m, refl);
  msync_keeps = λ m a n sync. (m, refl);
  munmap_keeps = λ addr len fd w. refl;
  close_keeps = λ fd w. refl;
  fstat_tells = λ fd w. (refl, refl);
}

-- One region is full, and the limit is one region.
abbrev full_files : Files
full_files = record {
  bytes = update (λ _. []) 3 (replicate 4096 7);
  names = λ q. pick (names_discrete q (codes "app.log")) (some 3) none;
  next = 4;
  file = 3;
  offset = 0;
  len = 4096;
}

abbrev at_limit : MMapSink
at_limit = record full_sink { max_file_size = 4096; mmap_offset = 4096; file_offset = 4096 }

at_limit-IsStored : IsStored files-Disk 4096 3 at_limit full_files (replicate 4096 7)
unfolding files-Disk
at_limit-IsStored = record {
  binary = record {
    region = record {
      records = 31;
      pages = 1;
      records_eq = refl;
      pages_eq = refl;
      max_le = omega arith;
      no_wrap = omega arith;
    };
    base = 0;
    count = 32;
    address = 65536;
    descriptor = 3;
    is_mapped = refl;
    is_open = refl;
    offset_eq = refl;
    offset_le = omega arith;
    base_eq = refl;
    base_le = omega arith;
  };
  same_fd = refl;
  max_eq = refl;
  size = refl;
  window = record {
    addr_eq = refl;
    file_eq = refl;
    offset_eq = refl;
    len_eq = refl;
    small = omega arith;
  };
  content_eq = refl;
}

files-FileLaws : FileLaws files (λ w. w.names)
files-FileLaws = record {
  unlinked = λ p w. filing-FileLaws.unlinked p w.names;
  unlink_others = λ p q w. filing-FileLaws.unlink_others p q w.names;
  renamed = λ a b w. filing-FileLaws.renamed a b w.names;
  rename_source = λ a b w. filing-FileLaws.rename_source a b w.names;
  rename_others = λ a b q w. filing-FileLaws.rename_others a b q w.names;
}

write_rotates_example :
    ((file_closed files-Disk 4096 3 fast_u32_to_str 65536 at_limit full_files).1.bytes 3
      ≡ replicate 4096 7)
    × IsRenamed files-Disk 4096 3 fast_u32_to_str
        (replicate 128 8)
        refl
        4
        files-FileLaws
        digits_distinct
        digits_one
        at_limit
        (file_closed files-Disk 4096 3 fast_u32_to_str 65536 at_limit full_files).1
        (renamed files-Disk 4096 3 fast_u32_to_str 65536 at_limit full_files).1
    × Stored files-Disk 4096 4 fast_u32_to_str
        (replicate 128 8)
        (write files fast_u32_to_str (replicate 128 8) at_limit full_files)
unfolding rotate_files shift_files close_file unmap_region files-Disk
write_rotates_example =
    write_rotates files-Disk 4096 3 fast_u32_to_str (replicate 128 8) refl 4 files-FileLaws
      digits_distinct digits_one at_limit full_files (replicate 4096 7) at_limit-IsStored
      (omega arith) (omega arith) (omega arith) (omega arith) refl refl
