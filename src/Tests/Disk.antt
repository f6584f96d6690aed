-- ===== src/Tests/Disk.antt =====
-- Tests of the sink, the logger and the reader over a disk of one file.
use mpmc_logger.Prelude.{
  ℕ, ◌+◌, ◌-◌, ◌^◌, ◌<◌, ◌≡◌, refl, ap, ◌∙◌, true, some, List, [], ◌∷◌, ◌++◌, arith, length,
  replicate, codes,
}
use mpmc_logger.Sink.{Os}
use mpmc_logger.Sink.Disk.{Disk, zeros, overwrite}
use mpmc_logger.Sink.Stored.{IsStored, Stored, write-Stored}
use mpmc_logger.Sink.{write, MMapSink, ensure_directory, make_prefixes, parent}
use mpmc_logger.Format.{fast_u32_to_str}
use mpmc_logger.Logger.{Logger, init, shutdown}
use mpmc_logger.Logger.Accept.{log_all}
use mpmc_logger.Logger.Readable.{IsPadded}
use mpmc_logger.Logger.Session.{IsBinaryConfig, session_readable}
use mpmc_logger.Reader.{default_options, read_file}
use mpmc_logger.Reader.Back.{lines_of}
use mpmc_logger.Reader.Padding.{blank_entry}
use mpmc_logger.Tests.Sink.{full_sink}
use mpmc_logger.Tests.Logger.{one_date, blank, blank-IsEntry, stopped, config}

-- The bytes of the file, and the mapping of a part of it.
pub record OneFile : Type 0 where
  pub bytes : List ℕ
  pub offset : ℕ
  pub len : ℕ

-- The descriptor is 3, and the mappings are at 65536.
abbrev pub one_file : Os OneFile
one_file = record {
  open_path = λ path w. (some 3, w);
  fstat = λ fd w. (some (length w.bytes), w);
  close = λ fd w. w;
  ftruncate = λ fd len w. (true, record w { bytes = w.bytes ++ zeros (len - length w.bytes) });
  mmap = λ len fd offset w. (some 65536, record w { offset = offset; len = len });
  madvise = λ addr len w. w;
  munmap = λ addr len w. w;
  msync = λ addr len sync w. w;
  store = λ addr bytes w. record w { bytes = overwrite (w.offset + (addr - 65536)) bytes w.bytes };
  unlink = λ path w. w;
  rename = λ old new w. w;
  mkdir = λ path w. w;
}

pub record IsMapped (w : OneFile) (addr fd offset len : ℕ) : Type 0 where
  pub addr_eq : addr ≡ 65536
  pub offset_eq : w.offset ≡ offset
  pub len_eq : w.len ≡ len
  pub small : len < 2 ^ 63

-- A mapping stands while the place and the length of the last one do.
keep :
    {w w' : OneFile} {addr fd offset len : ℕ}
    → IsMapped w addr fd offset len
    → w'.offset ≡ w.offset
    → w'.len ≡ w.len
    → IsMapped w' addr fd offset len
keep m same same' = record {
  addr_eq = m.addr_eq;
  offset_eq = same ∙ m.offset_eq;
  len_eq = same' ∙ m.len_eq;
  small = m.small;
}

pub store-one_file :
    {w : OneFile} {addr fd offset len : ℕ}
    → IsMapped w addr fd offset len
    → (at : ℕ) (bytes : List ℕ)
    → IsMapped (one_file.store (addr + at) bytes w) addr fd offset len
      × ((one_file.store (addr + at) bytes w).bytes ≡ overwrite (offset + at) bytes w.bytes)
store-one_file {w} {addr} {offset} m at bytes = (
  keep m refl refl,
  ap (λ n. overwrite n bytes w.bytes) {x = w.offset + (addr + at - 65536)} {y = offset + at}
      (omega (arith, m.addr_eq, m.offset_eq)),
)

unfoldable pub one_file-Disk : Disk one_file 4096
one_file-Disk = record {
  content = λ fd w. w.bytes;
  Maps = IsMapped;
  extend = λ fd len w le lt. (refl, refl);
  map_at = λ len fd k w lt.
      (65536, refl, record { addr_eq = refl; offset_eq = refl; len_eq = refl; small = lt }, refl);
  map_lt = λ m. omega (arith, m.addr_eq, m.small);
  store_at = λ m at bytes le lt. store-one_file m at bytes;
  madvise_keeps = λ m a n. (m, refl);
  msync_keeps = λ m a n sync. (m, refl);
  munmap_keeps = λ addr len fd w. refl;
  close_keeps = λ fd w. refl;
  fstat_tells = λ fd w. (refl, refl);
}

abbrev pub empty_disk : OneFile
empty_disk = record { bytes = []; offset = 0; len = 0 }

pub config-IsBinaryConfig : IsBinaryConfig 4096 config
config-IsBinaryConfig = record {
  is_binary = refl;
  records = 31;
  records_eq = refl;
  pages = 1;
  pages_eq = refl;
  no_wrap = omega arith;
}

session_readable_example :
    (l1 : Logger) × (w1 : OneFile) × (l2 : Logger) × (w2 : OneFile) × (n : ℕ) × (init one_file
        fast_u32_to_str one_date blank config
        (replicate 20 0)
        stopped
        empty_disk
      ≡ (true, l1, w1))
    × (shutdown one_file fast_u32_to_str one_date blank 3 3
          (replicate 256 0)
          (log_all (blank ∷ blank ∷ []) l1)
          w1
        ≡ some (some (l2, w2)))
    × IsPadded one_file-Disk 65536 3 fast_u32_to_str one_date blank w2.bytes (blank ∷ blank ∷ []) n
    × (read_file one_date (default_options (codes "app.log")) stopped.text_fmt w2.bytes ≡ (
      lines_of one_date ((blank ∷ blank ∷ []) ++ replicate n blank_entry) stopped.text_fmt,
      2 + n,
      2 + n,
    ))
unfolding one_file-Disk ensure_directory make_prefixes parent
session_readable_example =
    session_readable one_file-Disk 3 fast_u32_to_str one_date blank config (replicate 20 0)
      (replicate 256 0) stopped empty_disk [] (blank ∷ blank ∷ []) 0 (codes "app.log")
      stopped.text_fmt config-IsBinaryConfig refl refl refl refl tt
      (blank-IsEntry, (blank-IsEntry, tt)) (omega arith) (omega arith) refl

-- A sink with room in its region for one record after two.
abbrev two_written : OneFile
two_written = record { bytes = replicate 256 7 ++ zeros 3840; offset = 0; len = 4096 }

abbrev two_sink : MMapSink
two_sink = record full_sink { max_file_size = 65536; mmap_offset = 256; file_offset = 256 }

two_sink-IsStored : IsStored one_file-Disk 65536 3 two_sink two_written (replicate 256 7)
unfolding one_file-Disk
two_sink-IsStored = record {
  binary = record {
    region = record {
      records = 31;
      pages = 1;
      records_eq = refl;
      pages_eq = refl;
      max_le = omega arith;
      no_wrap = omega arith;
    };
    base = 0;
    count = 2;
    address = 65536;
    descriptor = 3;
    is_mapped = refl;
    is_open = refl;
    offset_eq = refl;
    offset_le = omega arith;
    base_eq = refl;
    base_le = omega arith;
  };
  same_fd = refl;
  max_eq = refl;
  size = refl;
  window = record { addr_eq = refl; offset_eq = refl; len_eq = refl; small = omega arith };
  content_eq = refl;
}

write-Stored_example :
    Stored one_file-Disk 65536 3 fast_u32_to_str
      (replicate 256 7 ++ replicate 128 8)
      (write one_file fast_u32_to_str (replicate 128 8) two_sink two_written)
write-Stored_example =
    write-Stored one_file-Disk 65536 3 fast_u32_to_str (replicate 128 8) refl two_sink two_written
      (replicate 256 7) two_sink-IsStored (omega arith)
