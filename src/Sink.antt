-- ===== src/Sink.antt =====
-- include/mpmc_logger/mmap_sink.hpp and src/mmap_sink.cpp: the file sink. The calls of the operating
-- system are the fields of `Os`, over a state `W` of its own; `to_string` is `std::to_string`.
-- `size_t` arithmetic wraps at 2^64. A file descriptor below 0 is `none`, as is a null pointer.
pub mod Bounds
pub mod Region
pub mod Disk
pub mod Stored
pub mod Rotated
pub mod Opened
pub mod Unaligned
pub mod Rotate
use mpmc_logger.Prelude.{
  ℕ, zero, suc, ◌+◌, ◌-◌, ◌%◌, ◌^◌, ◌<◌, Bool, true, false, ◌&&◌, ◌||◌, not, Option, none, some,
  List, [], ◌∷◌, ◌++◌, if◌then◌else◌, ltb, leb, ◌==◌, length, take, codes,
}
use mpmc_logger.Queue.{u64_mod}

pub record Os (W : Type 0) : Type 0 where
  -- `::open` with O_RDWR | O_CREAT | O_APPEND: the descriptor, or `none` for an error.
  pub open_path : List ℕ → W → Option ℕ × W
  -- `st_size` of `::fstat`, or `none` for an error.
  pub fstat : ℕ → W → Option ℕ × W
  pub close : ℕ → W → W
  -- Whether `::ftruncate` of a descriptor to a length succeeds.
  pub ftruncate : ℕ → ℕ → W → Bool × W
  -- `::mmap` of a length of a descriptor at an offset: the address, or `none` for MAP_FAILED.
  pub mmap : (len fd offset : ℕ) → W → Option ℕ × W
  pub madvise : (addr len : ℕ) → W → W
  pub munmap : (addr len : ℕ) → W → W
  -- `::msync`, with `true` for MS_SYNC.
  pub msync : (addr len : ℕ) → Bool → W → W
  -- `std::memcpy` to an address.
  pub store : ℕ → List ℕ → W → W
  pub unlink : List ℕ → W → W
  pub rename : (old new : List ℕ) → W → W
  pub mkdir : List ℕ → W → W

pub record MMapSink : Type 0 where
  pub base_path : List ℕ
  pub region_size : ℕ
  pub max_file_size : ℕ
  pub max_rotated : ℕ
  pub fd : Option ℕ
  pub mmap_ptr : Option ℕ
  pub mmap_offset : ℕ
  pub file_offset : ℕ
  pub total_bytes_written : ℕ
  pub rotation_count : ℕ

-- What `write` leaves: its result, the sink and the system, or the end of the process, when the
-- exception of `open_file` meets `noexcept`.
pub data Outcome (W : Type 0) : Type 0 where
  returned : (written : ℕ) → MMapSink → W → Outcome W
  terminated : W → Outcome W

-- `rfind('/')`: the part of the path before its last slash.
unfoldable pub parent : List ℕ → Option (List ℕ)
parent [] = none
parent (c ∷ cs) = elim (parent cs) [
  | some p ↦ some (c ∷ p)
  | none ↦ if c == b'/' then some [] else none
]

-- `size_t` addition
abbrev pub add64 : ℕ → ℕ → ℕ
add64 a b = (a + b) % u64_mod

module _ {W : Type 0} (os : Os W) (to_string : ℕ → List ℕ) where
  -- The prefixes that end in a slash, and the whole path, in order.
  unfoldable pub make_prefixes : (seen rest : List ℕ) → W → W
  make_prefixes seen [] w = w
  make_prefixes seen (c ∷ []) w = os.mkdir (seen ++ (c ∷ [])) w
  make_prefixes seen (c ∷ d ∷ rest) w =
      make_prefixes (seen ++ (c ∷ [])) (d ∷ rest)
        (if c == b'/' then os.mkdir (seen ++ (c ∷ [])) w else w)

  unfoldable pub ensure_directory : List ℕ → W → W
  ensure_directory path w = make_prefixes [] path w

  abbrev pub sized : Option ℕ → MMapSink → MMapSink
  sized (some size) s = record s { file_offset = size }
  sized none s = s

  abbrev pub opened : MMapSink → Option ℕ × W → Bool × MMapSink × W
  opened s (none, w) = (false, record s { fd = none }, w)
  opened s (some fd, w) =
      let (size, w') = os.fstat fd w in (true, sized size (record s { fd = some fd }), w')

  -- `false` for the exception.
  unfoldable pub open_file : MMapSink → W → Bool × MMapSink × W
  open_file s w = opened s (os.open_path s.base_path w)

  unfoldable pub close_file : MMapSink → W → MMapSink × W
  close_file s w =
      (record s { fd = none; file_offset = 0 }, elim s.fd [ some fd ↦ os.close fd w | none ↦ w ])

  abbrev pub mapped_at : MMapSink → Option ℕ × W → MMapSink × W
  mapped_at s (some addr, w) =
      (record s { mmap_ptr = some addr; mmap_offset = 0 }, os.madvise addr s.region_size w)
  mapped_at s (none, w) = (record s { mmap_ptr = none }, w)

  abbrev pub extended : MMapSink → ℕ → Bool × W → MMapSink × W
  extended s fd (false, w) = (s, w)
  extended s fd (true, w) = mapped_at s (os.mmap s.region_size fd s.file_offset w)

  abbrev pub map_file : MMapSink → W → Option ℕ → MMapSink × W
  map_file s w none = (s, w)
  map_file s w (some fd) = extended s fd (os.ftruncate fd (add64 s.file_offset s.region_size) w)

  unfoldable pub map_region : MMapSink → W → MMapSink × W
  map_region s w = map_file s w s.fd

  unfoldable pub unmap_region : MMapSink → W → MMapSink × W
  unmap_region s w = (
    record s { mmap_ptr = none; mmap_offset = 0 },
    elim s.mmap_ptr [ some addr ↦ os.munmap addr s.region_size w | none ↦ w ],
  )

  -- `base_path_ + "." + std::to_string(i)`
  abbrev pub rotated_name : MMapSink → ℕ → List ℕ
  rotated_name s i = s.base_path ++ (b'.' ∷ to_string i)

  -- The loop for `i` down to 1.
  unfoldable pub shift_files : MMapSink → ℕ → W → W
  shift_files s zero w = w
  shift_files s (suc i) w =
      shift_files s i (os.rename (rotated_name s (suc i)) (rotated_name s (add64 (suc i) 1)) w)

  -- The loop starts at `max_rotated_ - 1`, which is 2^64 - 1 for 0.
  unfoldable pub rotate_files : MMapSink → W → MMapSink × W
  rotate_files s w =
      let w1 = os.unlink (rotated_name s s.max_rotated) w in
      let w2 = shift_files s ((s.max_rotated + (u64_mod - 1)) % u64_mod) w1 in
      (
        record s { rotation_count = add64 s.rotation_count 1 },
        os.rename s.base_path (s.base_path ++ codes ".1") w2,
      )

  abbrev pub blank_sink : (path : List ℕ) (region_size max_file_size max_rotated : ℕ) → MMapSink
  blank_sink path region_size max_file_size max_rotated = record {
    base_path = path;
    region_size = region_size;
    max_file_size = max_file_size;
    max_rotated = max_rotated;
    fd = none;
    mmap_ptr = none;
    mmap_offset = 0;
    file_offset = 0;
    total_bytes_written = 0;
    rotation_count = 0;
  }

  abbrev pub map_opened : Bool × MMapSink × W → Bool × MMapSink × W
  map_opened (false, s, w) = (false, s, w)
  map_opened (true, s, w) = let (s', w') = map_region s w in (true, s', w')

  abbrev pub with_parent : Option (List ℕ) → W → W
  with_parent (some p) w = ensure_directory p w
  with_parent none w = w

  -- The constructor: `false` for the exception.
  unfoldable pub new_sink :
      (path : List ℕ) (region_size max_file_size max_rotated : ℕ) → W → Bool × MMapSink × W
  new_sink path region_size max_file_size max_rotated w = map_opened (
      open_file (blank_sink path region_size max_file_size max_rotated)
        (with_parent (parent path) w))

  -- The copy into the region and the three counters.
  abbrev pub append : ℕ → List ℕ → MMapSink → W → Outcome W
  append addr bytes s w =
      returned (length bytes)
        (record s {
          mmap_offset = add64 s.mmap_offset (length bytes);
          file_offset = add64 s.file_offset (length bytes);
          total_bytes_written = add64 s.total_bytes_written (length bytes);
        })
        (os.store (add64 addr s.mmap_offset) bytes w)

  abbrev pub append_to : Option ℕ → List ℕ → MMapSink → W → Outcome W
  append_to (some addr) bytes s w = append addr bytes s w
  append_to none bytes s w = returned 0 s w

  abbrev pub append_if_mapped : List ℕ → MMapSink × W → Outcome W
  append_if_mapped bytes (s, w) = append_to s.mmap_ptr bytes s w

  -- Closes the file, renames the old ones and opens a new one.
  abbrev pub next_file : MMapSink → W → Bool × MMapSink × W
  next_file s w =
      let (s1, w1) = close_file s w in let (s2, w2) = rotate_files s1 w1 in open_file s2 w2

  -- Another file, where these bytes would exceed the limit of this one.
  abbrev pub file_for : List ℕ → MMapSink → W → Bool × MMapSink × W
  file_for bytes s w =
      if ltb s.max_file_size (add64 s.file_offset (length bytes))
      then next_file s w
      else (true, s, w)

  abbrev pub remap : List ℕ → Bool × MMapSink × W → Outcome W
  remap bytes (false, s, w) = terminated w
  remap bytes (true, s, w) = append_if_mapped bytes (map_region s w)

  -- The branch for a full region.
  unfoldable pub next_region : ℕ → List ℕ → MMapSink → W → Outcome W
  next_region addr bytes s w =
      let synced = if ltb 0 s.mmap_offset then os.msync addr s.mmap_offset false w else w in
      let (s1, w1) = unmap_region s synced in remap bytes (file_for bytes s1 w1)

  abbrev pub write_mapped : ℕ → List ℕ → MMapSink → W → Outcome W
  write_mapped addr bytes s w =
      if ltb s.region_size (add64 s.mmap_offset (length bytes))
      then next_region addr bytes s w
      else append addr bytes s w

  abbrev pub write_to : Option ℕ → List ℕ → MMapSink → W → Outcome W
  write_to none bytes s w = returned 0 s w
  write_to (some addr) bytes s w = write_mapped addr bytes s w

  unfoldable pub write : List ℕ → MMapSink → W → Outcome W
  write bytes s w = if length bytes == 0 then returned 0 s w else write_to s.mmap_ptr bytes s w

  unfoldable pub flush : MMapSink → W → W
  flush s w = elim s.mmap_ptr [
    | some addr ↦ if ltb 0 s.mmap_offset then os.msync addr s.mmap_offset true w else w
    | none ↦ w
  ]

  -- The destructor.
  unfoldable pub delete_sink : MMapSink → W → MMapSink × W
  delete_sink s w = let (s1, w1) = unmap_region s (flush s w) in close_file s1 w1
