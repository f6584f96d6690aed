-- ===== src/Entry.antt =====
-- include/mpmc_logger/log_entry.hpp, and the `fast_copy` of include/mpmc_logger/mpmc_queue.hpp: the
-- 128-byte entry, its layout in memory, and the copy by 32-byte blocks. Bytes are numbers.
pub mod Copy
pub mod Codec
use mpmc_logger.Prelude.{
  ℕ, zero, suc, ◌+◌, ◌*◌, ◌/◌, ◌%◌, ◌^◌, ◌<◌, ◌≡◌, List, [], ◌∷◌, ◌++◌, if◌then◌else◌, leb, ◌==◌,
  get_or, take, drop, length, replicate, codes,
}

-- `LogLevel` has the underlying type uint8_t: a level is a byte, and one that is read from a file
-- may be none of the enumerators.
abbrev pub lvl_trace : ℕ
lvl_trace = 0

abbrev pub lvl_debug : ℕ
lvl_debug = 1

abbrev pub lvl_info : ℕ
lvl_info = 2

abbrev pub lvl_warn : ℕ
lvl_warn = 3

abbrev pub lvl_error : ℕ
lvl_error = 4

abbrev pub lvl_fatal : ℕ
lvl_fatal = 5

abbrev pub lvl_off : ℕ
lvl_off = 6

abbrev pub level_names : List (List ℕ)
level_names =
    codes "TRACE"
    ∷ codes "DEBUG"
    ∷ codes "INFO "
    ∷ codes "WARN "
    ∷ codes "ERROR"
    ∷ codes "FATAL"
    ∷ codes "OFF  "
    ∷ []

unfoldable pub level_to_string : ℕ → List ℕ
level_to_string level = if leb level 6 then get_or level_names level [] else codes "?????"

abbrev pub payload_size : ℕ
payload_size = 112

abbrev pub entry_size : ℕ
entry_size = 128

pub record LogEntry : Type 0 where
  pub timestamp_ns : ℕ
  pub thread_id : ℕ
  pub level : ℕ
  pub category : ℕ
  pub payload_len : ℕ
  pub payload : List ℕ

-- The fields are within their widths.
pub record IsEntry (e : LogEntry) : Type 0 where
  pub timestamp_fits : e.timestamp_ns < 2 ^ 64
  pub thread_fits : e.thread_id < 2 ^ 32
  pub level_fits : e.level < 2 ^ 8
  pub category_fits : e.category < 2 ^ 8
  pub len_fits : e.payload_len < 2 ^ 16
  pub payload_full : length e.payload ≡ payload_size

-- The default constructor leaves the payload as the memory was.
unfoldable pub new_entry : List ℕ → LogEntry
new_entry memory = record {
  timestamp_ns = 0;
  thread_id = 0;
  level = lvl_info;
  category = 0;
  payload_len = 0;
  payload = memory;
}

-- The `n` bytes of a number, least significant first, and back.
unfoldable pub to_bytes : ℕ → ℕ → List ℕ
to_bytes zero x = []
to_bytes (suc n) x = (x % 256) ∷ to_bytes n (x / 256)

unfoldable pub of_bytes : List ℕ → ℕ
of_bytes [] = 0
of_bytes (b ∷ bs) = b + 256 * of_bytes bs

-- The layout of the struct: 8, 4, 1, 1, 2 and 112 bytes.
unfoldable pub layout : LogEntry → List ℕ
layout e =
    to_bytes 8 e.timestamp_ns
    ++ (to_bytes 4 e.thread_id
        ++ (to_bytes 1 e.level
            ++ (to_bytes 1 e.category ++ (to_bytes 2 e.payload_len ++ e.payload))))

-- The entry that 128 bytes of memory are.
unfoldable pub of_layout : List ℕ → LogEntry
of_layout bs = record {
  timestamp_ns = of_bytes (take 8 bs);
  thread_id = of_bytes (take 4 (drop 8 bs));
  level = of_bytes (take 1 (drop 12 bs));
  category = of_bytes (take 1 (drop 13 bs));
  payload_len = of_bytes (take 2 (drop 14 bs));
  payload = drop 16 bs;
}

-- A 32-byte load, and a store.
abbrev pub load_block : ℕ → List ℕ → List ℕ
load_block off src = take 32 (drop off src)

abbrev pub store_block : ℕ → List ℕ → List ℕ → List ℕ
store_block off bytes dst = take off dst ++ (bytes ++ drop (off + length bytes) dst)

-- Four loads, then four stores.
unfoldable pub fast_copy_128 : (dst src : List ℕ) → List ℕ
fast_copy_128 dst src =
    let y0 = load_block 0 src in
    let y1 = load_block 32 src in
    let y2 = load_block 64 src in
    let y3 = load_block 96 src in
    store_block 96 y3 (store_block 64 y2 (store_block 32 y1 (store_block 0 y0 dst)))

abbrev pub memcpy : (dst src : List ℕ) → ℕ → List ℕ
memcpy dst src n = store_block 0 (take n src) dst

-- `fast_copy<T>` with AVX2, by `sizeof(T)`.
unfoldable pub fast_copy : ℕ → (dst src : List ℕ) → List ℕ
unfolding fast_copy_128
fast_copy size dst src =
    if size == 128
    then fast_copy_128 dst src
    else if size == 96
    then store_block 64 (load_block 64 src)
        (store_block 32 (load_block 32 src) (store_block 0 (load_block 0 src) dst))
    else memcpy dst src size
