-- ===== src/Entry/Codec.antt =====
-- log_entry.hpp: the entry and its 128 bytes of memory, which `BinaryFormatter` writes and
-- tools/log_reader.cpp and tools/log_stats.cpp read back.
use native.Mathlib.Nat.{pow-suc}
use mpmc_logger.Prelude.{
  ℕ, zero, suc, ◌/◌, ◌^◌, ◌<◌, ◌≡◌, refl, ap, arith, length, ◌-◌, List, take, drop, take_all,
}
use mpmc_logger.Entry.{LogEntry, IsEntry, to_bytes, of_bytes, layout, of_layout, entry_size}

length-to_bytes : (n x : ℕ) → length (to_bytes n x) ≡ n
unfolding to_bytes
length-to_bytes zero x = refl
length-to_bytes (suc n) x = ap suc (length-to_bytes n (x / 256))

-- The bytes of a number that fits are read back as that number.
pub of_bytes-to_bytes : (n x : ℕ) → x < 256 ^ n → of_bytes (to_bytes n x) ≡ x
unfolding to_bytes of_bytes
of_bytes-to_bytes zero x h = omega arith
of_bytes-to_bytes (suc n) x h =
    omega (arith, of_bytes-to_bytes n (x / 256) (omega (arith, rw pow-suc at h)))

-- The struct is 128 bytes long.
pub length-layout : (e : LogEntry) → IsEntry e → length (layout e) ≡ entry_size
unfolding layout to_bytes
length-layout e v = omega (arith, v.payload_full)

pub of_layout-layout : (e : LogEntry) → IsEntry e → of_layout (layout e) ≡ e
unfolding layout of_layout to_bytes
of_layout-layout e v = λ i. record {
  timestamp_ns = of_bytes-to_bytes 8 e.timestamp_ns (omega (arith, v.timestamp_fits)) i;
  thread_id = of_bytes-to_bytes 4 e.thread_id (omega (arith, v.thread_fits)) i;
  level = of_bytes-to_bytes 1 e.level (omega (arith, v.level_fits)) i;
  category = of_bytes-to_bytes 1 e.category (omega (arith, v.category_fits)) i;
  payload_len = of_bytes-to_bytes 2 e.payload_len (omega (arith, v.len_fits)) i;
  payload = e.payload;
}

-- The number in the bytes from one offset to the next, and these bytes.
abbrev pub slice : (from next : ℕ) → List ℕ → List ℕ
slice from next bytes = take (next - from) (drop from bytes)

abbrev pub field : (from next : ℕ) → List ℕ → ℕ
field from next bytes = of_bytes (slice from next bytes)

-- The 128 bytes of an entry within its widths have each field at its documented offset:
-- `timestamp_ns` in bytes 0 to 7, `thread_id` in 8 to 11, `level` in 12, `category` in 13,
-- `payload_len` in 14 and 15, the lower byte of a number first, and `payload` in 16 to 127. The
-- entry is read back from them.
pub layout_lem :
    (e : LogEntry)
    → IsEntry e
    → (length (layout e) ≡ 128)
      × (field 0 8 (layout e) ≡ e.timestamp_ns)
      × (field 8 12 (layout e) ≡ e.thread_id)
      × (field 12 13 (layout e) ≡ e.level)
      × (field 13 14 (layout e) ≡ e.category)
      × (field 14 16 (layout e) ≡ e.payload_len)
      × (slice 16 128 (layout e) ≡ e.payload)
      × (of_layout (layout e) ≡ e)
unfolding layout to_bytes
layout_lem e v = (
  length-layout e v,
  of_bytes-to_bytes 8 e.timestamp_ns (omega (arith, v.timestamp_fits)),
  of_bytes-to_bytes 4 e.thread_id (omega (arith, v.thread_fits)),
  of_bytes-to_bytes 1 e.level (omega (arith, v.level_fits)),
  of_bytes-to_bytes 1 e.category (omega (arith, v.category_fits)),
  of_bytes-to_bytes 2 e.payload_len (omega (arith, v.len_fits)),
  take_all 112 e.payload (omega (arith, v.payload_full)),
  of_layout-layout e v,
)
