-- ===== src/Logger/Binary.antt =====
-- src/logger.cpp with binary output: what `BinaryFormatter` leaves in the buffer.
use mpmc_logger.Prelude.{
  ℕ, ◌+◌, ◌≡◌, ap, List, [], ◌∷◌, arith, length, take, drop, length-take, length-append,
  length-drop,
}
use mpmc_logger.Entry.{LogEntry, IsEntry, layout, fast_copy_128}
use mpmc_logger.Entry.Codec.{length-layout}
use mpmc_logger.Entry.Copy.{fast_copy_128-eq-memcpy}
use mpmc_logger.Format.{max_formatted_size}

abbrev pub AllEntries : List LogEntry → Type 0
AllEntries [] = Unit {0}
AllEntries (e ∷ es) = IsEntry e × AllEntries es

pub length-formatted :
    (e : LogEntry) (buf : List ℕ)
    → IsEntry e
    → length buf ≡ max_formatted_size
    → length (fast_copy_128 buf (layout e)) ≡ max_formatted_size
length-formatted e buf v full =
    let bytes = take 128 (layout e) in
    omega (
      arith,
      ap length (fast_copy_128-eq-memcpy buf (layout e) (omega (arith, length-layout e v))),
      length-append bytes (drop (0 + length bytes) buf),
      length-take 128 (layout e),
      length-drop (0 + length bytes) buf,
      length-layout e v,
    )
