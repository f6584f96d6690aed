-- ===== src/Logger/Message.antt =====
-- include/mpmc_logger/logger.hpp: the entry that the macro `MPMC_LOG` builds.
use mpmc_logger.Prelude.{ℕ, ◌^◌, ◌≤◌, ◌<◌, ◌≡◌, ap, ◌∙◌, Option, none, some, List, arith, length}
use mpmc_logger.Entry.{IsEntry, payload_size}
use mpmc_logger.Logger.{get_cached_tid, message_len, build_entry}

module _ {M : Type 0} (snprintf : M → List ℕ → Option ℕ × List ℕ) where
  pub message_len-le : (n : Option ℕ) → message_len snprintf n ≤ payload_size
  message_len-le none = omega arith
  message_len-le (some n) = ground arith

  -- Where `snprintf` leaves a buffer of the same size, the entry of `MPMC_LOG` is within the widths
  -- of its fields, whatever `snprintf` returns.
  pub build_entry-IsEntry :
      (level category now tid : ℕ) (message : M) (memory : List ℕ)
      → level < 2 ^ 8
      → category < 2 ^ 8
      → now < 2 ^ 64
      → tid < 2 ^ 32
      → length memory ≡ payload_size
      → length (snprintf message memory).1 ≡ length memory
      → IsEntry (build_entry snprintf level category now tid message memory)
  unfolding build_entry
  build_entry-IsEntry level category now tid message memory a b c d e f = record {
    timestamp_fits = c;
    thread_fits = d;
    level_fits = a;
    category_fits = b;
    len_fits = omega (arith, message_len-le (snprintf message memory).0);
    payload_full = f ∙ e;
  }

pub get_cached_tid_lem :
    (gettid : ℕ)
    → 0 < gettid
    → gettid < 2 ^ 32
    → (get_cached_tid gettid 0 ≡ (gettid, gettid))
      × ((other : ℕ) → get_cached_tid other gettid ≡ (gettid, gettid))
unfolding get_cached_tid
get_cached_tid_lem gettid pos lt = (ap (λ t. (t, t)) (omega arith), λ other. ground arith)
