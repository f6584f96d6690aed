-- ===== src/Format/Digits.antt =====
-- formatter.hpp and timestamp.hpp: the digits that the two loops write.
use native.Mathlib.Nat.{pow-suc}
use mpmc_logger.Prelude.{
  ℕ, zero, suc, ◌+◌, ◌-◌, ◌*◌, ◌/◌, ◌%◌, ◌^◌, ◌≤◌, ◌<◌, ◌≡◌, refl, sym, ap, ◌∙◌, List, [], ◌∷◌,
  arith, length, ℕ_discrete, subst, ◌≢◌,
}
use mpmc_logger.Format.{digit_loop, fast_u32_to_str, suffix_loop}

-- The number that decimal digits stand for, after a number already read.
unfoldable pub read_digits : ℕ → List ℕ → ℕ
read_digits acc [] = acc
read_digits acc (c ∷ cs) = read_digits (acc * 10 + (c - b'0')) cs

abbrev pub AllDigits : List ℕ → Type 0
AllDigits [] = Unit {0}
AllDigits (c ∷ cs) = (b'0' ≤ c) × (c ≤ b'9') × AllDigits cs

read_digit :
    (val : ℕ) (out : List ℕ)
    → read_digits (val / 10) ((b'0' + val % 10) ∷ out) ≡ read_digits val out
unfolding read_digits
read_digit val out = ap (λ n. read_digits n out) (omega arith)

digit_loop_stop : (f val : ℕ) (out : List ℕ) → val ≡ 0 → digit_loop f val out ≡ out
unfolding digit_loop
digit_loop_stop zero val out e = refl
digit_loop_stop (suc f) val out e = ground arith

digit_loop_step :
    (f val : ℕ) (out : List ℕ)
    → val ≢ 0
    → digit_loop (suc f) val out ≡ digit_loop f (val / 10) ((b'0' + val % 10) ∷ out)
unfolding digit_loop
digit_loop_step f val out ne = ground arith

read-digit_loop :
    (f val : ℕ) (out : List ℕ)
    → val ≤ f
    → read_digits 0 (digit_loop f val out) ≡ read_digits val out
read-digit_loop zero val out h =
    ap (read_digits 0) (digit_loop_stop zero val out (omega arith))
    ∙ ap (λ n. read_digits n out) (omega arith)
read-digit_loop (suc f) val out h = elim (ℕ_discrete val 0) [
  | yes e ↦
      ap (read_digits 0) (digit_loop_stop (suc f) val out e) ∙ ap (λ n. read_digits n out) (sym e)
  | no ne ↦
      ap (read_digits 0) (digit_loop_step f val out ne)
      ∙ read-digit_loop f (val / 10) ((b'0' + val % 10) ∷ out) (omega arith)
      ∙ read_digit val out
]

length-digit_loop :
    (f n val : ℕ) (out : List ℕ)
    → val ≤ f
    → val < 10 ^ n
    → length (digit_loop f val out) ≤ length out + n
length-digit_loop zero n val out h b =
    omega (arith, ap length (digit_loop_stop zero val out (omega arith)))
length-digit_loop (suc f) zero val out h b =
    omega (arith, ap length (digit_loop_stop (suc f) val out (omega arith)))
length-digit_loop (suc f) (suc n) val out h b = elim (ℕ_discrete val 0) [
  | yes e ↦ omega (arith, ap length (digit_loop_stop (suc f) val out e))
  | no ne ↦ omega (
    arith,
    ap length (digit_loop_step f val out ne),
    length-digit_loop f n (val / 10) ((b'0' + val % 10) ∷ out) (omega arith)
        (omega (arith, rw pow-suc at b)),
  )
]

digit_loop-AllDigits : (f val : ℕ) (out : List ℕ) → AllDigits out → AllDigits (digit_loop f val out)
digit_loop-AllDigits zero val out a = elim (ℕ_discrete val 0) [
  | yes e ↦ subst AllDigits (sym (digit_loop_stop zero val out e)) a
  | no ne ↦ unfold digit_loop in a
]
digit_loop-AllDigits (suc f) val out a = elim (ℕ_discrete val 0) [
  | yes e ↦ subst AllDigits (sym (digit_loop_stop (suc f) val out e)) a
  | no ne ↦
      subst AllDigits (sym (digit_loop_step f val out ne))
        (digit_loop-AllDigits f (val / 10) _ (omega arith, omega arith, a))
]

digit_loop-grows : (f val : ℕ) (out : List ℕ) → length out ≤ length (digit_loop f val out)
digit_loop-grows zero val out = unfold digit_loop in omega arith
digit_loop-grows (suc f) val out = elim (ℕ_discrete val 0) [
  | yes e ↦ omega (arith, ap length (digit_loop_stop (suc f) val out e))
  | no ne ↦ omega (
    arith,
    ap length (digit_loop_step f val out ne),
    digit_loop-grows f (val / 10) ((b'0' + val % 10) ∷ out),
  )
]

-- The digits of `fast_u32_to_str` read as its argument.
pub read-fast_u32_to_str : (val : ℕ) → read_digits 0 (fast_u32_to_str val) ≡ val
unfolding fast_u32_to_str read_digits
read-fast_u32_to_str val = elim (ℕ_discrete val 0) [
  | yes e ↦ ground arith
  | no ne ↦ not_zero ne (read-digit_loop val val [] (omega arith))
]
  where
    not_zero :
        val ≢ 0
        → read_digits 0 (digit_loop val val []) ≡ val
        → read_digits 0 (fast_u32_to_str val) ≡ val
    not_zero ne e = ground arith

-- Every byte that `fast_u32_to_str` writes is a decimal digit, and there is at least one.
pub fast_u32_to_str-AllDigits :
    (val : ℕ) → AllDigits (fast_u32_to_str val) × (0 < length (fast_u32_to_str val))
fast_u32_to_str-AllDigits zero = unfold fast_u32_to_str in (omega arith, omega arith)
fast_u32_to_str-AllDigits (suc k) =
    let digits : fast_u32_to_str (suc k) ≡ digit_loop (suc k) (suc k) [] =
      unfold fast_u32_to_str in ground arith in
    (
      subst AllDigits (sym digits) (digit_loop-AllDigits (suc k) (suc k) [] tt),
      omega (
        arith,
        ap length digits,
        ap length (digit_loop_step k (suc k) [] (omega arith)),
        digit_loop-grows k (suc k / 10) ((b'0' + suc k % 10) ∷ []),
      ),
    )

-- `fast_u32_to_str` writes at most ten digits for a number below 2^32.
pub length-fast_u32_to_str : (val : ℕ) → val < 2 ^ 32 → length (fast_u32_to_str val) ≤ 10
unfolding fast_u32_to_str
length-fast_u32_to_str val h = ground (arith, length-digit_loop val 10 val [])

length-suffix_loop : (r ns : ℕ) (out : List ℕ) → length (suffix_loop r ns out) ≡ r + length out
unfolding suffix_loop
length-suffix_loop zero ns out = omega arith
length-suffix_loop (suc r) ns out =
    omega (arith, length-suffix_loop r (ns / 10) ((b'0' + ns % 10) ∷ out))

read-suffix_loop :
    (r ns : ℕ) (out : List ℕ)
    → ns < 10 ^ r
    → read_digits 0 (suffix_loop r ns out) ≡ read_digits ns out
unfolding suffix_loop
read-suffix_loop zero ns out h = ap (λ n. read_digits n out) (omega arith)
read-suffix_loop (suc r) ns out h =
    read-suffix_loop r (ns / 10) ((b'0' + ns % 10) ∷ out) (omega (arith, rw pow-suc at h))
    ∙ read_digit ns out

-- Below 10^9 the nine rounds of the nanosecond suffix write nine digits, which read as the
-- nanoseconds.
pub suffix_loop_lem :
    (ns : ℕ)
    → ns < 10 ^ 9
    → (length (suffix_loop 9 ns []) ≡ 9) × (read_digits 0 (suffix_loop 9 ns []) ≡ ns)
suffix_loop_lem ns h =
    (length-suffix_loop 9 ns [], read-suffix_loop 9 ns [] h ∙ unfold read_digits in refl)
