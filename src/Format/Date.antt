-- ===== src/Format/Date.antt =====
-- timestamp.hpp: the cached date prefix.
use mpmc_logger.Prelude.{
  ℕ, ◌⊎◌, inl, inr, ◌/◌, ◌%◌, ◌≤◌, ◌<◌, ◌≡◌, ◌≢◌, refl, sym, ap, ap₂, ◌∙◌, subst, List, [], ◌∷◌,
  ◌++◌, arith, length, length-append, length-take, take, ℕ_discrete,
}
use mpmc_logger.Format.{
  CachedDateFormatter, format_date, new_date_formatter, suffix_loop, ns_per_sec, refresh_date,
}
use mpmc_logger.Format.Digits.{suffix_loop_lem}

module _ (date_of : ℕ → List ℕ) where
  -- The cache is of the second that it names, unless that is the second 0 of the initial value.
  abbrev pub IsCoherent : CachedDateFormatter → Type 0
  IsCoherent f = (f.cached_sec ≡ 0) ⊎ (f.date_prefix ≡ date_of f.cached_sec)

  -- The date and time of a second, with the nine digits of the nanoseconds.
  abbrev pub stamp : ℕ → List ℕ
  stamp wall_ns =
      take 19 (date_of (wall_ns / ns_per_sec)) ++ (b'.' ∷ suffix_loop 9 (wall_ns % ns_per_sec) [])

  pub new_date_formatter-IsCoherent : (memory : List ℕ) → IsCoherent (new_date_formatter memory)
  unfolding new_date_formatter
  new_date_formatter-IsCoherent memory = inl refl

  refresh_lem :
      (sec : ℕ) (f : CachedDateFormatter)
      → sec ≢ 0
      → IsCoherent f
      → refresh_date date_of sec f ≡ record { cached_sec = sec; date_prefix = date_of sec }
  refresh_lem sec f ne c = elim (ℕ_discrete sec f.cached_sec) [
    | yes e ↦ elim c [ inl z ↦ absurd (ne (e ∙ z)) | inr p ↦ ground (arith, p, ap date_of e) ]
    | no other ↦ ground arith
  ]

  -- From the second 1 of the epoch on, with a coherent cache, a timestamp is written as its own
  -- second and nanoseconds, whatever was formatted before, and the cache stays coherent.
  pub format_date-eq-stamp :
      (wall_ns : ℕ) (f : CachedDateFormatter)
      → ns_per_sec ≤ wall_ns
      → IsCoherent f
      → ((format_date date_of wall_ns f).0 ≡ stamp wall_ns)
        × IsCoherent (format_date date_of wall_ns f).1
  unfolding format_date
  format_date-eq-stamp wall_ns f h c =
      let e = refresh_lem (wall_ns / ns_per_sec) f (omega arith) c in
      (
        ap
            (λ (g : CachedDateFormatter).
              take 19 g.date_prefix ++ (b'.' ∷ suffix_loop 9 (wall_ns % ns_per_sec) []))
            e,
        subst IsCoherent (sym e) (inr refl),
      )

  -- A new formatter writes its uninitialised memory as the date of a timestamp below one second.
  pub format_date_uninitialised :
      (wall_ns : ℕ) (memory : List ℕ)
      → wall_ns < ns_per_sec
      → (format_date date_of wall_ns (new_date_formatter memory)).0
        ≡ take 19 memory ++ (b'.' ∷ suffix_loop 9 wall_ns [])
  unfolding format_date new_date_formatter
  format_date_uninitialised wall_ns memory h =
      ap₂
        (λ sec ns.
          take 19
            (refresh_date date_of sec (record { cached_sec = 0; date_prefix = memory })).date_prefix
          ++ (b'.' ∷ suffix_loop 9 ns []))
        {y = 0} {u = wall_ns % ns_per_sec} {v = wall_ns} (omega arith) (omega arith)

  refresh_full :
      (sec : ℕ) (f : CachedDateFormatter)
      → ((s : ℕ) → length (date_of s) ≡ 20)
      → length f.date_prefix ≡ 20
      → length (refresh_date date_of sec f).date_prefix ≡ 20
  refresh_full sec f full room = elim (ℕ_discrete sec f.cached_sec) [
    | yes e ↦ ground (arith, room)
    | no other ↦ ground (arith, full sec)
  ]

  -- 29 bytes, as the comment says.
  pub length-format_date :
      (wall_ns : ℕ) (f : CachedDateFormatter)
      → ((sec : ℕ) → length (date_of sec) ≡ 20)
      → length f.date_prefix ≡ 20
      → (length (format_date date_of wall_ns f).0 ≡ 29)
        × (length (format_date date_of wall_ns f).1.date_prefix ≡ 20)
  unfolding format_date
  length-format_date wall_ns f full room =
      let len : length (refresh_date date_of (wall_ns / ns_per_sec) f).date_prefix ≡ 20 =
        refresh_full (wall_ns / ns_per_sec) f full room in
      (
        omega (
          arith,
          len,
          length-append (take 19 (refresh_date date_of (wall_ns / ns_per_sec) f).date_prefix)
              (b'.' ∷ suffix_loop 9 (wall_ns % ns_per_sec) []),
          length-take 19 (refresh_date date_of (wall_ns / ns_per_sec) f).date_prefix,
          (suffix_loop_lem (wall_ns % ns_per_sec) (omega arith)).0,
        ),
        len,
      )
