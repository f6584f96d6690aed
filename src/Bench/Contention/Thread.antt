-- ===== src/Bench/Contention/Thread.antt =====
-- bench/bench_contention.cpp: what a step of `push` does to the account of a producer.
use mpmc_logger.Prelude.{
  ℕ, ◌+◌, ◌-◌, ◌<◌, ◌≡◌, ◌≢◌, refl, ap, List, [], ◌∷◌, arith, length, replicate,
}
use mpmc_logger.Queue.{MpmcQueue, no_mins}
use mpmc_logger.Concurrent.{
  for_push, for_refresh, Producer, idle, begin, loaded, compared, scanning, reading, scanned,
  rechecked, ready, claimed, written, Produce,
}
use mpmc_logger.Bench.Contention.{after_step}

module _ {T : Type 0} where
  -- The positions that a producer still has to claim.
  abbrev pub owed : Producer T → ℕ → ℕ
  owed (claimed x h) n = n - 1
  owed (written x h) n = n - 1
  owed _ n = n

  -- It pushes `entry`.
  abbrev pub Carries : T → Producer T → Type 0
  Carries entry idle = Unit
  Carries entry (begin x) = x ≡ entry
  Carries entry (loaded x h) = x ≡ entry
  Carries entry (compared x h m) = x ≡ entry
  Carries entry (scanning (for_push x h m) i k) = x ≡ entry
  Carries entry (scanning for_refresh i k) = ⊥
  Carries entry (reading (for_push x h m) i k) = x ≡ entry
  Carries entry (reading for_refresh i k) = ⊥
  Carries entry (scanned (for_push x h m) v) = x ≡ entry
  Carries entry (scanned for_refresh v) = ⊥
  Carries entry (rechecked x h m) = x ≡ entry
  Carries entry (ready x h) = x ≡ entry
  Carries entry (claimed x h) = x ≡ entry
  Carries entry (written x h) = x ≡ entry

  -- It recomputes the cached minimum.
  abbrev pub IsHelper : Producer T → Type 0
  IsHelper idle = Unit
  IsHelper (scanning for_refresh i m) = Unit
  IsHelper (reading for_refresh i m) = Unit
  IsHelper (scanned for_refresh v) = Unit
  IsHelper _ = ⊥

  -- What a step leaves of the account.
  pub record Accounted (entry : T) (p p' : Producer T) (n n' : ℕ) (xs : List T) : Type 0 where
    pub paid : owed p' n' + length xs ≡ owed p n
    pub busy : p' ≢ idle → 0 < n'
    pub carries : Carries entry p'
    pub claims : xs ≡ replicate (length xs) entry

  push-Accounted :
      {size : ℕ} {q q' : MpmcQueue T} {p p' : Producer T} {xs : List T} (entry : T) (n : ℕ)
      → Produce size q p q' p' xs
      → p ≢ idle
      → 0 < n
      → Carries entry p
      → Accounted entry p p' n (after_step p n) xs
  push-Accounted entry n (Produce.call x) ne lt c = absurd (ne refl)
  push-Accounted entry n Produce.refresh ne lt c = absurd (ne refl)
  push-Accounted entry n Produce.load_head ne lt c = record {
    paid = omega arith;
    busy = λ _. lt;
    carries = c;
    claims = refl;
  }
  push-Accounted entry n Produce.load_min_tail ne lt c = record {
    paid = omega arith;
    busy = λ _. lt;
    carries = c;
    claims = refl;
  }
  push-Accounted entry n (Produce.room e) ne lt c = record {
    paid = omega arith;
    busy = λ _. lt;
    carries = c;
    claims = refl;
  }
  push-Accounted entry n (Produce.full e) ne lt c = record {
    paid = omega arith;
    busy = λ _. lt;
    carries = c;
    claims = refl;
  }
  push-Accounted entry n (Produce.skip {g = for_push x h m} b e) ne lt c = record {
    paid = omega arith;
    busy = λ _. lt;
    carries = c;
    claims = refl;
  }
  push-Accounted entry n (Produce.see {g = for_push x h m} b e) ne lt c = record {
    paid = omega arith;
    busy = λ _. lt;
    carries = c;
    claims = refl;
  }
  push-Accounted entry n (Produce.read_tail {g = for_push x h m}) ne lt c = record {
    paid = omega arith;
    busy = λ _. lt;
    carries = c;
    claims = refl;
  }
  push-Accounted entry n (Produce.finish {g = for_push x h m} e) ne lt c = record {
    paid = omega arith;
    busy = λ _. lt;
    carries = c;
    claims = refl;
  }
  push-Accounted entry n (Produce.skip {g = for_refresh} b e) ne lt c = absurd c
  push-Accounted entry n (Produce.see {g = for_refresh} b e) ne lt c = absurd c
  push-Accounted entry n (Produce.read_tail {g = for_refresh}) ne lt c = absurd c
  push-Accounted entry n (Produce.finish {g = for_refresh} e) ne lt c = absurd c
  push-Accounted entry n (Produce.store_min_tail e) ne lt c = record {
    paid = omega arith;
    busy = λ _. lt;
    carries = c;
    claims = refl;
  }
  push-Accounted entry n (Produce.keep_min_tail e) ne lt c = record {
    paid = omega arith;
    busy = λ _. lt;
    carries = c;
    claims = refl;
  }
  push-Accounted entry n Produce.store_refresh ne lt c = absurd c
  push-Accounted entry n (Produce.room_now e) ne lt c = record {
    paid = omega arith;
    busy = λ _. lt;
    carries = c;
    claims = refl;
  }
  push-Accounted entry n (Produce.refuse e) ne lt c = record {
    paid = omega arith;
    busy = λ _. lt;
    carries = tt;
    claims = refl;
  }
  push-Accounted entry n (Produce.win e) ne lt c = record {
    paid = omega arith;
    busy = λ _. lt;
    carries = c;
    claims = ap (λ x. x ∷ []) c;
  }
  push-Accounted entry n Produce.lose ne lt c = record {
    paid = omega arith;
    busy = λ _. lt;
    carries = c;
    claims = refl;
  }
  push-Accounted entry n Produce.copy ne lt c = record {
    paid = omega arith;
    busy = λ _. lt;
    carries = c;
    claims = refl;
  }
  push-Accounted entry n Produce.publish ne lt c = record {
    paid = omega arith;
    busy = λ ne. absurd (ne refl);
    carries = tt;
    claims = refl;
  }

  call-Accounted :
      {size : ℕ} {q q' : MpmcQueue T} {p' : Producer T} {xs : List T} (entry : T) (n : ℕ)
      → Produce size q idle q' p' xs
      → (p' ≡ begin entry) × (0 < n)
      → Accounted entry idle p' n n xs
  call-Accounted entry n (Produce.call x) (e, lt) = record {
    paid = omega arith;
    busy = λ _. lt;
    carries = cc;
    claims = refl;
  }
  call-Accounted entry n Produce.refresh (e, lt) = absurd cc

  pub step-Accounted :
      {size : ℕ} {q q' : MpmcQueue T} {p' : Producer T} {xs : List T} (entry : T) (n : ℕ)
      (p : Producer T)
      → Produce size q p q' p' xs
      → (p ≡ idle → (p' ≡ begin entry) × (0 < n))
      → (p ≢ idle → 0 < n)
      → Carries entry p
      → Accounted entry p p' n (after_step p n) xs
  step-Accounted entry n idle st a b c = call-Accounted entry n st (a refl)
  step-Accounted entry n (begin x) st a b c = push-Accounted entry n st (λ e. cc) (b (λ e. cc)) c
  step-Accounted entry n (loaded x h) st a b c = push-Accounted entry n st (λ e. cc) (b (λ e. cc)) c
  step-Accounted entry n (compared x h m) st a b c =
      push-Accounted entry n st (λ e. cc) (b (λ e. cc)) c
  step-Accounted entry n (scanning g i m) st a b c =
      push-Accounted entry n st (λ e. cc) (b (λ e. cc)) c
  step-Accounted entry n (reading g i m) st a b c =
      push-Accounted entry n st (λ e. cc) (b (λ e. cc)) c
  step-Accounted entry n (scanned g k) st a b c =
      push-Accounted entry n st (λ e. cc) (b (λ e. cc)) c
  step-Accounted entry n (rechecked x h m) st a b c =
      push-Accounted entry n st (λ e. cc) (b (λ e. cc)) c
  step-Accounted entry n (ready x h) st a b c = push-Accounted entry n st (λ e. cc) (b (λ e. cc)) c
  step-Accounted entry n (claimed x h) st a b c =
      push-Accounted entry n st (λ e. cc) (b (λ e. cc)) c
  step-Accounted entry n (written x h) st a b c =
      push-Accounted entry n st (λ e. cc) (b (λ e. cc)) c

  refresh-IsHelper :
      {size : ℕ} {q q' : MpmcQueue T} {p' : Producer T} {xs : List T}
      → Produce size q idle q' p' xs
      → p' ≡ scanning for_refresh 0 no_mins
      → IsHelper p' × (xs ≡ [])
  refresh-IsHelper (Produce.call x) e = absurd cc
  refresh-IsHelper Produce.refresh e = (tt, refl)

  scanning-IsHelper :
      {size : ℕ} {q q' : MpmcQueue T} {p p' : Producer T} {xs : List T}
      → Produce size q p q' p' xs
      → p ≢ idle
      → IsHelper p
      → IsHelper p' × (xs ≡ [])
  scanning-IsHelper (Produce.call x) ne c = absurd (ne refl)
  scanning-IsHelper Produce.refresh ne c = absurd (ne refl)
  scanning-IsHelper Produce.load_head ne c = absurd c
  scanning-IsHelper Produce.load_min_tail ne c = absurd c
  scanning-IsHelper (Produce.room e) ne c = absurd c
  scanning-IsHelper (Produce.full e) ne c = absurd c
  scanning-IsHelper (Produce.skip {g = for_push x h m} b e) ne c = absurd c
  scanning-IsHelper (Produce.see {g = for_push x h m} b e) ne c = absurd c
  scanning-IsHelper (Produce.read_tail {g = for_push x h m}) ne c = absurd c
  scanning-IsHelper (Produce.finish {g = for_push x h m} e) ne c = absurd c
  scanning-IsHelper (Produce.skip {g = for_refresh} b e) ne c = (tt, refl)
  scanning-IsHelper (Produce.see {g = for_refresh} b e) ne c = (tt, refl)
  scanning-IsHelper (Produce.read_tail {g = for_refresh}) ne c = (tt, refl)
  scanning-IsHelper (Produce.finish {g = for_refresh} e) ne c = (tt, refl)
  scanning-IsHelper (Produce.store_min_tail e) ne c = absurd c
  scanning-IsHelper (Produce.keep_min_tail e) ne c = absurd c
  scanning-IsHelper Produce.store_refresh ne c = (tt, refl)
  scanning-IsHelper (Produce.room_now e) ne c = absurd c
  scanning-IsHelper (Produce.refuse e) ne c = absurd c
  scanning-IsHelper (Produce.win e) ne c = absurd c
  scanning-IsHelper Produce.lose ne c = absurd c
  scanning-IsHelper Produce.copy ne c = absurd c
  scanning-IsHelper Produce.publish ne c = absurd c

  pub step-IsHelper :
      {size : ℕ} {q q' : MpmcQueue T} {p' : Producer T} {xs : List T} (p : Producer T)
      → Produce size q p q' p' xs
      → (p ≡ idle → p' ≡ scanning for_refresh 0 no_mins)
      → IsHelper p
      → IsHelper p' × (xs ≡ [])
  step-IsHelper idle st a h = refresh-IsHelper st (a refl)
  step-IsHelper (begin x) st a h = absurd h
  step-IsHelper (loaded x k) st a h = absurd h
  step-IsHelper (compared x k m) st a h = absurd h
  step-IsHelper (scanning g i m) st a h = scanning-IsHelper st (λ e. cc) h
  step-IsHelper (reading g i m) st a h = scanning-IsHelper st (λ e. cc) h
  step-IsHelper (scanned g k) st a h = scanning-IsHelper st (λ e. cc) h
  step-IsHelper (rechecked x k m) st a h = absurd h
  step-IsHelper (ready x k) st a h = absurd h
  step-IsHelper (claimed x k) st a h = absurd h
  step-IsHelper (written x k) st a h = absurd h
