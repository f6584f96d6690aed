-- ===== src/Bench/Contention/Outcome.antt =====
-- bench/bench_contention.cpp: no push is refused, and every consumer is given every entry.
use mpmc_logger.Prelude.{
  ℕ, zero, suc, ◌+◌, ◌≤◌, ◌<◌, ◌≡◌, ◌≢◌, refl, sym, ap, ◌∙◌, subst, false, none, some,
  some-injective, ◌∷◌, arith, length, replicate, min, take, sum_from, le_sum_from, get_elem?,
  dec_lt, lt→leb_false, length-replicate, length-take, none-some,
}
use mpmc_logger.Queue.{IsSize, max_consumers, is_full, invalid_pos}
use mpmc_logger.Queue.Inv.{slot_of}
use mpmc_logger.Concurrent.{
  Producer, idle, compared, begin, loaded, scanning, reading, scanned, rechecked, ready, claimed,
  written,
}
use mpmc_logger.Concurrent.Local.{held, Local}
use mpmc_logger.Concurrent.Inv.{Reach-Inv, holds}
use mpmc_logger.Concurrent.Safety.{next_item_ready}
use mpmc_logger.Bench.Contention.{Plan, total, Contention, ContentionReach}
use mpmc_logger.Bench.Contention.Thread.{owed, IsHelper}
use mpmc_logger.Bench.Contention.Accounts.{
  Accounts, still_owed, ContentionReach-Accounts, ContentionReach-Reach,
}

take-replicate {ℓ} : {A : Type ℓ} (n m : ℕ) (a : A) → take n (replicate m a) ≡ replicate (min n m) a
take-replicate zero m a = ap (λ k. replicate k a) {x = 0} {y = min 0 m} (omega arith)
take-replicate (suc n) zero a = ap (λ k. replicate k a) {x = 0} {y = min (suc n) 0} (omega arith)
take-replicate (suc n) (suc m) a =
    ap (λ l. a ∷ l) (take-replicate n m a)
    ∙ ap (λ k. replicate k a) {x = suc (min n m)} {y = min (suc n) (suc m)} (omega arith)

sum_from-zero :
    (rounds i : ℕ) (f : ℕ → ℕ)
    → ((j : ℕ) → i ≤ j → j < i + rounds → f j ≡ 0)
    → sum_from rounds i f ≡ 0
unfolding sum_from
sum_from-zero zero i f none_left = refl
sum_from-zero (suc rounds) i f none_left = omega (
  arith,
  none_left i (omega arith) (omega arith),
  sum_from-zero rounds (i + 1) f (λ j le lt. none_left j (omega arith) (omega arith)),
)

get_elem?-replicate {ℓ} :
    {A : Type ℓ} (n i : ℕ) (a : A) → i < n → get_elem? (replicate n a) i ≡ some a
get_elem?-replicate zero i a lt = absurd (omega arith)
get_elem?-replicate (suc n) zero a lt = refl
get_elem?-replicate (suc n) (suc i) a lt = get_elem?-replicate n i a (omega arith)

IsHelper-held : {T : Type 0} (p : Producer T) → IsHelper p → held p ≡ none
IsHelper-held idle h = refl
IsHelper-held (scanning g i m) h = refl
IsHelper-held (reading g i m) h = refl
IsHelper-held (scanned g v) h = refl
IsHelper-held (begin x) h = refl
IsHelper-held (loaded x k) h = refl
IsHelper-held (compared x k m) h = refl
IsHelper-held (rechecked x k m) h = refl
IsHelper-held (ready x k) h = refl
IsHelper-held (claimed x k) h = elim h [ ]
IsHelper-held (written x k) h = elim h [ ]

module _ {T : Type 0} {size : ℕ} (v : IsSize size) {plan : Plan} {entry blank : T}
    {s : Contention T} (r : ContentionReach size plan entry blank s)
    (few : plan.num_consumers ≤ max_consumers) (fits : total plan + size < invalid_pos) where
  accounts : Accounts size plan entry blank s
  accounts = ContentionReach-Accounts size plan entry blank few r

  within : length s.system.log ≤ total plan
  within = omega (arith, accounts.pushed)

  -- With no more entries than slots, whatever the interleaving, no `push` of the benchmark finds the
  -- queue full: its first test succeeds. This holds for at most 32 consumers, and while the
  -- positions fit in 64 bits.
  pub push_finds_room :
      (i : ℕ) (x : T) (h m : ℕ)
      → total plan ≤ size
      → i < plan.num_producers
      → s.system.producers i ≡ compared x h m
      → is_full size h m ≡ false
  push_finds_room i x h m le lt there =
      let inv =
        (Reach-Inv v (ContentionReach-Reach size plan entry blank r)
          (omega (arith, within))).threads in
      let l =
        subst (Local size s.system.memory (holds s.system) s.system.log) there (inv.locals i) in
      let left = accounts.busy i lt (λ e. cc) in
      let mine : still_owed size plan entry blank s i ≡ s.left i =
        ap (λ p. owed p (s.left i)) there in
      let share =
        le_sum_from plan.num_producers 0 i (still_owed size plan entry blank s) (omega arith)
          (omega arith) in
      lt→leb_false (
        omega (arith, l.0, l.1.le_head, inv.core.count, accounts.pushed, mine, share, left, within))

  received_count : (c : ℕ) → s.system.received c ≡ replicate (s.counts c) entry
  received_count c =
      let inv =
        Reach-Inv v (ContentionReach-Reach size plan entry blank r) (omega (arith, within)) in
      let log = s.system.log in
      let tail = (s.system.memory.consumers c).tail in
      let given : s.system.received c ≡ replicate (min tail (length log)) entry =
        inv.delivered c ∙ ap (take tail) accounts.same ∙ take-replicate tail (length log) entry in
      given
      ∙ ap (λ n. replicate n entry)
          (sym (length-replicate (min tail (length log)) entry)
            ∙ ap length (sym given)
            ∙ sym (accounts.counted c))

  -- In every state that the benchmark reaches, a consumer has been given as many entries as it has
  -- counted, each the one that the producers push, and at most as many as they push in all. This
  -- holds for at most 32 consumers, and while the positions fit in 64 bits.
  pub counted_entries :
      (c : ℕ) → (s.system.received c ≡ replicate (s.counts c) entry) × (s.counts c ≤ total plan)
  counted_entries c =
      let inv =
        Reach-Inv v (ContentionReach-Reach size plan entry blank r) (omega (arith, within)) in
      (
        received_count c,
        omega (
          arith,
          accounts.counted c,
          ap length (inv.delivered c),
          length-take (s.system.memory.consumers c).tail s.system.log,
          within,
        ),
      )

  -- Once the producers have pushed all their entries, a consumer whose count is below TOTAL is not
  -- stuck: the test of its next `pop` succeeds, and the slot holds the entry of the producers. This
  -- holds for at most 32 consumers, and while the positions fit in 64 bits.
  pub pop_goes_on :
      (c : ℕ)
      → ((i : ℕ) → i < plan.num_producers → (s.left i ≡ 0) × (s.system.producers i ≡ idle))
      → c < plan.num_consumers
      → s.counts c < total plan
      → ((slot_of size s.system.memory (s.system.memory.consumers c).tail).sequence
          ≡ (s.system.memory.consumers c).tail)
        × ((slot_of size s.system.memory (s.system.memory.consumers c).tail).item ≡ entry)
  pop_goes_on c finished lt below =
      let reach = ContentionReach-Reach size plan entry blank r in
      let inv = Reach-Inv v reach (omega (arith, within)) in
      let core = inv.threads.core in
      let tail = (s.system.memory.consumers c).tail in
      let nothing_owed =
        sum_from-zero plan.num_producers 0 (still_owed size plan entry blank s) (λ j le lt'.
          let (zero_left, rests) = finished j (omega arith) in
          ap (λ p. owed p (s.left j)) rests ∙ zero_left) in
      let free : (i : ℕ) → held (s.system.producers i) ≢ some tail = λ i e.
        elim (dec_lt i plan.num_producers) [
          | yes lt' ↦ absurd (none-some (sym (ap held (finished i lt').1) ∙ e))
          | no ge ↦ absurd (
              none-some
                (sym (IsHelper-held (s.system.producers i) (accounts.helpers i (omega arith))) ∙ e))
        ] in
      let behind : tail < length s.system.log = omega (
        arith,
        nothing_owed,
        accounts.pushed,
        accounts.counted c,
        ap length (inv.delivered c),
        length-take tail s.system.log,
        core.tail_le c,
        core.count,
      ) in
      let (test, found) =
        next_item_ready v reach (omega (arith, within)) c (accounts.on c lt) behind free in
      (
        test,
        some-injective _ _ (
            sym found
            ∙ ap (λ l. get_elem? l tail) accounts.same
            ∙ get_elem?-replicate (length s.system.log) tail entry behind),
      )
