-- ===== src/Bench/Contention/Accounts.antt =====
-- bench/bench_contention.cpp: how many entries have been pushed and counted.
use mpmc_logger.Prelude.{
  ℕ, zero, suc, ◌+◌, ◌≤◌, ◌<◌, ◌≡◌, ◌≢◌, refl, sym, ap, ◌∙◌, subst, true, List, ◌∷◌, ◌++◌, arith,
  length, length-append, replicate, update, update_self, update_ne, update_elim, map2-update,
  sum_from, sum_from-update, sum_from-const, sum_from-update_above, map_at-update, ℕ_discrete,
}
use mpmc_logger.Queue.{MpmcQueue, no_mins, max_consumers, new_queue, register_consumer}
use mpmc_logger.Concurrent.{
  Producer, idle, Produce, Consumer, Consume, System, registered, produce, consume, Reach,
}
use mpmc_logger.Concurrent
use mpmc_logger.Concurrent.Quiet.Registers.{Produce-consumers, Consume-others}
use mpmc_logger.Bench.Contention.{
  Plan, total, Contention, after_step, push_step, pop_step, helper_step, join, ContentionReach,
  start, later,
}
use mpmc_logger.Bench.Contention.Thread.{owed, Carries, IsHelper, step-Accounted, step-IsHelper}

replicate-append {ℓ} :
    {A : Type ℓ} (m n : ℕ) (a : A) → replicate m a ++ replicate n a ≡ replicate (m + n) a
replicate-append zero n a = ap (λ k. replicate k a) {x = n} {y = 0 + n} (omega arith)
replicate-append (suc m) n a =
    ap (λ l. a ∷ l) (replicate-append m n a)
    ∙ ap (λ k. replicate k a) {x = suc (m + n)} {y = suc m + n} (omega arith)

-- The first `n` registrations are accepted.
registered-active {ℓ} :
    {T : Type ℓ} (blank : T) (n : ℕ)
    → n ≤ max_consumers
    → ((registered blank n).num_consumers ≡ n)
      × ((c : ℕ) → c < n → ((registered blank n).consumers c).active ≡ true)
unfolding registered new_queue register_consumer
registered-active blank zero le = (refl, λ c lt. absurd (omega arith))
registered-active blank (suc n) le =
    let (number, on) = registered-active blank n (omega arith) in
    (ground arith, λ c lt. ground (arith, on c))

module _ {T : Type 0} (size : ℕ) (plan : Plan) (entry blank : T) where
  abbrev pub still_owed : Contention T → ℕ → ℕ
  still_owed s i = owed (s.system.producers i) (s.left i)

  pub record Accounts (s : Contention T) : Type 0 where
    pub pushed : length s.system.log + sum_from plan.num_producers 0 (still_owed s) ≡ total plan
    pub busy : (i : ℕ) → i < plan.num_producers → s.system.producers i ≢ idle → 0 < s.left i
    pub carries : (i : ℕ) → i < plan.num_producers → Carries entry (s.system.producers i)
    pub helpers : (i : ℕ) → plan.num_producers ≤ i → IsHelper (s.system.producers i)
    pub same : s.system.log ≡ replicate (length s.system.log) entry
    pub counted : (c : ℕ) → s.counts c ≡ length (s.system.received c)
    pub on : (c : ℕ) → c < plan.num_consumers → (s.system.memory.consumers c).active ≡ true

  more_same :
      (log xs : List T)
      → log ≡ replicate (length log) entry
      → xs ≡ replicate (length xs) entry
      → log ++ xs ≡ replicate (length (log ++ xs)) entry
  more_same log xs e f =
      ap (λ l. l ++ xs) e
      ∙ ap (λ l. replicate (length log) entry ++ l) f
      ∙ replicate-append (length log) (length xs) entry
      ∙ ap (λ n. replicate n entry) (sym (length-append log xs))

  push_step-Accounts :
      {s : Contention T} (a : Accounts s) (i : ℕ) {q : MpmcQueue T} {p : Producer T} {xs : List T}
      → i < plan.num_producers
      → Produce size s.system.memory (s.system.producers i) q p xs
      → (s.system.producers i ≡ idle → (p ≡ Concurrent.begin entry) × (0 < s.left i))
      → Accounts (record s {
        system = record s.system {
          memory = q;
          producers = update s.system.producers i p;
          log = s.system.log ++ xs;
        };
        left = update s.left i (after_step (s.system.producers i) (s.left i));
      })
  push_step-Accounts {s} a i {q} {p} {xs} lt st may =
      let n' = after_step (s.system.producers i) (s.left i) in
      let one =
        step-Accounted entry (s.left i) (s.system.producers i) st may (a.busy i lt)
          (a.carries i lt) in
      let changed = map2-update owed s.system.producers s.left i p n' in
      let sum =
        sum_from-update plan.num_producers 0 i (owed p n') (still_owed s) (omega arith)
          (omega arith) in
      record {
        pushed = omega (
          arith,
          ap (sum_from plan.num_producers 0) changed,
          sum,
          one.paid,
          a.pushed,
          length-append s.system.log xs,
        );
        busy = λ j lt' ne. elim (ℕ_discrete i j) [
          | yes e ↦
              subst (λ k. 0 < update s.left i n' k) e
                (omega (
                  arith,
                  update_self s.left i n',
                  one.busy (λ idles. ne (
                      sym (ap (update s.system.producers i p) e)
                      ∙ update_self s.system.producers i p
                      ∙ idles)),
                ))
          | no other ↦ omega (
            arith,
            update_ne s.left i j n' other,
            a.busy j lt' (λ idles. ne (update_ne s.system.producers i j p other ∙ idles)),
          )
        ];
        carries = λ j.
            update_elim (λ k r. k < plan.num_producers → Carries entry r) s.system.producers i p
              (λ _. one.carries) (λ k ne lt'. a.carries k lt') j;
        helpers = λ j le.
            subst IsHelper (sym (update_ne s.system.producers i j p (λ e. omega arith)))
              (a.helpers j le);
        same = more_same s.system.log xs a.same one.claims;
        counted = a.counted;
        on = λ c lt'. ap (λ cs. (cs c).active) (Produce-consumers st) ∙ a.on c lt';
      }

  pop_step-Accounts :
      {s : Contention T} (a : Accounts s) (c : ℕ) {q : MpmcQueue T} {p : Consumer T} {xs : List T}
      → Consume size c s.system.memory (s.system.consumers c) q p xs
      → (q.consumers c).active ≡ true
      → Accounts (record s {
        system = record s.system {
          memory = q;
          consumers = update s.system.consumers c p;
          received = update s.system.received c (s.system.received c ++ xs);
        };
        counts = update s.counts c (s.counts c + length xs);
      })
  pop_step-Accounts {s} a c {q} {p} {xs} st stays = record {
    pushed = a.pushed;
    busy = a.busy;
    carries = a.carries;
    helpers = a.helpers;
    same = a.same;
    counted = λ d. elim (ℕ_discrete c d) [
      | yes e ↦
          subst
            (λ k.
              update s.counts c (s.counts c + length xs) k
              ≡ length (update s.system.received c (s.system.received c ++ xs) k))
            e
            (update_self s.counts c (s.counts c + length xs)
              ∙ omega (arith, a.counted c, length-append (s.system.received c) xs)
              ∙ ap length (sym (update_self s.system.received c (s.system.received c ++ xs))))
      | no ne ↦
          update_ne s.counts c d (s.counts c + length xs) ne
          ∙ a.counted d
          ∙ ap length (sym (update_ne s.system.received c d (s.system.received c ++ xs) ne))
    ];
    on = λ d lt. elim (ℕ_discrete c d) [
      | yes e ↦ subst (λ k. (q.consumers k).active ≡ true) e stays
      | no ne ↦ ap (λ k. k.active) (Consume-others st d ne) ∙ a.on d lt
    ];
  }

  helper_step-Accounts :
      {s : Contention T} (a : Accounts s) (rounds : ℕ) {q : MpmcQueue T} {p : Producer T}
      {xs : List T}
      → Produce size s.system.memory (s.system.producers plan.num_producers) q p xs
      → (s.system.producers plan.num_producers ≡ idle
          → p ≡ Concurrent.scanning Concurrent.for_refresh 0 no_mins)
      → Accounts (record s {
        system = record s.system {
          memory = q;
          producers = update s.system.producers plan.num_producers p;
          log = s.system.log ++ xs;
        };
        rounds = rounds;
      })
  helper_step-Accounts {s} a rounds {q} {p} {xs} st may =
      let k = plan.num_producers in
      let (helps, nothing) =
        step-IsHelper (s.system.producers k) st may (a.helpers k (omega arith)) in
      let changed = map_at-update (λ j r. owed r (s.left j)) s.system.producers k p in
      let elsewhere : (j : ℕ) → j < k → update s.system.producers k p j ≡ s.system.producers j =
        λ j lt. update_ne s.system.producers k j p (λ e. omega arith) in
      record {
        pushed = omega (
          arith,
          ap (sum_from k 0) changed,
          sum_from-update_above k 0 k (owed p (s.left k)) (still_owed s) (omega arith),
          a.pushed,
          length-append s.system.log xs,
          ap length nothing,
        );
        busy = λ j lt ne. a.busy j lt (λ idles. ne (elsewhere j lt ∙ idles));
        carries = λ j lt. subst (Carries entry) (sym (elsewhere j lt)) (a.carries j lt);
        helpers =
            update_elim (λ j r. k ≤ j → IsHelper r) s.system.producers k p (λ _. helps)
              (λ j ne le. a.helpers j le);
        same =
            more_same s.system.log xs a.same
              (subst (λ l. l ≡ replicate (length l) entry) (sym nothing) refl);
        counted = a.counted;
        on = λ c lt. ap (λ cs. (cs c).active) (Produce-consumers st) ∙ a.on c lt;
      }

  -- The accounts hold in every state of the benchmark.
  pub ContentionReach-Accounts :
      {s : Contention T}
      → plan.num_consumers ≤ max_consumers
      → ContentionReach size plan entry blank s
      → Accounts s
  ContentionReach-Accounts few start = record {
    pushed = omega (arith, sum_from-const plan.num_producers 0 plan.ops_per_producer _ (λ j. refl));
    busy = λ i lt ne. absurd (ne refl);
    carries = λ i lt. tt;
    helpers = λ i le. tt;
    same = refl;
    counted = λ c. refl;
    on = (registered-active blank plan.num_consumers few).1;
  }
  ContentionReach-Accounts few (later r (push_step i lt st may)) =
      push_step-Accounts (ContentionReach-Accounts few r) i lt st may
  ContentionReach-Accounts few (later r (pop_step c lt below st stays)) =
      pop_step-Accounts (ContentionReach-Accounts few r) c st stays
  ContentionReach-Accounts few (later r (helper_step st may)) =
      helper_step-Accounts (ContentionReach-Accounts few r) _ st (λ e. (may e).0)
  ContentionReach-Accounts few (later r (join all)) =
      let a = ContentionReach-Accounts few r in
      record {
        pushed = a.pushed;
        busy = a.busy;
        carries = a.carries;
        helpers = a.helpers;
        same = a.same;
        counted = a.counted;
        on = a.on;
      }

  -- The threads of the benchmark take steps of the queue's threads.
  pub ContentionReach-Reach :
      {s : Contention T}
      → ContentionReach size plan entry blank s
      → Reach size blank plan.num_consumers s.system
  ContentionReach-Reach start = Reach.start
  ContentionReach-Reach (later r (push_step i lt st may)) =
      Reach.later (ContentionReach-Reach r) (produce i st)
  ContentionReach-Reach (later r (pop_step c lt below st stays)) =
      Reach.later (ContentionReach-Reach r) (consume c st)
  ContentionReach-Reach (later r (helper_step st may)) =
      Reach.later (ContentionReach-Reach r) (produce plan.num_producers st)
  ContentionReach-Reach (later r (join all)) = ContentionReach-Reach r
