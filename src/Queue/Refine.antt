-- ===== src/Queue/Refine.antt =====
-- mpmc_queue.hpp, one call at a time: the ring buffer behaves as the log of `Broadcast`.
use mpmc_logger.Prelude.{
  ℕ, ◌+◌, ◌≤◌, ◌≡◌, ◌≢◌, refl, sym, ap, ◌∙◌, true, false, none, some, List, [], ◌∷◌, ◌++◌, arith,
  length, get_elem?, update, ℕ_discrete, inl, inr, Bool-cases, length-append, get_elem?-eq-none,
  if-true, dec_lt,
}
use mpmc_logger.Broadcast
use mpmc_logger.Broadcast.{Broadcast, Call, put, get, Reply, pushed, popped}
use mpmc_logger.Queue.{IsSize, MpmcQueue, advance_tail, push, pop}
use mpmc_logger.Queue.Inv.{Fits, slot_of, advance_tail-Core, sequence_eq_tail}
use mpmc_logger.Queue.Push.{Idle, view, push-Pushed}
use mpmc_logger.Queue.Lagging.{refused-eq-lagging}

module _ {ℓ} {T : Type ℓ} {size : ℕ} (v : IsSize size) where
  -- `push` between calls, beside an active consumer, answers as the specification does, leaves its
  -- log, which grows by the item or stays, and keeps the invariant.
  pub push_refines :
      {q : MpmcQueue T} {log : List T} (c : ℕ) (x : T)
      → Fits size (log ++ (x ∷ []))
      → Idle size q log
      → (q.consumers c).active ≡ true
      → (log' : List T) × (length log' ≤ length log + 1)
        × Idle size (push size x q).1 log'
        × (((push size x q).0, view (push size x q).1 log') ≡ Broadcast.push size x (view q log))
  unfolding Broadcast.push
  push_refines {q} {log} c x fits core on =
      let p = push-Pushed v x fits core in
      let spec = refused-eq-lagging v c (omega (arith, length-append log (x ∷ []))) core on in
      elim p.outcome [
        | inl (full, no_push, kept) ↦
            (log, omega arith, kept, rw (sym spec ∙ full, no_push, p.same_readers))
        | inr (room, did_push, kept) ↦ (
          log ++ (x ∷ []),
          omega (arith, length-append log (x ∷ [])),
          kept,
          rw (sym spec ∙ room, did_push, p.same_readers),
        )
      ]

  pop_of_inactive :
      (q : MpmcQueue T) (c : ℕ) → (q.consumers c).active ≡ false → pop size c q ≡ (none, q)
  unfolding pop
  pop_of_inactive q c off = rw off

  pop_of_unready :
      (q : MpmcQueue T) (c : ℕ)
      → (slot_of size q (q.consumers c).tail).sequence ≢ (q.consumers c).tail
      → pop size c q ≡ (none, q)
  unfolding pop
  pop_of_unready q c ne = ground arith

  pop_of_ready :
      (q : MpmcQueue T) (c : ℕ)
      → (q.consumers c).active ≡ true
      → (slot_of size q (q.consumers c).tail).sequence ≡ (q.consumers c).tail
      → pop size c q
        ≡ (some (slot_of size q (q.consumers c).tail).item, advance_tail c (q.consumers c).tail q)
  unfolding pop
  pop_of_ready q c on e = ground arith

  -- At the head of the log there is nothing to read, and nothing matches.
  ready_or_end :
      {q : MpmcQueue T} {log : List T} (c : ℕ)
      → Fits size log
      → Idle size q log
      → (q.consumers c).active ≡ true
      → (slot_of size q (q.consumers c).tail).sequence ≢ (q.consumers c).tail
      → length log ≤ (q.consumers c).tail
  ready_or_end {q} {log} c fits core on ne = elim (dec_lt (q.consumers c).tail q.head) [
    | yes lt ↦
        absurd (ne (core.published (q.consumers c).tail lt (core.window_tail c on) (λ i e. cc)).0)
    | no ge ↦ omega (arith, core.count)
  ]

  pub spec_pop :
      (b : Broadcast T) (c : ℕ) (x : T)
      → (b.readers c).active ≡ true
      → get_elem? b.log (b.readers c).tail ≡ some x
      → Broadcast.pop c b ≡ Broadcast.read_at c b (some x)
  unfolding Broadcast.pop
  spec_pop b c x on found = if-true _ _ on ∙ ap (Broadcast.read_at c b) found

  pub spec_pop_end :
      (b : Broadcast T) (c : ℕ)
      → (b.readers c).active ≡ true
      → get_elem? b.log (b.readers c).tail ≡ none
      → Broadcast.pop c b ≡ (none, b)
  unfolding Broadcast.pop
  spec_pop_end b c on end_of_log = if-true _ _ on ∙ ap (Broadcast.read_at c b) end_of_log

  -- `pop` between calls, of any consumer, active or not, answers as the specification does, leaves
  -- its readers, and keeps the invariant.
  pub pop_refines :
      {q : MpmcQueue T} {log : List T} (c : ℕ)
      → Fits size log
      → Idle size q log
      → Idle size (pop size c q).1 log
        × (((pop size c q).0, view (pop size c q).1 log) ≡ Broadcast.pop c (view q log))
  unfolding Broadcast.pop
  pop_refines {q} {log} c fits core = elim (Bool-cases (q.consumers c).active) [
    | inr off ↦ rw (pop_of_inactive q c off, off) (core, refl)
    | inl on ↦
        elim (ℕ_discrete (slot_of size q (q.consumers c).tail).sequence (q.consumers c).tail) [
          | no ne ↦
              rw
                (
                  pop_of_unready q c ne,
                  on,
                  get_elem?-eq-none log (q.consumers c).tail (ready_or_end c fits core on ne),
                )
                (core, refl)
          | yes e ↦
              let (lt, free) = sequence_eq_tail v fits core c on e in
              let found = (core.published (q.consumers c).tail lt (core.window_tail c on) free).1 in
              rw (pop_of_ready q c on e) (
                advance_tail-Core v fits core c lt free,
                ap
                      (λ t. (
                        some (slot_of size q (q.consumers c).tail).item,
                        record (view q log) {
                          readers = update q.consumers c (record (q.consumers c) { tail = t });
                        },
                      ))
                      (omega (arith, core.count))
                    ∙ sym (spec_pop (view q log) c _ on found),
              )
        ]
  ]
