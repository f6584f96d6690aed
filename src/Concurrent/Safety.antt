-- ===== src/Concurrent/Safety.antt =====
-- mpmc_queue.hpp with its threads: what the invariant gives in every state that can be reached,
-- for any number of producers and at most 32 consumers registered before the first call.
use mpmc_logger.Prelude.{
  ℕ, ◌+◌, ◌≤◌, ◌<◌, ◌≡◌, ◌≢◌, sym, ap, ◌∙◌, subst, true, some, arith, length, get_elem?, take,
}
use mpmc_logger.Queue.{IsSize, slot_index}
use mpmc_logger.Queue.Index.{slot_index-injective}
use mpmc_logger.Queue.Inv.{Fits, slot_of}
use mpmc_logger.Concurrent.{matched, System, Reach}
use mpmc_logger.Concurrent.Local.{held, Reading}
use mpmc_logger.Concurrent.Inv.{Reach-Inv, holds}

module _ {ℓ} {T : Type ℓ} {size : ℕ} (v : IsSize size) {blank : T} {n : ℕ} {s : System T}
    (r : Reach size blank n s) (fits : Fits size s.log) where
  -- In every reachable state, whatever the interleaving of producers, consumers and unregistrations,
  -- each consumer has been given exactly the first `tail` items in the order in which their
  -- positions were claimed.
  pub received_in_order :
      (c : ℕ)
      → (s.received c ≡ take (s.memory.consumers c).tail s.log)
        × ((s.memory.consumers c).tail ≤ length s.log)
  received_in_order c =
      let inv = Reach-Inv v r fits in
      (inv.delivered c, omega (arith, inv.threads.core.tail_le c, inv.threads.core.count))

  -- In every reachable state, two producers that have claimed different positions and not yet
  -- published them write to different slots.
  pub producers_apart :
      (i j h k : ℕ)
      → held (s.producers i) ≡ some h
      → held (s.producers j) ≡ some k
      → i ≢ j
      → slot_index size h ≢ slot_index size k
  producers_apart i j h k mine other ne same =
      let core = (Reach-Inv v r fits).threads.core in
      let e : h ≡ k =
        slot_index-injective v h k
          (omega (arith, core.held_lt i h mine, core.window_held j k other))
          (omega (arith, core.held_lt j k other, core.window_held i h mine)) same in
      ne (core.unique i j h mine (other ∙ ap some (sym e)))

  -- In every reachable state, no producer that holds a claim writes to the slot that a consumer is
  -- copying out.
  pub consumer_undisturbed :
      (i c h t : ℕ)
      → held (s.producers i) ≡ some h
      → s.consumers c ≡ matched t
      → slot_index size h ≢ slot_index size t
  consumer_undisturbed i c h t mine there same =
      let inv = (Reach-Inv v r fits).threads in
      let at_t = subst (λ p. Reading s.memory (holds s) s.log c p) there (inv.readers c) in
      at_t.2.1 i (
        mine
        ∙ ap some (
            slot_index-injective v h t
              (omega (arith, inv.core.held_lt i h mine, inv.core.window_tail c at_t.0, at_t.1))
              (omega (arith, at_t.2.0, inv.core.window_held i h mine)) same))

  -- In every reachable state, a registered consumer that is behind the last claim, and whose next
  -- item no producer still writes, finds that item: the test of `pop` succeeds and the slot holds
  -- the item.
  pub next_item_ready :
      (c : ℕ)
      → (s.memory.consumers c).active ≡ true
      → (s.memory.consumers c).tail < length s.log
      → ((i : ℕ) → held (s.producers i) ≢ some (s.memory.consumers c).tail)
      → ((slot_of size s.memory (s.memory.consumers c).tail).sequence ≡ (s.memory.consumers c).tail)
        × (get_elem? s.log (s.memory.consumers c).tail
            ≡ some (slot_of size s.memory (s.memory.consumers c).tail).item)
  next_item_ready c on lt free =
      let core = (Reach-Inv v r fits).threads.core in
      core.published (s.memory.consumers c).tail (omega (arith, core.count)) (core.window_tail c on)
        free

  -- In every reachable state, an active consumer is at most SIZE items behind the last claimed
  -- position, and the cached minimum is never ahead of it.
  pub never_lapped :
      (c : ℕ)
      → (s.memory.consumers c).active ≡ true
      → (length s.log ≤ (s.memory.consumers c).tail + size)
        × (s.memory.min_tail ≤ (s.memory.consumers c).tail)
  never_lapped c on =
      let core = (Reach-Inv v r fits).threads.core in
      (omega (arith, core.window_tail c on, core.count), core.behind.le_tail c on)
