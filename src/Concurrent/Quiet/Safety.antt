-- ===== src/Concurrent/Quiet/Safety.antt =====
-- mpmc_queue.hpp: a registration is safe while no producer is inside a call.
use mpmc_logger.Prelude.{
  ℕ, ◌+◌, ◌≤◌, ◌<◌, ◌≡◌, ◌≢◌, refl, ap, ◌∙◌, subst, true, some, some-injective, arith, length,
  length-append, get_elem?, update_self,
}
use mpmc_logger.Queue.{IsSize, MpmcQueue, u32_mod, new_queue}
use mpmc_logger.Queue.Inv.{Fits, slot_of}
use mpmc_logger.Queue.Push.{new_queue-Idle}
use mpmc_logger.Concurrent.{idle}
use mpmc_logger.Concurrent.Local.{held}
use mpmc_logger.Concurrent.Late.{
  Registrar, outside, headed, placed, Register, count, too_many, load_head, store_tail, activate,
  LateSystem, unregistered, place_tail, activate_consumer,
}
use mpmc_logger.Concurrent.Quiet.{IsPlacing, QuietReach, start, produced, consumed, enrolled}
use mpmc_logger.Concurrent.Quiet.Inv.{
  number, Settled, HasSegment, Open, QuietInv, produced-Inv, consumed-Inv,
}
use mpmc_logger.Concurrent.Quiet.Enrol.{
  moved, count-Inv, too_many-Inv, load_head-Inv, entered-Inv, no_number,
}

module _ {ℓ} {T : Type ℓ} {size : ℕ} (v : IsSize size) where
  module _ {s : LateSystem T} (inv : QuietInv size s) (i : ℕ) where
    store_tail-Inv :
        (id h : ℕ)
        → s.registrars i ≡ headed id h
        → QuietInv size (moved v inv i (place_tail id h s.system.memory) (placed id))
    store_tail-Inv id h e =
        let mine : number (s.registrars i) ≡ some id = ap number e in
        let o = inv.opened i id mine in
        let (at_head, rest) = subst (Settled s.system) e (inv.settled i) in
        let entry = record (s.system.memory.consumers id) { tail = h } in
        let self = update_self s.system.memory.consumers id entry in
        entered-Inv v inv i id entry o mine (placed id) at_head rest
          (λ d k.
            let same : id ≡ d = some-injective _ _ k in
            (
              subst (Open (moved v inv i (place_tail id h s.system.memory) (placed id)).system) same
                  (record {
                    below = o.below;
                    small = o.small;
                    fresh = record {
                      off = ap (λ x. x.active) self ∙ o.fresh.off;
                      unfed = o.fresh.unfed;
                    };
                  }),
              same,
            ))
          (ap (λ x. x.tail) self ∙ at_head, rest)

    activate-Inv :
        (id : ℕ)
        → s.registrars i ≡ placed id
        → QuietInv size (moved v inv i (activate_consumer id s.system.memory) outside)
    activate-Inv id e =
        let mine : number (s.registrars i) ≡ some id = ap number e in
        let (at_head, rest) = subst (Settled s.system) e (inv.settled i) in
        entered-Inv v inv i id (record (s.system.memory.consumers id) { active = true })
          (inv.opened i id mine) mine outside at_head rest (λ d k. no_number k) tt

    enrolled-Inv :
        {g0 g : Registrar} {q : MpmcQueue T}
        → Register s.system.memory g0 q g
        → s.registrars i ≡ g0
        → (IsPlacing g → (k : ℕ) → s.system.producers k ≡ idle)
        → s.system.memory.num_consumers + 1 < u32_mod
        → QuietInv size (moved v inv i q g)
    enrolled-Inv (count lt) e calm small = count-Inv v inv i lt small
    enrolled-Inv (too_many le) e calm small = too_many-Inv v inv i small
    enrolled-Inv (load_head {id = id}) e calm small = load_head-Inv v inv i id e (calm tt)
    enrolled-Inv (store_tail {id = id} {h = h}) e calm small = store_tail-Inv id h e
    enrolled-Inv (activate {id = id}) e calm small = activate-Inv id e

  unregistered-Inv : (blank : T) → QuietInv size (unregistered blank)
  unfolding new_queue
  unregistered-Inv blank = record {
    threads = record { core = new_queue-Idle v blank; locals = λ i. tt; readers = λ c. tt };
    given = λ c. (0, omega arith, refl);
    fresh = λ c le. record { off = refl; unfed = refl };
    opened = λ i id e. no_number e;
    apart = λ i j id e f. no_number e;
    settled = λ i. tt;
  }

  QuietReach-Inv :
      {blank : T} {s : LateSystem T}
      → QuietReach size blank s
      → Fits size s.system.log
      → QuietInv size s
  QuietReach-Inv {blank} start fits = unregistered-Inv blank
  QuietReach-Inv (produced {s = s} r calm i {xs = xs} st) fits =
      produced-Inv v (QuietReach-Inv r (omega (arith, length-append s.system.log xs))) calm i fits
        st
  QuietReach-Inv (consumed r c st) fits = consumed-Inv v (QuietReach-Inv r fits) c fits st
  QuietReach-Inv (enrolled r i st calm small) fits =
      enrolled-Inv (QuietReach-Inv r fits) i st refl calm small

  module _ {blank : T} {s : LateSystem T} (r : QuietReach size blank s)
      (fits : Fits size s.system.log) (c : ℕ)
      (on : (s.system.memory.consumers c).active ≡ true) where
    -- With registrations at any time during which no producer is inside a call, from the load of the
    -- head to the end, in every reachable state an active consumer has been given, in order and
    -- without a gap, the items from some position on up to its tail; it is at most SIZE items behind
    -- the last claimed position, and the cached minimum is never ahead of it. The counter of the
    -- registrations has not wrapped around.
    pub late_in_order :
        HasSegment s.system c
        × (length s.system.log ≤ (s.system.memory.consumers c).tail + size)
        × (s.system.memory.min_tail ≤ (s.system.memory.consumers c).tail)
    late_in_order =
        let inv = QuietReach-Inv r fits in
        let core = inv.threads.core in
        (inv.given c, omega (arith, core.window_tail c on, core.count), core.behind.le_tail c on)

    -- When it is behind, and no producer still writes its next item, the test of `pop` succeeds and
    -- the slot holds that item.
    pub late_item_ready :
        (s.system.memory.consumers c).tail < length s.system.log
        → ((i : ℕ) → held (s.system.producers i) ≢ some (s.system.memory.consumers c).tail)
        → ((slot_of size s.system.memory (s.system.memory.consumers c).tail).sequence
            ≡ (s.system.memory.consumers c).tail)
          × (get_elem? s.system.log (s.system.memory.consumers c).tail
              ≡ some (slot_of size s.system.memory (s.system.memory.consumers c).tail).item)
    late_item_ready lt free =
        let core = (QuietReach-Inv r fits).threads.core in
        core.published (s.system.memory.consumers c).tail (omega (arith, core.count))
          (core.window_tail c on) free
