-- ===== src/Concurrent/Produces.antt =====
-- mpmc_queue.hpp with its threads: every step of a producer, against the invariant.
use mpmc_logger.Prelude.{
  ℕ, ◌≡◌, refl, sym, subst, Option, none, some, List, [], ◌∷◌, ◌++◌, arith, update, append-nil,
}
use mpmc_logger.Queue.{IsSize, MpmcQueue, write_sequence, advance_head}
use mpmc_logger.Queue.Inv.{Core, IsBehind, HasRoom, Fits}
use mpmc_logger.Concurrent.Local.{held, Local, Scanned}
use mpmc_logger.Concurrent.{
  Producer, idle, claimed, Produce, call, load_head, load_min_tail, room, full, refresh, skip, see,
  read_tail, finish, store_min_tail, keep_min_tail, store_refresh, room_now, refuse, win, lose,
  copy, publish,
}
use mpmc_logger.Concurrent.Local.{IsBehind-Grows}
use mpmc_logger.Concurrent.Steps.{
  Effect, unclaimed, quiet, behind-HasRoom, no_mins-Scanned, skip-Scanned, read-Scanned,
  Scanned-IsBehind, set_min-Effect, claim-Effect, copy-Effect, publish-Effect, Grows-refl,
}

module _ {ℓ} {T : Type ℓ} {size : ℕ} (v : IsSize size) {q : MpmcQueue T} {hd : ℕ → Option ℕ}
    {log : List T} (i : ℕ) (core : Core size q hd log) (fits : Fits size log) where
  still :
      {p' : Producer T}
      → hd i ≡ none
      → Local size q hd log p'
      → Effect size i q q hd (update hd i none) log (log ++ []) p'
  still e l = unclaimed v q hd log i core fits none e (quiet v q hd log i core fits l)

  min_stored : {m k : ℕ} → IsBehind q hd k → IsBehind (record q { min_tail = m }) hd k
  min_stored b = IsBehind-Grows (Grows-refl q _ hd refl refl) b

  -- Every step of producer `i` keeps the invariant of the buffer and establishes what the
  -- producer then relies on.
  pub Produce-Effect :
      {p p' : Producer T} {q' : MpmcQueue T} {xs : List T}
      → Produce size q p q' p' xs
      → hd i ≡ held p
      → Local size q hd log p
      → Effect size i q q' hd (update hd i (held p')) log (log ++ xs) p'
  Produce-Effect (call x) e l = still e tt
  Produce-Effect load_head e l = still e (omega arith, tt)
  Produce-Effect (load_min_tail {h = h}) e l = still e (l.0, core.behind, tt)
  Produce-Effect (room {h = h} {m = m} r) e l =
      still e (l.0, behind-HasRoom v q hd log i core fits l.0 l.1 r, tt)
  Produce-Effect (full {h = h} {m = m} r) e l =
      still e ((l.0, l.1), no_mins-Scanned v q hd log i core fits, tt)
  Produce-Effect refresh e l = still e (tt, no_mins-Scanned v q hd log i core fits, tt)
  Produce-Effect (skip {g = g} {m = m} lt off) e l =
      still e (l.0, skip-Scanned v q hd log i core fits off l.1, tt)
  Produce-Effect (see {g = g} {m = m} lt on) e l = still e (l.0, l.1, lt, tt)
  Produce-Effect (read_tail {g = g} {m = m}) e l =
      still e (l.0, read-Scanned v q hd log i core fits l.1, tt)
  Produce-Effect (finish {g = g} {i = k} {m = m} last) e l =
      still e
        (l.0, Scanned-IsBehind v q hd log i core fits (subst (λ n. Scanned q hd n m) last l.1), tt)
  Produce-Effect (store_min_tail {h = h} {m = m} {found = found} ne) e l =
      unclaimed v q hd log i core fits none e
        (set_min-Effect v q hd log i core fits l.1 (l.0.0, min_stored l.1, tt))
  Produce-Effect (keep_min_tail {h = h} {m = m} {found = found} same) e l =
      still e (l.0.0, l.0.1, tt)
  Produce-Effect (store_refresh {found = found}) e l =
      unclaimed v q hd log i core fits none e (set_min-Effect v q hd log i core fits l.1 tt)
  Produce-Effect (room_now {h = h} {m = m} r) e l =
      still e (l.0, behind-HasRoom v q hd log i core fits l.0 l.1 r, tt)
  Produce-Effect (refuse {h = h} {m = m} r) e l = still e tt
  Produce-Effect (win {x = x} {h = h} at_head) e l =
      subst
        (λ k.
          HasRoom size q hd k
          → Effect size i q (advance_head k q) hd (update hd i (some k)) log (log ++ (x ∷ []))
              (claimed x k))
        at_head (claim-Effect v q hd log i core fits x e) l.1
  Produce-Effect (lose {h = h}) e l = still e tt
  Produce-Effect (copy {x = x} {h = h}) e l =
      unclaimed v q hd log i core fits (some h) e (copy-Effect v q hd log i core fits e l)
  Produce-Effect (publish {h = h}) e l =
      subst (λ k. Effect size i q (write_sequence size h q) hd (update hd i none) log k idle)
        (sym (append-nil log)) (publish-Effect v q hd log i core fits e l.0 l.1)
