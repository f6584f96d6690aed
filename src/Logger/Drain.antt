-- ===== src/Logger/Drain.antt =====
-- src/logger.cpp: the drain loop writes the entries of the queue, in order, and ends.
use mpmc_logger.Prelude.{
  ℕ, zero, suc, ◌+◌, ◌≤◌, ◌<◌, ◌≡◌, refl, sym, ap, ◌∙◌, Bool, true, false, Option, none, some, List,
  [], ◌∷◌, ◌++◌, arith, length, take, drop, take-append-drop, ◌>>=◌, get_elem?-drop,
  get_elem?-eq-none, update_self, bind_assoc, fun_ext, length-drop,
}
use mpmc_logger.Queue.{IsSize, MpmcQueue, pop}
use mpmc_logger.Queue.Inv.{Fits}
use mpmc_logger.Queue.Push.{Idle, view}
use mpmc_logger.Queue.Refine.{pop_refines, spec_pop, spec_pop_end}
use mpmc_logger.Entry.{LogEntry}
use mpmc_logger.Sink.{Os}
use mpmc_logger.Logger.{
  queue_size, OutputFormat, DrainState, handle, drain_batch, drain_rest, drain_stopping,
}

-- The entries that consumer `c` has not read.
abbrev pub pending : {T : Type 0} → ℕ → MpmcQueue T → List T → List T
pending c q log = drop (q.consumers c).tail log

-- What `pop` of a consumer between calls leaves, when it returns `out`.
record Popped {T : Type 0} (size c : ℕ) (q : MpmcQueue T) (log : List T) (out : Option T)
    (rest : List T) : Type 0 where
  out_eq : (pop size c q).0 ≡ out
  idle : Idle size (pop size c q).1 log
  active : ((pop size c q).1.consumers c).active ≡ true
  pending_eq : pending c (pop size c q).1 log ≡ rest

module _ {T : Type 0} {size : ℕ} (v : IsSize size) {q : MpmcQueue T} {log : List T} (c : ℕ)
    (fits : Fits size log) (idle : Idle size q log) (on : (q.consumers c).active ≡ true) where
  -- The first pending item is taken.
  pop_next :
      (x : T) (rest : List T) → pending c q log ≡ x ∷ rest → Popped size c q log (some x) rest
  pop_next x rest e =
      let (kept, same) = pop_refines v c fits idle in
      let (found, next) = get_elem?-drop (q.consumers c).tail log x rest e in
      let reply = same ∙ spec_pop v (view q log) c x on found in
      let reader : (pop size c q).1.consumers c
          ≡ record (q.consumers c) { tail = (q.consumers c).tail + 1 } =
        ap (λ r. r.1.readers c) reply ∙ update_self q.consumers c _ in
      record {
        out_eq = ap (λ r. r.0) reply;
        idle = kept;
        active = ap (λ r. r.active) reader ∙ on;
        pending_eq =
            ap (λ r. drop r.tail log) reader
            ∙ ap (λ k. drop k log) {y = suc (q.consumers c).tail} (omega arith)
            ∙ next;
      }

  -- With nothing pending, nothing is returned and nothing is read.
  pop_end : pending c q log ≡ [] → Popped size c q log none []
  pop_end e =
      let (kept, same) = pop_refines v c fits idle in
      let at_end : length log ≤ (q.consumers c).tail =
        omega (arith, length-drop (q.consumers c).tail log, ap length e) in
      let reply =
        same
        ∙ spec_pop_end v (view q log) c on (get_elem?-eq-none log (q.consumers c).tail at_end) in
      let reader = ap (λ r. r.1.readers c) reply in
      record {
        out_eq = ap (λ r. r.0) reply;
        idle = kept;
        active = ap (λ r. r.active) reader ∙ on;
        pending_eq = ap (λ r. drop r.tail log) reader ∙ e;
      }

pub queue_size-IsSize : IsSize queue_size
queue_size-IsSize = record { power = refl; large = omega arith }

-- The queue of the logger between calls, with these entries pending for its consumer.
pub record Pending (log : List LogEntry) (c : ℕ) (q : MpmcQueue LogEntry) (es : List LogEntry)
    : Type 0 where
  pub idle : Idle queue_size q log
  pub active : (q.consumers c).active ≡ true
  pub pending_eq : pending c q log ≡ es

module _ {W : Type 0} (os : Os W) (to_string : ℕ → List ℕ) (date_of : ℕ → List ℕ)
    (fmt : OutputFormat) where
  -- The entries of a list, one after the other; `none` where the process ends.
  unfoldable pub handle_all : List LogEntry → DrainState W → Option (DrainState W)
  handle_all [] d = some d
  handle_all (e ∷ es) d = handle os to_string date_of fmt e d >>= handle_all es

  pub handle_all-append :
      (xs ys : List LogEntry) (d : DrainState W)
      → handle_all (xs ++ ys) d ≡ (handle_all xs d >>= handle_all ys)
  unfolding handle_all
  handle_all-append [] ys d = refl
  handle_all-append (x ∷ xs) ys d =
      ap (λ k. handle os to_string date_of fmt x d >>= k)
        (fun_ext (λ d'. handle_all-append xs ys d'))
      ∙ sym (bind_assoc (handle os to_string date_of fmt x d) (handle_all xs) (handle_all ys))

  module _ (log : List LogEntry) (c : ℕ) (fits : Fits queue_size log) where
    -- The final drain handles what is pending.
    rest_lem :
        (fuel : ℕ) (es : List LogEntry) (q : MpmcQueue LogEntry)
        → length es < fuel
        → Pending log c q es
        → (q' : MpmcQueue LogEntry) × Pending log c q' []
          × ((d : DrainState W)
              → drain_rest os to_string date_of fuel fmt c q d
                ≡ (handle_all es d >>= (λ d'. some (some (q', d')))))
    unfolding drain_rest handle_all
    rest_lem zero es q lt p = absurd (omega arith)
    rest_lem (suc fuel) [] q lt p =
        let next = pop_end queue_size-IsSize c fits p.idle p.active p.pending_eq in
        (
          (pop queue_size c q).1,
          record { idle = next.idle; active = next.active; pending_eq = next.pending_eq },
          λ d.
              ap
                (λ o. elim o [
                  | none ↦ some (some ((pop queue_size c q).1, d))
                  | some e ↦ handle os to_string date_of fmt e d >>= (λ d'.
                      drain_rest os to_string date_of fuel fmt c (pop queue_size c q).1 d')
                ])
                next.out_eq,
        )
    rest_lem (suc fuel) (e ∷ es) q lt p =
        let next = pop_next queue_size-IsSize c fits p.idle p.active e es p.pending_eq in
        let (q', done, same) =
          rest_lem fuel es (pop queue_size c q).1 (omega arith)
            (record { idle = next.idle; active = next.active; pending_eq = next.pending_eq }) in
        (
          q',
          done,
          λ d.
              ap
                (λ o. elim o [
                  | none ↦ some (some ((pop queue_size c q).1, d))
                  | some e ↦ handle os to_string date_of fmt e d >>= (λ d'.
                      drain_rest os to_string date_of fuel fmt c (pop queue_size c q).1 d')
                ])
                next.out_eq
              ∙ ap (λ k. handle os to_string date_of fmt e d >>= k) (fun_ext same)
              ∙ sym (
                  bind_assoc (handle os to_string date_of fmt e d) (handle_all es)
                    (λ d'. some (some (q', d')))),
        )

    abbrev got_after : Bool → List LogEntry → Bool
    got_after got [] = got
    got_after got (e ∷ es) = true

    got_after-true : (es : List LogEntry) → got_after true es ≡ true
    got_after-true [] = refl
    got_after-true (e ∷ es) = refl

    -- A batch handles as many pending entries as it is long.
    batch_lem :
        (left : ℕ) (got : Bool) (es : List LogEntry) (q : MpmcQueue LogEntry)
        → Pending log c q es
        → (q' : MpmcQueue LogEntry) × Pending log c q' (drop left es)
          × ((d : DrainState W)
              → drain_batch os to_string date_of left got fmt c q d ≡ (
                  handle_all (take left es) d
                  >>= (λ d'. some (got_after got (take left es), q', d'))))
    unfolding drain_batch handle_all
    batch_lem zero got es q p = (q, p, λ d. refl)
    batch_lem (suc left) got [] q p =
        let next = pop_end queue_size-IsSize c fits p.idle p.active p.pending_eq in
        (
          (pop queue_size c q).1,
          record { idle = next.idle; active = next.active; pending_eq = next.pending_eq },
          λ d.
              ap
                (λ o. elim o [
                  | none ↦ some (got, (pop queue_size c q).1, d)
                  | some e ↦ handle os to_string date_of fmt e d >>= (λ d'.
                      drain_batch os to_string date_of left true fmt c (pop queue_size c q).1 d')
                ])
                next.out_eq,
        )
    batch_lem (suc left) got (e ∷ es) q p =
        let next = pop_next queue_size-IsSize c fits p.idle p.active e es p.pending_eq in
        let (q', done, same) =
          batch_lem left true es (pop queue_size c q).1
            (record { idle = next.idle; active = next.active; pending_eq = next.pending_eq }) in
        (
          q',
          done,
          λ d.
              ap
                (λ o. elim o [
                  | none ↦ some (got, (pop queue_size c q).1, d)
                  | some e ↦ handle os to_string date_of fmt e d >>= (λ d'.
                      drain_batch os to_string date_of left true fmt c (pop queue_size c q).1 d')
                ])
                next.out_eq
              ∙ ap (λ k. handle os to_string date_of fmt e d >>= k) (fun_ext same)
              ∙ sym (
                  bind_assoc (handle os to_string date_of fmt e d) (handle_all (take left es))
                    (λ d'. some (got_after true (take left es), q', d')))
              ∙ ap (λ b. handle_all (e ∷ take left es) d >>= (λ d'. some (b, q', d')))
                  (got_after-true (take left es)),
        )

    -- What follows a batch.
    abbrev after_batch :
        (rounds fuel batch : ℕ)
        → Bool × MpmcQueue LogEntry × DrainState W
        → Option (Option (MpmcQueue LogEntry × DrainState W))
    after_batch rounds fuel batch r = elim r.0 [
      | true ↦ drain_stopping os to_string date_of rounds fuel batch fmt c r.1 r.2
      | false ↦ drain_rest os to_string date_of fuel fmt c r.1 r.2
    ]

    -- With nobody pushing any more, and more rounds and fuel than pending entries, the drain loop
    -- ends, whatever the batch size: it has handled exactly the pending entries in their order,
    -- unless one of them ended the process, and no entry is left.
    pub drain_stopping_lem :
        (rounds fuel batch : ℕ) (es : List LogEntry) (q : MpmcQueue LogEntry)
        → length es < rounds
        → length es < fuel
        → Pending log c q es
        → (q' : MpmcQueue LogEntry) × Pending log c q' []
          × ((d : DrainState W)
              → drain_stopping os to_string date_of rounds fuel batch fmt c q d
                ≡ (handle_all es d >>= (λ d'. some (some (q', d')))))
    unfolding drain_stopping
    drain_stopping_lem zero fuel batch es q lt lt' p = absurd (omega arith)
    drain_stopping_lem (suc rounds) fuel zero es q lt lt' p =
        let (q1, p1, same) = batch_lem zero false es q p in
        let (q2, done, rest) = rest_lem fuel es q1 lt' p1 in
        (
          q2,
          done,
          λ d.
              ap (λ o. o >>= after_batch rounds fuel zero) (same d) ∙ (unfold handle_all in rest d),
        )
    drain_stopping_lem (suc rounds) fuel (suc batch) [] q lt lt' p =
        let (q1, p1, same) = batch_lem (suc batch) false [] q p in
        let (q2, done, rest) = rest_lem fuel [] q1 lt' p1 in
        (
          q2,
          done,
          λ d.
              ap (λ o. o >>= after_batch rounds fuel (suc batch)) (same d)
              ∙ (unfold handle_all in rest d),
        )
    drain_stopping_lem (suc rounds) fuel (suc batch) (e ∷ es) q lt lt' p =
        let (q1, p1, same) = batch_lem (suc batch) false (e ∷ es) q p in
        let shorter = length-drop batch es in
        let (q2, done, rest) =
          drain_stopping_lem rounds fuel (suc batch) (drop batch es) q1 (omega arith) (omega arith)
            p1 in
        let first = e ∷ take batch es in
        (
          q2,
          done,
          λ d.
              ap (λ o. o >>= after_batch rounds fuel (suc batch)) (same d)
              ∙ bind_assoc (handle_all first d) (λ d'. some (true, q1, d'))
                  (after_batch rounds fuel (suc batch))
              ∙ ap (λ k. handle_all first d >>= k) (fun_ext rest)
              ∙ sym (
                  bind_assoc (handle_all first d) (handle_all (drop batch es))
                    (λ d'. some (some (q2, d'))))
              ∙ ap (λ o. o >>= (λ d'. some (some (q2, d'))))
                  (sym (handle_all-append first (drop batch es) d))
              ∙ ap (λ l. handle_all (e ∷ l) d >>= (λ d'. some (some (q2, d'))))
                  (take-append-drop batch es),
        )
