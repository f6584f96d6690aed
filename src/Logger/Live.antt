-- ===== src/Logger/Live.antt =====
-- src/logger.cpp: the drain loop beside the producers, from its start to its end. The producers and
-- the `pop` of the drain thread take the steps of `Concurrent`: each load, store and compare-exchange
-- is one, and they interleave in any order; `request_stop` of `shutdown` may come at any time. An
-- entry is handled in the step in which its `pop` returns, since that touches nothing the producers
-- see. `backoff` is what an empty round does, besides waiting.
pub mod Moves
pub mod Walk
pub mod Orderly
pub mod Pops
pub mod Ends
pub mod Session
use mpmc_logger.Prelude.{
  ℕ, zero, suc, ◌+◌, ◌<◌, ◌≡◌, ◌≢◌, Bool, true, false, Option, none, some, List, [], ◌∷◌, ◌++◌,
  update,
}
use mpmc_logger.Queue.{MpmcQueue, slot_index, max_consumers}
use mpmc_logger.Entry.{LogEntry}
use mpmc_logger.Sink.{Os}
use mpmc_logger.Concurrent.{Producer, Produce, Consumer, waiting, at, Consume, System}
use mpmc_logger.Logger.{OutputFormat, DrainState, queue_size, handle, backoff}

-- Where the drain thread stands: inside or before a `pop` of a batch, before the look at the request
-- to stop, in the final drain, or past its end, with the queue as its last `pop` saw it, a ghost.
pub data Place : Type 0 where
  batch : (left : ℕ) (got_any : Bool) (consecutive_empty : ℕ) → Place
  checking : (got_any : Bool) (consecutive_empty : ℕ) → Place
  last : Place
  ended : (seen : System LogEntry) → Place

pub data IsPopping : Place → Type 0 where
  in_batch : {left n : ℕ} {got : Bool} → IsPopping (batch (suc left) got n)
  in_last : IsPopping last

-- The queue with its threads, the drain thread, and whether the stop is requested.
pub record Live (W : Type 0) : Type 0 where
  pub system : System LogEntry
  pub drain : DrainState W
  pub place : Place
  pub stop : Bool

-- The fields of the logger that the drain thread reads.
pub record DrainConfig : Type 0 where
  pub output_format : OutputFormat
  pub consumer_id : ℕ
  pub drain_batch_size : ℕ
  pub spin_count_before_yield : ℕ

-- After a batch: another round, or the final drain.
unfoldable pub next_round :
    DrainConfig → (got_any : Bool) (consecutive_empty : ℕ) (stop : Bool) → Place
next_round c true n stop = batch c.drain_batch_size false 0
next_round c false n true = last
next_round c false n false =
    batch c.drain_batch_size false (backoff false c.spin_count_before_yield n)

-- A `pop` returns `false`.
pub data NotFound (c : ℕ) (q : MpmcQueue LogEntry) : Consumer LogEntry → Type 0 where
  is_inactive : c < max_consumers → (q.consumers c).active ≡ false → NotFound c q waiting
  no_item : {t : ℕ} → (q.slots (slot_index queue_size t)).sequence ≢ t → NotFound c q (at t)

abbrev pub after_consume :
    (c : ℕ)
    → MpmcQueue LogEntry
    → Consumer LogEntry
    → List LogEntry
    → System LogEntry
    → System LogEntry
after_consume c q p xs s = record s {
  memory = q;
  consumers = update s.consumers c p;
  received = update s.received c (s.received c ++ xs);
}

abbrev pub after_produce :
    (i : ℕ)
    → MpmcQueue LogEntry
    → Producer LogEntry
    → List LogEntry
    → System LogEntry
    → System LogEntry
after_produce i q p xs s = record s {
  memory = q;
  producers = update s.producers i p;
  log = s.log ++ xs;
}

module _ {W : Type 0} (os : Os W) (to_string : ℕ → List ℕ) (date_of : ℕ → List ℕ)
    (c : DrainConfig) where
  pub data LiveStep (s : Live W) : Live W → Type 0 where
    put :
        (i : ℕ) {q : MpmcQueue LogEntry} {p : Producer LogEntry} {xs : List LogEntry}
        → Produce queue_size s.system.memory (s.system.producers i) q p xs
        → LiveStep s (record s { system = after_produce i q p xs s.system })
    request_stop : LiveStep s (record s { stop = true })
    -- A step inside `pop`.
    popping :
        {q : MpmcQueue LogEntry} {p : Consumer LogEntry}
        → IsPopping s.place
        → Consume queue_size c.consumer_id s.system.memory (s.system.consumers c.consumer_id) q p []
        → p ≢ waiting
        → LiveStep s (record s { system = after_consume c.consumer_id q p [] s.system })
    take_one :
        {left n : ℕ} {got : Bool} {q : MpmcQueue LogEntry} (e : LogEntry) (d : DrainState W)
        → s.place ≡ batch (suc left) got n
        → Consume queue_size c.consumer_id s.system.memory
            (s.system.consumers c.consumer_id)
            q
            waiting
            (e ∷ [])
        → handle os to_string date_of c.output_format e s.drain ≡ some d
        → LiveStep s (record s {
          system = after_consume c.consumer_id q waiting (e ∷ []) s.system;
          drain = d;
          place = batch left true n;
        })
    take_none :
        {left n : ℕ} {got : Bool}
        → s.place ≡ batch (suc left) got n
        → NotFound c.consumer_id s.system.memory (s.system.consumers c.consumer_id)
        → LiveStep s (record s {
          system = after_consume c.consumer_id s.system.memory waiting [] s.system;
          place = checking got n;
        })
    batch_full :
        {n : ℕ} {got : Bool}
        → s.place ≡ batch zero got n
        → LiveStep s (record s { place = checking got n })
    check :
        {n : ℕ} {got : Bool}
        → s.place ≡ checking got n
        → LiveStep s (record s { place = next_round c got n s.stop })
    last_one :
        {q : MpmcQueue LogEntry} (e : LogEntry) (d : DrainState W)
        → s.place ≡ last
        → Consume queue_size c.consumer_id s.system.memory
            (s.system.consumers c.consumer_id)
            q
            waiting
            (e ∷ [])
        → handle os to_string date_of c.output_format e s.drain ≡ some d
        → LiveStep s (record s {
          system = after_consume c.consumer_id q waiting (e ∷ []) s.system;
          drain = d;
        })
    last_none :
        s.place ≡ last
        → NotFound c.consumer_id s.system.memory (s.system.consumers c.consumer_id)
        → LiveStep s (record s {
          system = after_consume c.consumer_id s.system.memory waiting [] s.system;
          place = ended s.system;
        })

  pub data LiveReach (s : Live W) : Live W → Type 0 where
    here : LiveReach s s
    later : {t u : Live W} → LiveReach s t → LiveStep t u → LiveReach s u
