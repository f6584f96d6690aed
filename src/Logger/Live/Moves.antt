-- ===== src/Logger/Live/Moves.antt =====
-- src/logger.cpp: what the steps of `pop` do to the queue of the drain thread.
use mpmc_logger.Prelude.{ℕ, ◌≡◌, ◌≢◌, refl, ap, List, [], ◌∷◌, update_self}
use mpmc_logger.Queue.{MpmcQueue}
use mpmc_logger.Entry.{LogEntry}
use mpmc_logger.Concurrent.{Consumer, waiting, Consume, System}
use mpmc_logger.Logger.{queue_size}
use mpmc_logger.Logger.Live.{
  Place, ended, IsPopping, in_batch, in_last, NotFound, is_inactive, no_item,
}

pub popping_going : {p : Place} (seen : System LogEntry) → IsPopping p → p ≢ ended seen
popping_going seen in_batch h = cc
popping_going seen in_last h = cc

pub ended_inj : {s t : System LogEntry} → ended s ≡ ended t → s ≡ t
ended_inj h = cc

-- Inside `pop` the queue stays as it is.
pub Consume-inside :
    {c : ℕ} {q q' : MpmcQueue LogEntry} {p p' : Consumer LogEntry} {xs : List LogEntry}
    → Consume queue_size c q p q' p' xs
    → p' ≢ waiting
    → q' ≡ q
Consume-inside (Consume.inactive lt off) ne = refl
Consume-inside (Consume.enter on) ne = refl
Consume-inside Consume.load_tail ne = refl
Consume-inside (Consume.not_ready e) ne = refl
Consume-inside (Consume.is_ready e) ne = refl
Consume-inside Consume.read ne = refl
Consume-inside Consume.store_tail ne = absurd (ne refl)
Consume-inside (Consume.unregister lt) ne = absurd (ne refl)

nil_cons : {e : LogEntry} {es : List LogEntry} → [] ≢ e ∷ es
nil_cons h = cc

-- A `pop` that returns an entry leaves the consumer active.
pub Consume-taken :
    {c : ℕ} {q q' : MpmcQueue LogEntry} {p p' : Consumer LogEntry} {xs : List LogEntry}
    {e : LogEntry}
    → Consume queue_size c q p q' p' xs
    → xs ≡ e ∷ []
    → (q'.consumers c).active ≡ (q.consumers c).active
Consume-taken (Consume.inactive lt off) h = absurd (nil_cons h)
Consume-taken (Consume.enter on) h = absurd (nil_cons h)
Consume-taken Consume.load_tail h = absurd (nil_cons h)
Consume-taken (Consume.not_ready e) h = absurd (nil_cons h)
Consume-taken (Consume.is_ready e) h = absurd (nil_cons h)
Consume-taken Consume.read h = absurd (nil_cons h)
Consume-taken {c} {q} Consume.store_tail h = ap (λ r. r.active) (update_self q.consumers c _)
Consume-taken (Consume.unregister lt) h = absurd (nil_cons h)

pub NotFound-Consume :
    {c : ℕ} {q : MpmcQueue LogEntry} {p : Consumer LogEntry}
    → NotFound c q p
    → Consume queue_size c q p q waiting []
NotFound-Consume (is_inactive lt off) = Consume.inactive lt off
NotFound-Consume (no_item ne) = Consume.not_ready ne
