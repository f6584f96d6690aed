-- ===== src/Shm.antt =====
-- original/mpmc_queue.hpp: `ShmQueueManager`, over a record of system calls on a state `W`. A
-- negative descriptor is `none`, as is MAP_FAILED. `size` is `sizeof(QueueType)`.
pub mod Attach
use mpmc_logger.Prelude.{ℕ, zero, suc, Bool, true, false, Option, none, some, List, if◌then◌else◌}

pub record ShmOs (W : Type 0) : Type 0 where
  -- `shm_open`, with `true` for O_CREAT.
  pub shm_open : List ℕ → Bool → W → Option ℕ × W
  pub shm_unlink : List ℕ → W → W
  pub ftruncate : ℕ → ℕ → W → Bool × W
  pub mmap : (len fd : ℕ) → W → Option ℕ × W
  -- `mlock`, whose failure is only reported.
  pub mlock : (addr len : ℕ) → W → W
  pub munlock : (addr len : ℕ) → W → W
  pub munmap : (addr len : ℕ) → W → W
  pub close : ℕ → W → W
  pub usleep : ℕ → W → W
  -- The constructor of the queue at an address.
  pub construct : ℕ → W → W

pub record ShmQueueManager : Type 0 where
  pub shm_name : List ℕ
  pub fd : Option ℕ
  pub queue : Option ℕ
  pub is_creator : Bool

module _ {W : Type 0} (os : ShmOs W) (size : ℕ) where
  -- `none` for the exception, with the segment closed where it was open.
  abbrev pub truncated : ℕ → Bool × W → Option ℕ × W
  truncated fd (true, w) = (some fd, w)
  truncated fd (false, w) = (none, os.close fd w)

  abbrev pub created : Option ℕ × W → Option ℕ × W
  created (none, w) = (none, w)
  created (some fd, w) = truncated fd (os.ftruncate fd size w)

  unfoldable pub create_segment : List ℕ → W → Option ℕ × W
  create_segment name w = created (os.shm_open name true (os.shm_unlink name w))

  -- The rest of the fifty attempts to open the segment.
  unfoldable pub attach : (attempts : ℕ) → List ℕ → W → Option ℕ × W
  attach zero name w = (none, w)
  attach (suc attempts) name w =
      let (fd, w1) = os.shm_open name false w in
      let later = attach attempts name (os.usleep 10_000 w1) in
      elim fd [ some n ↦ (some n, w1) | none ↦ later ]

  abbrev pub locked : (create : Bool) (addr : ℕ) → W → W
  locked create addr w =
      let w1 = os.mlock addr size w in if create then os.construct addr w1 else w1

  abbrev pub mapped : List ℕ → Bool → ℕ → Option ℕ × W → Option ShmQueueManager × W
  mapped name create fd (none, w) = (none, os.close fd w)
  mapped name create fd (some addr, w) = (
    some (record { shm_name = name; fd = some fd; queue = some addr; is_creator = create }),
    locked create addr w,
  )

  abbrev pub opened : List ℕ → Bool → Option ℕ × W → Option ShmQueueManager × W
  opened name create (none, w) = (none, w)
  opened name create (some fd, w) = mapped name create fd (os.mmap size fd w)

  unfoldable pub new_manager : (name : List ℕ) (create : Bool) → W → Option ShmQueueManager × W
  new_manager name create w =
      opened name create (if create then create_segment name w else attach 50 name w)

  abbrev pub unmapped : Option ℕ → W → W
  unmapped none w = w
  unmapped (some addr) w = os.munmap addr size (os.munlock addr size w)

  abbrev pub closed : Option ℕ → W → W
  closed none w = w
  closed (some fd) w = os.close fd w

  unfoldable pub delete_manager : ShmQueueManager → W → W
  delete_manager s w =
      let w1 = closed s.fd (unmapped s.queue w) in
      if s.is_creator then os.shm_unlink s.shm_name w1 else w1
