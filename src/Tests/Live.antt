-- ===== src/Tests/Live.antt =====
-- Tests of the drain loop beside the producers.
use mpmc_logger.Prelude.{◌≡◌, refl, true, false, some, [], ◌∷◌, arith, Bool, replicate, bind-some}
use mpmc_logger.Queue
use mpmc_logger.Queue.{MpmcQueue, new_queue, register_consumer}
use mpmc_logger.Format.{fast_u32_to_str}
use mpmc_logger.Sink.{Os}
use mpmc_logger.Concurrent.{idle, Produce, waiting, Consume, Reach, registered}
use mpmc_logger.Logger.{DrainState, binary, handle}
use mpmc_logger.Logger.Drain.{handle_all}
use mpmc_logger.Logger.Live.{
  batch, Live, DrainConfig, in_batch, put, request_stop, popping, take_one, LiveReach, here, later,
}
use mpmc_logger.Logger.Live.Orderly.{IsOrderly, LiveReach-IsOrderly}
use mpmc_logger.Logger.Live.Walk.{IsWalk}
use mpmc_logger.Logger.{Logger, init, drain_state}
use mpmc_logger.Logger.File.{handle_all-IsFiled}
use mpmc_logger.Logger.Live.Session.{config_of, IsLaunched, init-IsLaunched}
use mpmc_logger.Sink.{ensure_directory, make_prefixes, parent, new_sink, open_file}
use mpmc_logger.Tests.Disk.{OneFile, one_file, one_file-Disk, empty_disk, config-IsBinaryConfig}
use mpmc_logger.Tests.Logger.{blank, blank-IsEntry, one_date, new_ring, stopped, config}

abbrev pub at_start : {W : Type 0} → DrainState W → Live W
at_start d = record {
  system = record {
    memory = registered blank 1;
    producers = λ i. idle;
    consumers = λ i. waiting;
    log = [];
    received = λ i. [];
  };
  drain = d;
  place = batch 256 false 0;
  stop = false;
}

-- The end of a run.
pub record LiveRun {W : Type 0} (os : Os W) (d : DrainState W) (c : DrainConfig) : Type 0 where
  pub now : Live W
  pub reach : LiveReach os fast_u32_to_str one_date c (at_start d) now

module _ {W : Type 0} (os : Os W) (d : DrainState W) (c : DrainConfig) where
  -- Producer 0 pushes an entry.
  unfoldable pub pushed : LiveRun os d c
  unfolding registered new_queue register_consumer
  pushed = record {
    now = _;
    reach =
        later
          (later
            (later
              (later
                (later (later (later here (put 0 (Produce.call blank))) (put 0 Produce.load_head))
                  (put 0 Produce.load_min_tail))
                (put 0 (Produce.room refl)))
              (put 0 (Produce.win refl)))
            (put 0 Produce.copy))
          (put 0 Produce.publish);
  }

abbrev pub inited : Bool × Logger × OneFile
inited = init one_file fast_u32_to_str one_date blank config (replicate 20 0) stopped empty_disk

pub inited_ok : inited ≡ (true, inited.1, inited.2)
unfolding init new_sink open_file register_consumer new_queue
inited_ok = refl

pub inited_ring : inited.1.queue ≡ some new_ring
unfolding init new_sink open_file register_consumer new_queue
inited_ring = refl

abbrev pub d0 : DrainState OneFile
d0 = drain_state one_file fast_u32_to_str one_date blank inited.1 (replicate 256 0) inited.2

pub inited-IsLaunched :
    IsLaunched one_file-Disk 3 fast_u32_to_str one_date blank 65536
      (replicate 256 0)
      []
      inited.1
      inited.2
unfolding one_file-Disk ensure_directory make_prefixes parent
inited-IsLaunched =
    init-IsLaunched one_file-Disk 3 fast_u32_to_str one_date blank config (replicate 20 0)
      (replicate 256 0) stopped inited.1 empty_disk inited.2 [] 0 config-IsBinaryConfig refl refl
      refl refl tt (omega arith) refl inited_ok

pub handled_into_file :
    (d : DrainState OneFile) × (handle_all one_file fast_u32_to_str one_date binary (blank ∷ []) d0
      ≡ some d)
handled_into_file =
    let (d, done, g) =
      handle_all-IsFiled one_file-Disk 65536 3 fast_u32_to_str one_date (blank ∷ []) d0 []
        (blank-IsEntry, tt) inited-IsLaunched.filed (omega arith) in
    (d, done)

abbrev live_config : DrainConfig
live_config = config_of inited.1

live-IsWalk : IsWalk one_file fast_u32_to_str one_date live_config blank d0 (at_start d0)
unfolding handle_all registered new_queue register_consumer init new_sink open_file
live-IsWalk = record { reached = Reach.start; active = refl; handled = refl; at_end = λ seen h. cc }

handled_one :
    (d : DrainState OneFile) × (handle one_file fast_u32_to_str one_date binary blank d0 ≡ some d)
unfolding handle_all
handled_one = let (d, done, rest) = bind-some _ _ _ handled_into_file.1 in (d, done)

-- The drain thread is inside `pop`, before the copy.
abbrev inside : LiveRun one_file d0 live_config
unfolding registered new_queue register_consumer Queue.slot_index pushed init new_sink open_file
inside = record {
  now = _;
  reach =
      later
        (later
          (later (pushed one_file d0 live_config).reach
            (popping in_batch (Consume.enter refl) (λ h. cc)))
          (popping in_batch Consume.load_tail (λ h. cc)))
        (popping in_batch (Consume.is_ready {t = 0} refl) (λ h. cc));
}

abbrev taken : LiveRun one_file d0 live_config
unfolding registered new_queue register_consumer Queue.slot_index pushed init new_sink open_file
taken = record {
  now = _;
  reach =
      later
        (later (later inside.reach (popping in_batch (Consume.read {t = 0}) (λ h. cc)))
          (take_one blank handled_one.0 refl Consume.store_tail handled_one.1))
        request_stop;
}

-- An entry is pushed, the drain thread takes it, and the stop is requested.
LiveReach-IsOrderly_example :
    IsOrderly one_file fast_u32_to_str one_date live_config blank d0 taken.now
unfolding taken
LiveReach-IsOrderly_example =
    LiveReach-IsOrderly one_file fast_u32_to_str one_date live_config blank d0 taken.reach
      live-IsWalk (omega arith)
