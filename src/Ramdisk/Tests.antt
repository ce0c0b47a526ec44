-- ===== src/Ramdisk/Tests.antt =====
-- The RAM disk on two channels, one with a read in flight.
use nctusde.Base.{
  ℕ, List, Bool, ◌≤◌, length, ◌≡◌, refl, true, false, none, some, [], ◌∷◌, arith, leb,
  if◌then◌else◌, done, inl, inr,
}
use nctusde.Timing.{emulated_time, ram_time, request_size_index}
use nctusde.Ssd.{Ssd, oldest_channel, is_sequential_request}
use nctusde.Emudisk.{BlockRequest, segments_size}
use nctusde.Ramdisk
use nctusde.Ramdisk.{
  Ramdisk, oldest_completed, keep_older, sequential, ramdisk_strategy, start_request, place_request,
  completion_time, add_int, expect_response, earliest_pending, find_next_response, process_due,
  process_responses, next_due, keep_due, complete_at, ramdisk_transfer, load_segments, load_bytes,
  occupied,
}
use nctusde.Ramdisk.Choice.{ramdisk-matches-server}
use nctusde.Ramdisk.Schedule.{IsPunctual}
use nctusde.Ramdisk.Init.{loaded_ramdisk}
use nctusde.Ramdisk.Run.{World, Reach, AreArriving}
use nctusde.Ramdisk.Run.Steady.{IsSteady, ramdisk_reach-IsSteady, ramdisk_reach-answers}
use nctusde.Ramdisk.Run.Drained.{IsDrained, ramdisk-drains}
use nctusde.Ramdisk.Run.Loaded.{loaded_ramdisk-IsSteady}
use nctusde.Ramdisk.Progress.{pending_count}

abbrev read_one : BlockRequest
read_one = record { is_fs = true; is_write = false; pos = 8; segments = (0 ∷ 0 ∷ []) ∷ [] }

abbrev reading : Ramdisk.Channel
reading = record {
  completion_time = 9000;
  completed = false;
  request = read_one;
  request_rw = 0;
  request_last_sector = 9;
}

abbrev idle : Ramdisk.Channel
idle = record {
  completion_time = 10;
  completed = true;
  request = read_one;
  request_rw = 0;
  request_last_sector = 0;
}

abbrev disk : Ramdisk
disk = record {
  size = 819200;
  disk_channels = 2;
  speed_factor = 1000;
  memory = λ a. 7;
  request_inflight = 1;
  channels = reading ∷ idle ∷ [];
  next_response_to_reply = true;
  next_response_time = 9000;
  queue_stopped = false;
  finished = [];
  failed = [];
}

abbrev mirror : Ssd
mirror = record {
  size = 819200;
  channels = 2;
  speed_factor = 1000;
  current_time = 0;
  most_frontier_simulation_time = 9000;
  ssd_channels =
      record {
        io_request_id = 130;
        completion_time = 9000;
        request_last_sector = 9;
        request_rw = 0;
      }
      ∷ record {
        io_request_id = 129;
        completion_time = 10;
        request_last_sector = 0;
        request_rw = 0;
      }
      ∷ [];
  counts = record {
    total_random_request_count = 2;
    total_sequential_request_count = 0;
    total_rollback_request_count = 0;
  };
}

ramdisk-matches-server_example :
    (oldest_completed disk.channels 0 none
      ≡ (if leb 100 (oldest_channel mirror).0 then none else some (oldest_channel mirror)))
    × (ram_time (sequential disk.channels 0 9 false) 0 0 1000
        ≡ emulated_time (is_sequential_request mirror 0 9) 0 0 1000)
ramdisk-matches-server_example =
    ramdisk-matches-server disk mirror 100 0 9 0 (refl, refl, refl, (refl, refl, refl, tt))
      (refl, (refl, tt)) (omega arith) refl (omega arith) (omega arith) (omega arith)

disk-IsPunctual : IsPunctual disk
disk-IsPunctual = record { in_time = (inr (refl, omega arith), (inl refl, tt)) }

-- The disk after the strategy function has taken a second read.
after_strategy : Ramdisk
unfolding ramdisk_strategy start_request place_request completion_time add_int expect_response
    earliest_pending oldest_completed keep_older request_size_index segments_size sequential
    ram_time occupied
after_strategy = elim (ramdisk_strategy disk false ((100, read_one) ∷ [])) [
  | done r ↦ r.0
  | _ ↦ disk
]

-- One request is on a channel, and another waits for its softirq.
abbrev world : World
world = record { disk = record disk { request_inflight = 2; queue_stopped = true }; unended = 1 }

steady : IsSteady world
unfolding pending_count segments_size
steady = record {
  kept = record {
    sized = refl;
    few = omega arith;
    some_ = omega arith;
    counted = refl;
    bounded = omega arith;
    within = ((omega arith, omega arith), ((omega arith, omega arith), tt));
    in_time = (omega arith, omega arith);
    punctual = record { in_time = disk-IsPunctual.in_time };
  };
  room = inr (refl, refl);
}

ramdisk-drains_example : (w : World) × IsDrained world w
ramdisk-drains_example = ramdisk-drains world 9001 steady (omega arith, omega arith)

ramdisk_reach-IsSteady_example : IsSteady ramdisk-drains_example.0
ramdisk_reach-IsSteady_example =
    ramdisk_reach-IsSteady world ramdisk-drains_example.0 steady ramdisk-drains_example.1.reached

abbrev loaded : World
loaded = record { disk = loaded_ramdisk 2 1000 (λ a. 0); unended = 0 }

ramdisk_reach-answers_example :
    ((queue : List (ℕ × BlockRequest))
      → loaded.disk.queue_stopped ≡ false
      → AreArriving loaded.disk.size queue
      → (r : Ramdisk × Bool × List (ℕ × BlockRequest)) × (ramdisk_strategy loaded.disk false queue
          ≡ done r))
    × ((now : ℕ) (readings : List ℕ)
        → loaded.disk.next_response_time ≤ now
        → pending_count loaded.disk.channels ≤ length readings
        → (d : Ramdisk) × (process_responses loaded.disk now readings ≡ done (d, true)))
ramdisk_reach-answers_example =
    ramdisk_reach-answers loaded loaded
      (loaded_ramdisk-IsSteady 2 1000 (λ a. 0) (omega arith) (omega arith)) Reach.start
