-- ===== src/System/Run/Tests.antt =====
-- The strategy function and the whole system, on the disk and server of System/Tests.antt.
use mathlib.Core.List.Perm
use nctusde.Base.{
  ℕ, List, ◌≡◌, inl, inr, Bool, refl, true, false, [], ◌∷◌, arith, length, length-perm, replicate,
  length-replicate,
}
use nctusde.Ssd.Pending.{pending_ids}
use nctusde.Server.{Server}
use nctusde.Emudisk.{segments_size, Emudisk, BlockRequest}
use nctusde.Emudisk.Slots.Table.{occupied_ids}
use nctusde.System.Sync.Ready.{IsReady, kept-IsReady, kept-Awaits}
use nctusde.System.Sync.Start.{IsAdmissible}
use nctusde.System.Sync.Started.{IsStarted, start_request-IsStarted}
use nctusde.System.Sync.Waits.{IsCounted}
use nctusde.System.Sync.Called.{IsCalled, emudisk_strategy-IsCalled}
use nctusde.System.Run.{World}
use nctusde.System.Run.Steady.{IsSteady, Reach-IsSteady}
use nctusde.System.Run.Drained.{IsDrained, drains}
use nctusde.System.ReadBack.{IsStartable}
use nctusde.System.Tests.{
  read_one, free_slot, server, disk, blank, length-slot_bytes, ready, awaits,
}

admissible : IsAdmissible read_one
unfolding segments_size
admissible = record { small = omega arith; inside = omega arith }

counted : IsCounted disk 0
unfolding occupied_ids
counted = record { inflight = refl; channels = refl; bounded = omega arith }

start_request-IsStarted_example :
    (e : Emudisk) × (s : Server) × IsStarted blank 7 disk server 100 read_one e s
unfolding occupied_ids segments_size
start_request-IsStarted_example =
    start_request-IsStarted blank 7 disk server 100 read_one ready admissible (omega arith)
      (omega arith) (omega arith) (omega arith)

abbrev not_fs : BlockRequest
not_fs = record read_one { is_fs = false }

-- The second request is no file-system request, and the third stays in the queue.
abbrev queue : List (ℕ × BlockRequest)
queue = (100, not_fs) ∷ (110, read_one) ∷ (120, read_one) ∷ []

emudisk_strategy-IsCalled_example :
    (e : Emudisk) × (s : Server) × (left : List (ℕ × BlockRequest)) × (wake : Bool) × IsCalled blank
      7 disk server 0 queue e s left wake
unfolding segments_size
emudisk_strategy-IsCalled_example =
    emudisk_strategy-IsCalled blank 7 disk server 0 queue ready counted (inr awaits) (omega arith)
      refl (omega arith)
      (
        record {
          admissible = record { small = omega arith; inside = omega arith };
          late = omega arith;
          soon = omega arith;
        },
        (
          record { admissible = admissible; late = omega arith; soon = omega arith },
          (record { admissible = admissible; late = omega arith; soon = omega arith }, tt),
        ),
      )
      (omega arith)

abbrev world : World Server
world = record { disk = disk; net = server; unended = 0; clock = 60 }

pub steady : IsSteady world
steady = record {
  ready = ready;
  counted = counted;
  waits = inr awaits;
  room = inl (refl, omega arith);
  some_channels = omega arith;
  past = omega arith;
  word = omega arith;
}

drains_example : (w : World Server) × IsDrained blank 7 world w
unfolding occupied_ids
drains_example = drains blank 7 world steady (omega arith)

Reach-IsSteady_example : IsSteady drains_example.0
Reach-IsSteady_example =
    Reach-IsSteady blank 7 world drains_example.0 steady drains_example.1.reached

unfoldable pub mapped : List ℕ
mapped = replicate 419430400 0

pub length-mapped : length mapped ≡ 419430400
unfolding mapped
length-mapped = length-replicate {A = ℕ} 419430400 0

-- One request is in the table, and another is completed, but its softirq has not been called.
abbrev stopped_world : World Server
stopped_world = record {
  disk = record disk { queue_stopped = true; request_inflight = 2 };
  net = server;
  unended = 1;
  clock = 60;
}

stopped_steady : IsSteady stopped_world
unfolding occupied_ids
stopped_steady = record {
  ready = kept-IsReady disk stopped_world.disk server ready refl refl refl refl refl;
  counted = record { inflight = refl; channels = refl; bounded = omega arith };
  waits = inr (kept-Awaits disk stopped_world.disk server awaits refl refl refl refl refl);
  room = inr (refl, refl);
  some_channels = omega arith;
  past = omega arith;
  word = omega arith;
}

-- A disk with a third slot, and a server with a third channel.
abbrev pub disk3 : Emudisk
disk3 = record disk {
  disk_channels = 3;
  slots = record free_slot { request_id = 124 } ∷ free_slot ∷ free_slot ∷ [];
}

abbrev pub server3 : Server
server3 = record server { ssd = record (server.ssd) { channels = 3 } }

ready3 : IsReady disk3 server3
unfolding occupied_ids pending_ids segments_size
ready3 = record {
  in_sync = record {
    valid = record { array = refl; in_array = omega arith; in_time = omega arith };
    channels = refl;
    few = omega arith;
    running = omega arith;
    fresh = omega arith;
    words = refl;
    ids = omega arith;
    in_flight = Perm.refl (124 ∷ []);
  };
  fits = omega (arith, length-slot_bytes);
  running = ready.running;
  ids_array = refl;
}

abbrev pub write_one : BlockRequest
write_one = record { is_fs = true; is_write = true; pos = 8; segments = (1 ∷ []) ∷ (2 ∷ []) ∷ [] }

pub writable : IsStartable disk3 server3 100 write_one
unfolding occupied_ids segments_size
writable = record {
  ready = ready3;
  admissible = record { small = omega arith; inside = omega arith };
  late = omega arith;
  soon = omega arith;
  wraps = omega arith;
  room = omega arith;
}

pub written : (e : Emudisk) × (s : Server) × IsStarted blank 7 disk3 server3 100 write_one e s
written =
    start_request-IsStarted blank 7 disk3 server3 100 write_one ready3 writable.admissible
      writable.late writable.soon writable.wraps writable.room

pub readable : IsStartable written.0 written.1 200 read_one
unfolding occupied_ids segments_size
readable =
    let st = written.2 in
    record {
      ready = st.ready;
      admissible = admissible;
      late = omega (arith, st.same_waiting.latest);
      soon = omega (arith, st.same_speed);
      wraps = omega (arith, st.number);
      room = omega (arith, length-perm _ _ st.in_flight, st.same_queue.size);
    }
