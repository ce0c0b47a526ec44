-- ===== src/System/Tests.antt =====
-- A module with two slots and a server with two channels, one request in flight.
use mathlib.Core.List.Perm
use nctusde.Base.{
  All, ℕ, List, ◌≡◌, done, Bool, refl, true, false, [], ◌∷◌, arith, length, replicate,
  length-replicate,
}
use nctusde.Wire.{Request}
use nctusde.Ssd.{Channel, completing}
use nctusde.Ssd.Pending.{pending_ids}
use nctusde.Server.{Server}
use nctusde.Emudisk.{segments_size, Emudisk, BlockRequest, Slot}
use nctusde.Emudisk.Slots.Table.{occupied_ids}
use nctusde.Emudisk.Calls.{Answer}
use nctusde.Emudisk.Processing.{process_responses}
use nctusde.Emudisk.Processing.Completion.{AreCompleted, complete_requests-AreCompleted}
use nctusde.System.{direct_call}
use nctusde.System.Data.Skbs.{transfer_sectors-matches}
use nctusde.Emudisk.Transfer.Skbs.{Skb}
use nctusde.Emudisk.Transfer.Skbs.Flat.{IsSector, flat}
use nctusde.Emudisk.Calls.Skbs.{write_sector_skbs, read_sector_skbs}
use nctusde.Emudisk.Strategy.{transfer_sectors}
use nctusde.System.Sync.{InSync}
use nctusde.System.Sync.Ready.{IsReady, Awaits, IsTurn}
use nctusde.System.Sync.Turn.{process_responses-IsTurn}
use nctusde.System.Sync.Submit.{Announced, submit-Announced}
use nctusde.System.Sync.Query.{Queried, get_responses-Queried}

abbrev pub read_one : BlockRequest
read_one = record { is_fs = true; is_write = false; pos = 8; segments = (0 ∷ 0 ∷ []) ∷ [] }

unfoldable pub slot_bytes : List ℕ
slot_bytes = replicate 65536 0

pub length-slot_bytes : length slot_bytes ≡ 65536
unfolding slot_bytes
length-slot_bytes = length-replicate {A = ℕ} 65536 0

abbrev pub free_slot : Slot
free_slot = record { request_id = 0; req = read_one; req_sectors = 1; buffer = slot_bytes }

abbrev idle : Channel
idle = record { io_request_id = 0; completion_time = 0; request_last_sector = 0; request_rw = 0 }

abbrev pub server : Server
server = record {
  current_max_request_id = 125;
  ssd = record {
    size = 819200;
    channels = 2;
    speed_factor = 1000;
    current_time = 0;
    most_frontier_simulation_time = 9000;
    ssd_channels = record idle { io_request_id = 124; completion_time = 9000 } ∷ replicate 31 idle;
    counts = record {
      total_random_request_count = 1;
      total_sequential_request_count = 0;
      total_rollback_request_count = 0;
    };
  };
  storage = λ a. 7;
  reply = record {
    id = 125;
    type = 1;
    data1 = 0;
    data2 = 0;
    data3 = 0;
    data4 = 0;
    io_request_ids = replicate 32 0;
    id_check = 125;
  };
  reply_sector = [];
  reply_length = 156;
}

abbrev pub disk : Emudisk
disk = record {
  size = 819200;
  disk_channels = 2;
  speed_factor = 1000;
  request_inflight = 1;
  stopping = false;
  next_response_time = 9000;
  next_response_num = 1;
  next_response_ids = 124 ∷ replicate 7 0;
  latest_response_time = 50;
  udp_send_reply_id = 126;
  current_max_get_responses_time = 50;
  slots = record free_slot { request_id = 124 } ∷ free_slot ∷ [];
  queue_stopped = false;
  os = record {
    os_paused = false;
    irqs_off = false;
    saved_irqs_off = false;
    gt_locked = false;
    gt_stopped = false;
    ttc_stopped = false;
    preempt_count = 0;
    paused_counter = 0;
  };
  completed = [];
  failed = [];
}

abbrev pub blank : Request
blank = record {
  id = 0;
  type = 0;
  data1 = 0;
  data2 = 0;
  data3 = 0;
  data4 = 0;
  data5 = 0;
  data6 = 0;
  id_check = 0;
}

in_sync : InSync disk server
unfolding occupied_ids pending_ids
in_sync = record {
  valid = record { array = refl; in_array = omega arith; in_time = omega arith };
  channels = refl;
  few = omega arith;
  running = omega arith;
  fresh = omega arith;
  words = refl;
  ids = omega arith;
  in_flight = Perm.refl (124 ∷ []);
}

submit-Announced_example :
    (e : Emudisk) × (s : Server) × Announced blank disk server 100 0 64 8 read_one e s
unfolding occupied_ids
submit-Announced_example =
    submit-Announced blank disk server 100 0 64 8 read_one in_sync (omega arith) (omega arith)
      (omega arith) (omega arith) (omega arith)

get_responses-Queried_example :
    (e : Emudisk) × (s : Server) × (a : Answer) × Queried blank disk server e s a
get_responses-Queried_example =
    get_responses-Queried blank disk server in_sync (omega arith) (omega arith)

pub ready : IsReady disk server
unfolding segments_size
ready = record {
  in_sync = in_sync;
  fits = omega (arith, length-slot_bytes);
  running = record { not_paused = refl; unlocked = refl; timers = (refl, refl) };
  ids_array = refl;
}

pub awaits : Awaits disk server
unfolding occupied_ids pending_ids completing
awaits = record {
  counted = (omega arith, omega arith);
  later = omega arith;
  word = omega arith;
  due = Perm.refl (124 ∷ []);
  awaited = Perm.refl (124 ∷ []);
}

process_responses-IsTurn_example :
    (e : Emudisk) × (s : Server) × (again : Bool) × (process_responses blank direct_call 7 disk
        server 9100 9200
      ≡ done (e, s, again))
    × IsTurn disk server 1 9000 e s
process_responses-IsTurn_example =
    process_responses-IsTurn blank 7 disk server 9100 9200 ready awaits (omega arith) (omega arith)

complete_requests-AreCompleted_example : (e : Emudisk) × AreCompleted disk (124 ∷ []) [] e
unfolding pending_ids
complete_requests-AreCompleted_example =
    complete_requests-AreCompleted disk (124 ∷ []) [] awaits.awaited ready.fits

abbrev sent_buffer : List ℕ
sent_buffer = replicate 1024 5

abbrev fresh_buffer : List ℕ
fresh_buffer = replicate 512 0

abbrev sector_skb : Skb
sector_skb = record { len = 548; sector = fresh_buffer }

transfer_sectors-matches_example :
    ((e : Emudisk) × (s : Server) × (transfer_sectors blank direct_call 7 2 0 disk server 1 77
          (flat (sector_skb ∷ sector_skb ∷ []))
        ≡ done (e, s, flat (sector_skb ∷ sector_skb ∷ [])))
      × (write_sector_skbs blank direct_call
            (1 ∷ [])
            sector_skb
            2
            0
            disk
            server
            77
            (sector_skb ∷ sector_skb ∷ [])
          ≡ done (e, s, sector_skb ∷ sector_skb ∷ [])))
    × ((e : Emudisk) × (s : Server) × (skbs : List Skb) × (transfer_sectors blank direct_call 7 2 0
            disk server 0 77
            (flat (sector_skb ∷ sector_skb ∷ []))
          ≡ done (e, s, flat skbs))
        × (read_sector_skbs blank direct_call 2 0 disk server 77 (sector_skb ∷ sector_skb ∷ [])
            ≡ done (e, s, skbs))
        × All IsSector skbs)
transfer_sectors-matches_example =
    transfer_sectors-matches blank 7 (1 ∷ []) sector_skb (sector_skb ∷ sector_skb ∷ []) disk server
      77 (refl, (refl, tt)) (omega arith) (omega arith) (omega arith)
