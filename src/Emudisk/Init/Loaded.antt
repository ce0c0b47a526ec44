-- ===== src/Emudisk/Init/Loaded.antt =====
-- The state that emudisk_init of emulator_kernel/nctuss_emudisk_main.c leaves: `Emudisk` is set to
-- zero but for the fields that follow, and the statics of the file are zero.
use nctusde.Base.{ℕ, zero, suc, ◌+◌, ◌*◌, false, List, [], ◌∷◌, replicate, take, drop}
use nctusde.Timing.{sector_size}
use nctusde.Emudisk.{Emudisk, Os, Slot, max_disk_requests_in_parallel, max_request_sector_num}
use nctusde.Emudisk.Strategy.{no_slot}
use nctusde.Emudisk.Init.{disk_size, slot_buffer}

-- The piece of the mapped memory that slot `i` is given; nothing has been put in the slot.
abbrev pub loaded_slot : List ℕ → ℕ → Slot
loaded_slot memory i = record no_slot {
  buffer = take (max_request_sector_num * sector_size) (drop (slot_buffer i) memory);
}

-- The loop over the slots that `disk_channels` lets be used, from slot `i` on.
unfoldable pub loaded_slots : List ℕ → ℕ → ℕ → List Slot
loaded_slots memory zero i = []
loaded_slots memory (suc n) i = loaded_slot memory i ∷ loaded_slots memory n (i + 1)

unfoldable pub loaded_disk : (disk_channels speed_factor : ℕ) → List ℕ → Os → Emudisk
unfolding loaded_slots
loaded_disk disk_channels speed_factor memory os = record {
  size = disk_size;
  disk_channels = disk_channels;
  speed_factor = speed_factor;
  request_inflight = 0;
  stopping = false;
  next_response_time = 0;
  next_response_num = 0;
  next_response_ids = replicate max_disk_requests_in_parallel 0;
  latest_response_time = 0;
  udp_send_reply_id = 123;
  current_max_get_responses_time = 0;
  slots = loaded_slots memory disk_channels 0;
  queue_stopped = false;
  os = os;
  completed = [];
  failed = [];
}
