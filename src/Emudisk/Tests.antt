-- ===== src/Emudisk/Tests.antt =====
-- The parts of the kernel module at concrete values.
use nctusde.Base.{All, ℕ, ◌≡◌, refl, true, false, List, [], ◌∷◌, arith, done, hang, replicate}
use nctusde.Emudisk.{BlockRequest, Slot, Os, segments_size}
use nctusde.Emudisk.Slots.{put_request_id_to_req_mapping, fill}
use nctusde.Emudisk.Slots.Table.{
  IsEntered, IsGot, Returned, occupied_ids, find_slot, put_request_id_to_req_mapping-IsEntered,
  get-IsGot, get-put,
}
use nctusde.Emudisk.Transfer.{emudisk_transfer}
use nctusde.Emudisk.Transfer.RoundTrip.{bytes_of, transfer_round_trip}
use nctusde.Emudisk.Pause.{pause_os, resume_os, IsRunning, IsFrozen, resume-pause}
use nctusde.Emudisk.Transfer.Skbs.{Skb, transfer_skbs}
use nctusde.Emudisk.Transfer.Skbs.Flat.{IsSector, flat}
use nctusde.Emudisk.Transfer.Skbs.Matches.{transfer_skbs-matches}
use nctusde.Emudisk.Init.{Kernel, emudisk_init, emudisk_exit}
use nctusde.Emudisk.Init.Paths.{init-exit, init-enomem, nothing, acts}

abbrev write_five : BlockRequest
write_five = record {
  is_fs = true;
  is_write = true;
  pos = 3;
  segments = (1 ∷ 2 ∷ []) ∷ (3 ∷ 4 ∷ 5 ∷ []) ∷ [];
}

abbrev read_five : BlockRequest
read_five = record {
  is_fs = true;
  is_write = false;
  pos = 3;
  segments = (0 ∷ 0 ∷ 0 ∷ 0 ∷ []) ∷ (0 ∷ []) ∷ [];
}

abbrev free_slot : Slot
free_slot = record { request_id = 0; req = read_five; req_sectors = 0; buffer = [] }

abbrev used_slot : Slot
used_slot = record free_slot { request_id = 123 }

abbrev table : List Slot
table = used_slot ∷ free_slot ∷ []

put_request_id_to_req_mapping-IsEntered_example :
    (slots' : List Slot) × (i : ℕ) × IsEntered table 124 write_five 1 slots' i
unfolding occupied_ids
put_request_id_to_req_mapping-IsEntered_example =
    put_request_id_to_req_mapping-IsEntered table 124 write_five 1 (omega arith) (omega arith)

get-IsGot_example : (slots' : List Slot) × IsGot table 123 used_slot slots'
unfolding find_slot
get-IsGot_example = get-IsGot table 123 used_slot (omega arith) refl

get-put_example : Returned table (used_slot ∷ fill free_slot 124 write_five 1 ∷ []) 124 write_five 1
unfolding find_slot put_request_id_to_req_mapping
get-put_example =
    get-put table (used_slot ∷ fill free_slot 124 write_five 1 ∷ []) 124 write_five 1 1 refl refl

transfer_round_trip_example :
    (buffer' : List ℕ) × (reading' : BlockRequest) × (emudisk_transfer write_five (replicate 8 0)
      ≡ done (write_five, buffer'))
    × (emudisk_transfer read_five buffer' ≡ done (reading', buffer'))
    × (bytes_of reading'.segments ≡ 1 ∷ 2 ∷ 3 ∷ 4 ∷ 5 ∷ [])
unfolding segments_size
transfer_round_trip_example =
    transfer_round_trip write_five read_five (replicate 8 0) refl refl (omega arith) (omega arith)
      refl

abbrev running_os : Os
running_os = record {
  os_paused = false;
  irqs_off = false;
  saved_irqs_off = false;
  gt_locked = false;
  gt_stopped = false;
  ttc_stopped = false;
  preempt_count = 0;
  paused_counter = 0;
}

resume-pause_example :
    (os' : Os) × (pause_os running_os 42 ≡ done os')
    × IsFrozen os'
    × (pause_os os' 42 ≡ hang)
    × IsRunning (resume_os os')
    × ((resume_os os').irqs_off ≡ false)
    × ((resume_os os').preempt_count ≡ 0)
resume-pause_example =
    resume-pause running_os 42
      (record { not_paused = refl; unlocked = refl; timers = (refl, refl) })

abbrev good_kernel : Kernel
good_kernel = record {
  has_ipi_base = true;
  has_eth0 = true;
  has_major = true;
  has_queue = true;
  has_gendisk = true;
  has_memory = true;
}

init-exit_example :
    acts (acts nothing (emudisk_init good_kernel 4).0) emudisk_exit
    ≡ record nothing { device = true }
unfolding emudisk_init
init-exit_example = init-exit good_kernel 4 refl

init-enomem_example :
    (acts nothing (emudisk_init (record good_kernel { has_memory = false }) 4).0).blkdev ≡ true
unfolding emudisk_init
init-enomem_example = init-enomem (record good_kernel { has_memory = false }) 4 refl

-- A segment that ends within the second of two skbs, and one that begins there.
abbrev write_long : BlockRequest
write_long = record {
  is_fs = true;
  is_write = true;
  pos = 3;
  segments = replicate 700 6 ∷ replicate 200 7 ∷ [];
}

abbrev two_skbs : List Skb
two_skbs =
    record { len = 0; sector = replicate 512 0 } ∷ record { len = 0; sector = replicate 512 1 } ∷ []

transfer_skbs-matches_example :
    (req : BlockRequest) × (skbs : List Skb) × (transfer_skbs write_long 2 two_skbs
      ≡ done (req, skbs))
    × (emudisk_transfer write_long (flat two_skbs) ≡ done (req, flat skbs))
    × All IsSector skbs
unfolding segments_size
transfer_skbs-matches_example =
    transfer_skbs-matches write_long two_skbs (refl, (refl, tt)) (omega arith) (omega arith)
