-- ===== src/Ramdisk.antt =====
-- emulator_kernel/nctuss_ramdisk_main.c: the same disk emulated within the kernel, in the
-- configuration that the file selects (SPLIT_DATA_TRANSFER, DIFFERENT_SUBMIT_TIME, commit in
-- completion order).
pub mod Choice
pub mod Schedule
pub mod Completion
pub mod Progress
pub mod Run
pub mod Task
pub mod Init
mod Tests
use nctusde.Base.{
  ℕ, zero, suc, ◌+◌, ◌-◌, ◌*◌, ◌/◌, ◌%◌, ◌^◌, Bool, true, false, not, ◌&&◌, ◌||◌, Option, none,
  some, List, [], ◌∷◌, length, get_or, set, ltb, leb, ◌==◌, if◌then◌else◌, Outcome, done, hang,
  fault, ◌>>=◌,
}
use nctusde.Timing.{sector_size, request_size_index, ram_time}
use nctusde.Emudisk.{BlockRequest, request_bytes, succ32, pred32, long_ge}

-- `struct nctuss_emudisk_channel`
pub record Channel : Type 0 where
  pub completion_time : ℕ
  pub completed : Bool
  pub request : BlockRequest
  pub request_rw : ℕ
  pub request_last_sector : ℕ

-- The variables of the file, with the memory behind `Emudisk.data`, and what the block layer has
-- been handed back. The channels are the first `disk_channels` of the array.
pub record Ramdisk : Type 0 where
  pub size : ℕ
  pub disk_channels : ℕ
  pub speed_factor : ℕ
  pub memory : ℕ → ℕ
  pub request_inflight : ℕ
  pub channels : List Channel
  pub next_response_to_reply : Bool
  pub next_response_time : ℕ
  pub queue_stopped : Bool
  pub finished : List BlockRequest
  pub failed : List BlockRequest

abbrev pub ullong_max : ℕ
ullong_max = 2 ^ 64 - 1

abbrev pub data_dir : BlockRequest → ℕ
data_dir req = if req.is_write then 1 else 0

-- memcpy to and from the memory.
unfoldable pub store_bytes : (ℕ → ℕ) → ℕ → List ℕ → ℕ → ℕ
store_bytes memory offset bytes a =
    if leb offset a && ltb a (offset + length bytes) then get_or bytes (a - offset) 0 else memory a

unfoldable pub load_bytes : (ℕ → ℕ) → ℕ → ℕ → List ℕ
load_bytes memory offset zero = []
load_bytes memory offset (suc n) = memory offset ∷ load_bytes memory (offset + 1) n

-- `rq_for_each_segment` for a write and for a read.
unfoldable pub store_segments : (ℕ → ℕ) → ℕ → List (List ℕ) → ℕ → ℕ
store_segments memory offset [] = memory
store_segments memory offset (seg ∷ segs) =
    store_segments (store_bytes memory offset seg) (offset + length seg) segs

unfoldable pub load_segments : (ℕ → ℕ) → ℕ → List (List ℕ) → List (List ℕ)
load_segments memory offset [] = []
load_segments memory offset (seg ∷ segs) =
    load_bytes memory offset (length seg) ∷ load_segments memory (offset + length seg) segs

-- `blk_rq_pos(req) * SECTOR_SIZE`, an `unsigned long` of 32 bits if `sector_t` has as many.
abbrev pub byte_offset : BlockRequest → ℕ
byte_offset req = req.pos * sector_size % 2 ^ 32

-- The 32-bit sum of the guard may wrap. A request that passes it and ends beyond the disk, for which
-- `size` sectors of memory are mapped, copies outside of the memory.
unfoldable pub ramdisk_transfer : Ramdisk → BlockRequest → Outcome (Ramdisk × BlockRequest)
unfolding store_segments load_segments store_bytes load_bytes
ramdisk_transfer d req =
    if ltb (d.size * sector_size) ((byte_offset req + request_bytes req) % 2 ^ 32)
    then hang
    else if ltb (d.size * sector_size) (byte_offset req + request_bytes req)
    then fault
    else if req.is_write
    then done (record d { memory = store_segments d.memory (byte_offset req) req.segments }, req)
    else done (d, record req { segments = load_segments d.memory (byte_offset req) req.segments })

-- The loop that looks for a request that ended where this one begins.
unfoldable pub sequential : List Channel → ℕ → ℕ → Bool → Bool
sequential [] rw sector found = found
sequential (c ∷ cs) rw sector found =
    sequential cs rw sector
      (if c.request_rw == rw && c.request_last_sector == sector then true else found)

-- The body of the loop below.
unfoldable pub keep_older : Channel → ℕ → Option (ℕ × ℕ) → Option (ℕ × ℕ)
keep_older c i none = if c.completed then some (c.completion_time, i) else none
keep_older c i (some (time, pos)) =
    if c.completed && ltb c.completion_time time
    then some (c.completion_time, i)
    else some (time, pos)

-- The loop that finds the channel that completed first; `none` is the source's -1, and the time
-- beside a position is that channel's.
unfoldable pub oldest_completed : List Channel → ℕ → Option (ℕ × ℕ) → Option (ℕ × ℕ)
unfolding keep_older
oldest_completed [] i best = best
oldest_completed (c ∷ cs) i best = oldest_completed cs (i + 1) (keep_older c i best)

-- The loops that find the earliest completion time, below a given one, of a request in flight.
unfoldable pub earliest_pending : List Channel → ℕ → ℕ
earliest_pending [] time = time
earliest_pending (c ∷ cs) time =
    earliest_pending cs
      (if not c.completed && ltb c.completion_time time then c.completion_time else time)

abbrev pub no_request : BlockRequest
no_request = record { is_fs = false; is_write = false; pos = 0; segments = [] }

abbrev pub no_channel : Channel
no_channel = record {
  completion_time = 0;
  completed = true;
  request = no_request;
  request_rw = 0;
  request_last_sector = 0;
}

-- A request put on a channel.
unfoldable pub occupied : BlockRequest → ℕ → Channel
occupied req completion_time = record {
  completion_time = completion_time;
  completed = false;
  request = req;
  request_rw = data_dir req;
  request_last_sector = req.pos + (request_bytes req + (sector_size - 1)) / sector_size;
}

-- The response that is waited for, after a request with completion time `time` came in. The flag
-- says that the processing task has to be woken.
unfoldable pub expect_response : Ramdisk → ℕ → Ramdisk × Bool
expect_response d time =
    let next = earliest_pending d.channels time in
    if not d.next_response_to_reply || ltb next d.next_response_time
    then (record d { next_response_time = next; next_response_to_reply = true }, true)
    else (d, false)

-- A request goes to the channel at `pos`; a write moves its data now.
unfoldable pub place_request : Ramdisk → BlockRequest → ℕ → ℕ → Outcome (Ramdisk × Bool)
place_request d req time pos =
    (if req.is_write then ramdisk_transfer d req else done (d, req)) >>= λ (d', _).
    let (d'', wake) =
      expect_response (record d' { channels = set d'.channels pos (occupied req time) }) time in
    done (record d'' { request_inflight = succ32 d''.request_inflight }, wake)

-- `entry`, the 32 bits of an `int` that is negative from 2 ^ 31 on, added to a time of 64 bits.
unfoldable pub add_int : ℕ → ℕ → ℕ
add_int now entry =
    if ltb entry (2 ^ 31) then (now + entry) % 2 ^ 64 else (now + entry + 2 ^ 64 - 2 ^ 32) % 2 ^ 64

-- The time at which a request of a size bucket completes.
unfoldable pub completion_time : Ramdisk → ℕ → BlockRequest → ℕ → ℕ
unfolding sequential add_int
completion_time d now req index = add_int now (
    ram_time (sequential d.channels (data_dir req) req.pos false) (data_dir req) index
      d.speed_factor)

-- One fetched file-system request, up to the count of the requests in flight.
unfoldable pub start_request : Ramdisk → ℕ → BlockRequest → Outcome (Ramdisk × Bool)
start_request d now req = elim (request_size_index (request_bytes req)) [
  | none ↦ hang
  | some index ↦ elim (oldest_completed d.channels 0 none) [
    | none ↦ hang
    | some (_, pos) ↦ place_request d req (completion_time d now req index) pos
  ]
]

-- nctuss_emudisk_strategy, over the requests in the queue with the time at which each is fetched.
-- The results are the requests that stay in the queue and the flag to wake the processing task.
unfoldable pub ramdisk_strategy :
    Ramdisk → Bool → List (ℕ × BlockRequest) → Outcome (Ramdisk × Bool × List (ℕ × BlockRequest))
unfolding start_request expect_response
ramdisk_strategy d wake [] = done (d, wake, [])
ramdisk_strategy d wake ((now, req) ∷ queue) =
    if req.is_fs
    then (start_request d now req >>= λ (d', woken).
        elim (long_ge d'.request_inflight d'.disk_channels) [
          | true ↦ done (record d' { queue_stopped = true }, woken || wake, queue)
          | false ↦ ramdisk_strategy d' (woken || wake) queue
        ])
    else ramdisk_strategy (record d { failed = req ∷ d.failed }) wake queue

-- A request in flight whose time has come.
abbrev pub is_due : Channel → ℕ → Bool
is_due c now = not c.completed && ltb c.completion_time now

-- The body of the loop below.
unfoldable pub keep_due : Channel → ℕ → ℕ → Option (ℕ × ℕ) → Option (ℕ × ℕ)
keep_due c now i none = if is_due c now then some (c.completion_time, i) else none
keep_due c now i (some (time, pos)) =
    if is_due c now && ltb c.completion_time time
    then some (c.completion_time, i)
    else some (time, pos)

-- The loop of the processing task that finds the next request to complete before `now`.
unfoldable pub next_due : List Channel → ℕ → ℕ → Option (ℕ × ℕ) → Option (ℕ × ℕ)
unfolding keep_due
next_due [] now i best = best
next_due (c ∷ cs) now i best = next_due cs now (i + 1) (keep_due c now i best)

-- A request is completed: a read gets its data now.
unfoldable pub complete_at : Ramdisk → ℕ → Outcome Ramdisk
complete_at d pos =
    let c = get_or d.channels pos no_channel in
    (if c.request.is_write then done (d, c.request) else ramdisk_transfer d c.request)
    >>= λ (d', req). done (record d' {
      channels = set d'.channels pos (record c { completed = true });
      finished = req ∷ d'.finished;
    })

-- From `process_next_without_sleep` on: a turn for each reading of the clock, as long as one finds
-- a request. The flag is false where the readings run out first.
unfoldable pub process_due : Ramdisk → List ℕ → Outcome (Ramdisk × Bool)
unfolding next_due complete_at
process_due d [] = done (d, false)
process_due d (now ∷ readings) = elim (next_due d.channels now 0 none) [
  | none ↦ done (d, true)
  | some (_, pos) ↦ (complete_at d pos >>= λ d'. process_due d' readings)
]

-- The last part of a turn of the task: the next response to wait for.
unfoldable pub find_next_response : Ramdisk → Ramdisk
find_next_response d =
    let next = earliest_pending d.channels ullong_max in
    if next == ullong_max
    then record d { next_response_to_reply = false }
    else record d { next_response_time = next; next_response_to_reply = true }

-- One turn of the processing task after its sleep.
unfoldable pub process_responses : Ramdisk → ℕ → List ℕ → Outcome (Ramdisk × Bool)
unfolding process_due find_next_response
process_responses d now readings =
    if ltb now d.next_response_time
    then hang
    else (process_due d (now ∷ readings) >>= λ (d', finished).
        done (if finished then find_next_response d' else d', finished))

unfoldable pub ramdisk_softirq_done : Ramdisk → Ramdisk × Bool
ramdisk_softirq_done d = (
  record d { request_inflight = pred32 d.request_inflight; queue_stopped = false },
  d.queue_stopped,
)
