-- ===== src/Ssd.antt =====
-- `class MySSDSim` of emulator_server/udp_server.cxx: the simulated SSD with its channels.
-- A `long` is a natural number below 2 ^ 63. The two values that can be negative are held as their
-- 64-bit patterns: the -1 of an idle channel, and a time that is joined from two words, for which
-- there are submit_request_long and get_next_responses_long.
pub mod Long
pub mod Oldest
pub mod Valid
pub mod Pending
pub mod Answers
pub mod Submit
pub mod Flow
pub mod Overwritten
pub mod Setup
mod Tests
use nctusde.Base.{
  ℕ, zero, suc, ◌+◌, ◌-◌, ◌*◌, ◌%◌, ◌^◌, Bool, true, false, ◌&&◌, Option, none, some, List, [], ◌∷◌,
  ltb, leb, ◌==◌, if◌then◌else◌, get_or, set, take, length, Outcome, done, hang, Option-cases,
}
use nctusde.Timing.{sector_size, request_size_index, emulated_time}

-- `struct ssd_channel`
pub record Channel : Type 0 where
  pub io_request_id : ℕ
  pub completion_time : ℕ
  pub request_last_sector : ℕ
  pub request_rw : ℕ

-- The counters of the file that `submit_request` updates.
pub record Counts : Type 0 where
  pub total_random_request_count : ℕ
  pub total_sequential_request_count : ℕ
  pub total_rollback_request_count : ℕ

pub record Ssd : Type 0 where
  pub size : ℕ
  pub channels : ℕ
  pub speed_factor : ℕ
  pub current_time : ℕ
  pub most_frontier_simulation_time : ℕ
  pub ssd_channels : List Channel
  pub counts : Counts

abbrev pub max_emulator_channels : ℕ
max_emulator_channels = 32

abbrev pub memory_storage_size : ℕ
memory_storage_size = 400 * 1024 * 1024

abbrev pub long_max : ℕ
long_max = 2 ^ 63 - 1

-- The bit pattern of (long)-1.
abbrev pub unused_id : ℕ
unused_id = 2 ^ 64 - 1

-- The channels that the loops `for(i=0; i<channels_; i++)` run over.
abbrev pub active : Ssd → List Channel
active ssd = take ssd.channels ssd.ssd_channels

-- The loop of `setup`.
unfoldable pub reset_channels : ℕ → List Channel → List Channel
reset_channels zero cs = cs
reset_channels (suc n) [] = []
reset_channels (suc n) (c ∷ cs) =
    record c { io_request_id = unused_id; completion_time = 0 } ∷ reset_channels n cs

-- `setup` below its two checks.
abbrev pub restart : Ssd → ℕ → ℕ → ℕ → Ssd
restart ssd size channels speed_factor = record ssd {
  size = size;
  channels = channels;
  current_time = 0;
  speed_factor = speed_factor;
  most_frontier_simulation_time = 0;
  ssd_channels = reset_channels channels ssd.ssd_channels;
}

unfoldable pub setup : Ssd → ℕ → ℕ → ℕ → Outcome Ssd
unfolding reset_channels
setup ssd size channels speed_factor =
    if ltb max_emulator_channels channels
    then done ssd
    else if ltb memory_storage_size size
    then hang
    else done (restart ssd size channels speed_factor)

-- The loop that finds the oldest completion time and its position, from position `i` on.
unfoldable pub oldest : List Channel → ℕ → ℕ → ℕ → ℕ × ℕ
oldest [] i time pos = (time, pos)
oldest (c ∷ cs) i time pos =
    oldest cs (i + 1) (if ltb c.completion_time time then c.completion_time else time)
      (if ltb c.completion_time time then i else pos)

-- The position is not initialised in the source; it is read only after the loop has set it.
unfoldable pub oldest_channel : Ssd → ℕ × ℕ
unfolding oldest
oldest_channel ssd = oldest (active ssd) 0 long_max 0

-- The loop that looks for a request of the same direction that ended where this one begins.
unfoldable pub sequential : List Channel → ℕ → ℕ → Bool → Bool
sequential [] rw sector found = found
sequential (c ∷ cs) rw sector found =
    sequential cs rw sector
      (if c.request_rw == rw && c.request_last_sector == sector then true else found)

unfoldable pub is_sequential_request : Ssd → ℕ → ℕ → Bool
unfolding sequential
is_sequential_request ssd rw sector = sequential (active ssd) rw sector false

-- `nbytes = count * SECTOR_SIZE`, a `long` stored in an `int`: its bit pattern.
abbrev pub request_nbytes : ℕ → ℕ
request_nbytes count = count * sector_size % 2 ^ 32

-- `rw` is 1 for a write and anything else for a read.
abbrev pub direction : ℕ → ℕ
direction rw = if rw == 1 then 1 else 0

abbrev pub count_request : Counts → Bool → Bool → Counts
count_request k seq rollback = record {
  total_random_request_count = k.total_random_request_count + (if seq then 0 else 1);
  total_sequential_request_count = k.total_sequential_request_count + (if seq then 1 else 0);
  total_rollback_request_count = k.total_rollback_request_count + (if rollback then 1 else 0);
}

-- The part of `submit_request` below the search for the size bucket.
-- The completion time is the source's as long as the sum is at most `long_max`.
unfoldable pub occupy : Ssd → ℕ → ℕ → ℕ → ℕ → ℕ → ℕ → ℕ → Ssd
occupy ssd pos index time rw sector count io_request_id = record ssd {
  ssd_channels = set ssd.ssd_channels pos channel;
  most_frontier_simulation_time = if ltb frontier completion then completion else frontier;
  counts = count_request ssd.counts seq (ltb time frontier);
}
  where
    seq : Bool
    seq = is_sequential_request ssd rw sector

    completion : ℕ
    completion = time + emulated_time seq (direction rw) index ssd.speed_factor

    frontier : ℕ
    frontier = ssd.most_frontier_simulation_time

    channel : Channel
    channel = record {
      io_request_id = io_request_id;
      completion_time = completion;
      request_rw = direction rw;
      request_last_sector = sector + count;
    }

-- The flag is false where the source returns -1.
unfoldable pub submit_request : Ssd → ℕ → ℕ → ℕ → ℕ → ℕ → Outcome (Bool × Ssd)
unfolding occupy
submit_request ssd time rw sector count io_request_id =
    let (oldest_time, pos) = oldest_channel ssd in
    if leb time oldest_time
    then done (false, ssd)
    else elim (request_size_index (request_nbytes count)) [
      | none ↦ hang
      | some index ↦ done (true, occupy ssd pos index time rw sector count io_request_id)
    ]

-- `submit_request` for the 64 bits of a `long`. A time below 0 is before all completion times, so
-- that the request is refused.
unfoldable pub submit_request_long : Ssd → ℕ → ℕ → ℕ → ℕ → ℕ → Outcome (Bool × Ssd)
submit_request_long ssd time rw sector count io_request_id =
    if ltb time (2 ^ 63)
    then submit_request ssd time rw sector count io_request_id
    else done (false, ssd)

-- What `get_next_responses` writes through its pointers.
pub record Responses : Type 0 where
  pub num_response : ℕ
  pub time : ℕ
  pub io_request_ids : List ℕ

-- The loop that finds the next completion time after `current_time`, with the channel's position.
unfoldable pub next_response : List Channel → ℕ → ℕ → ℕ → Option ℕ → ℕ × Option ℕ
next_response [] current_time i time channel = (time, channel)
next_response (c ∷ cs) current_time i time channel =
    next_response cs current_time (i + 1)
      (if ltb current_time c.completion_time && ltb c.completion_time time
        then c.completion_time
        else time)
      (if ltb current_time c.completion_time && ltb c.completion_time time then some i else channel)

-- The loop that collects the requests that complete at `time`.
unfoldable pub completing : List Channel → ℕ → List ℕ
completing [] time = []
completing (c ∷ cs) time =
    if c.completion_time == time then c.io_request_id ∷ completing cs time else completing cs time

unfoldable pub respond : List Channel → ℕ × Option ℕ → Responses
respond cs (time, none) = record { num_response = 0; time = 0; io_request_ids = 0 ∷ [] }
respond cs (time, some _) = record {
  num_response = length (completing cs time);
  time = time;
  io_request_ids = completing cs time;
}

unfoldable pub get_next_responses : Ssd → ℕ → Responses × Ssd
unfolding next_response respond completing
get_next_responses ssd current_time = (
  respond (active ssd) (next_response (active ssd) current_time 0 long_max none),
  record ssd {
    current_time = if leb ssd.current_time current_time then current_time else ssd.current_time;
  },
)

-- The loop of `get_next_responses` for a `current_time` below 0, which every completion time is
-- after.
unfoldable pub first_response : List Channel → ℕ → ℕ → Option ℕ → ℕ × Option ℕ
first_response [] i time channel = (time, channel)
first_response (c ∷ cs) i time channel =
    first_response cs (i + 1) (if ltb c.completion_time time then c.completion_time else time)
      (if ltb c.completion_time time then some i else channel)

-- `get_next_responses` for the 64 bits of a `long`. A time below 0 is before `ssd.current_time`.
unfoldable pub get_next_responses_long : Ssd → ℕ → Responses × Ssd
unfolding first_response
get_next_responses_long ssd current_time =
    if ltb current_time (2 ^ 63)
    then get_next_responses ssd current_time
    else (respond (active ssd) (first_response (active ssd) 0 long_max none), ssd)
