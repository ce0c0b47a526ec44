-- ===== src/Emudisk.antt =====
-- The state of emulator_kernel/nctuss_emudisk_main.c, in the configuration that the file selects
-- (COMBINE_REQ_DATA and DIFFERENT_SUBMIT_TIME defined; USE_FIQ, TRACE_STAT and the measurements
-- not). On the board a `long` has 32 bits; times are `u64`.
pub mod Slots
pub mod Transfer
pub mod Pause
pub mod Calls
pub mod Strategy
pub mod Processing
pub mod Simulation
pub mod Init
pub mod Geometry
pub mod Statistics
mod Tests
use nctusde.Base.{
  ℕ, ◌+◌, ◌-◌, ◌%◌, ◌^◌, Bool, true, false, List, [], ◌∷◌, ltb, leb, if◌then◌else◌, length,
}

abbrev pub max_disk_requests_in_parallel : ℕ
max_disk_requests_in_parallel = 8

abbrev pub max_request_sector_num : ℕ
max_request_sector_num = 128

-- What the block layer hands over: a `struct request` with its segments of memory.
pub record BlockRequest : Type 0 where
  pub is_fs : Bool
  pub is_write : Bool
  pub pos : ℕ
  pub segments : List (List ℕ)

unfoldable pub segments_size : List (List ℕ) → ℕ
segments_size [] = 0
segments_size (seg ∷ segs) = length seg + segments_size segs

-- `blk_rq_bytes`
abbrev pub request_bytes : BlockRequest → ℕ
request_bytes req = segments_size req.segments

-- `struct request_id_to_req`, with the bytes behind its `data` pointer; the two skb arrays serve
-- the other configuration only. A slot whose id is 0 is free.
pub record Slot : Type 0 where
  pub request_id : ℕ
  pub req : BlockRequest
  pub req_sectors : ℕ
  pub buffer : List ℕ

-- What `pause_OS` and `resume_OS` switch.
pub record Os : Type 0 where
  pub os_paused : Bool
  pub irqs_off : Bool
  pub saved_irqs_off : Bool
  pub gt_locked : Bool
  pub gt_stopped : Bool
  pub ttc_stopped : Bool
  pub preempt_count : ℕ
  pub paused_counter : ℕ

-- The fields of `Emudisk` that change after the module is loaded, the statics of the file, and
-- what the block layer has been handed back: requests completed and requests ended with -EIO.
pub record Emudisk : Type 0 where
  pub size : ℕ
  pub disk_channels : ℕ
  pub speed_factor : ℕ
  pub request_inflight : ℕ
  pub stopping : Bool
  pub next_response_time : ℕ
  pub next_response_num : ℕ
  pub next_response_ids : List ℕ
  pub latest_response_time : ℕ
  pub udp_send_reply_id : ℕ
  pub current_max_get_responses_time : ℕ
  pub slots : List Slot
  pub queue_stopped : Bool
  pub os : Os
  pub completed : List BlockRequest
  pub failed : List BlockRequest

-- `n++` and `n--` on 32 bits.
abbrev pub succ32 : ℕ → ℕ
succ32 n = (n + 1) % 2 ^ 32

abbrev pub pred32 : ℕ → ℕ
pred32 n = (n + 2 ^ 32 - 1) % 2 ^ 32

-- `n >= k` for a signed 32-bit `n` held as its bit pattern, and a `k` that is not negative.
abbrev pub long_ge : ℕ → ℕ → Bool
long_ge n k = if ltb n (2 ^ 31) then leb k n else false
