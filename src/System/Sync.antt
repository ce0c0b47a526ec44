-- ===== src/System/Sync.antt =====
-- When the module's table and the server's channels are in step.
pub mod Submit
pub mod Query
pub mod Ready
pub mod Turn
pub mod Start
pub mod Started
pub mod Taken
pub mod Waits
pub mod Loop
pub mod Asked
pub mod Called
use mathlib.Core.List.{Perm}
use nctusde.Base.{ℕ, ◌+◌, ◌^◌, ◌≤◌, ◌<◌, ◌≡◌, length, All}
use nctusde.Server.{Server}
use nctusde.Ssd.{active, max_emulator_channels}
use nctusde.Ssd.Valid.{IsValid}
use nctusde.Ssd.Pending.{pending_ids}
use nctusde.Emudisk.{Emudisk, max_disk_requests_in_parallel}
use nctusde.Emudisk.Slots.Table.{occupied_ids}

-- The requests in flight in the module's table are, up to order, those that the server still has
-- to answer after the latest response.
pub record InSync (e : Emudisk) (s : Server) : Type 0 where
  pub valid : IsValid s.ssd
  pub channels : s.ssd.channels ≡ length e.slots
  pub few : length e.slots ≤ max_disk_requests_in_parallel
  pub running : 0 < s.ssd.speed_factor
  pub fresh : s.current_max_request_id < e.udp_send_reply_id
  pub words : length s.reply.io_request_ids ≡ max_emulator_channels
  pub ids : All (λ i. i < 2 ^ 32) (occupied_ids e.slots)
  pub in_flight : Perm (occupied_ids e.slots) (pending_ids (active s.ssd) e.latest_response_time)
