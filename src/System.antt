-- ===== src/System.antt =====
-- The kernel module and the server together: each request that the module sends is handled by the
-- server at once and answered, without a network in between.
mod Handled
pub mod Sync
pub mod Run
pub mod Loaded
pub mod ReadBack
pub mod Data
pub mod Network
mod Tests
use nctusde.Base.{ℕ, Option, none, some, List, Outcome, done, hang, ◌>>=◌}
use nctusde.Wire.{Request, Packet, full}
use nctusde.Server.{Server, handle}
use nctusde.Link.{checked}

-- A request that gets no answer is waited for without end.
unfoldable pub direct_call : Server → Request → List ℕ → Outcome (Server × Packet)
direct_call s q bytes = handle s (full (checked q) bytes) >>= λ (s', sent). elim sent [
  | none ↦ hang
  | some p ↦ done (s', p)
]
