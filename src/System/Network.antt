-- ===== src/System/Network.antt =====
-- The kernel module and the server with the network between them: a request is sent again until its
-- reply comes in, as in communicate_with_emulator of emulator_kernel/nctuss_emudisk_main.c.
pub mod Carried
pub mod Calls
pub mod Run
pub mod Loaded
pub mod Startup
pub mod ReadBack
mod Tests
use nctusde.Base.{ℕ, ◌+◌, Option, none, some, List, Outcome, done, hang, ◌>>=◌}
use nctusde.Wire.{Request, Packet}
use nctusde.Server.{Server}
use nctusde.Link.{Waiting, Fate, await, exchange}

-- `sent` counts the requests.
pub record Network : Type 0 where
  pub server : Server
  pub waiting : Waiting
  pub sent : ℕ

-- `fates` says for each request what becomes of its sendings. If they end before a reply is there,
-- the module goes on waiting.
unfoldable pub network_call :
    (ℕ → List Fate) → Network → Request → List ℕ → Outcome (Network × Packet)
network_call fates n q bytes = exchange n.server (await n.waiting q) q bytes (fates n.sent) >>= λ r.
    elim r [
      | none ↦ hang
      | some (s, w, p) ↦ done (record { server = s; waiting = w; sent = n.sent + 1 }, p)
    ]
