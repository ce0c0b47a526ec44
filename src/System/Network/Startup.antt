-- ===== src/System/Network/Startup.antt =====
-- From the start of the server and the loading of the module to a system that makes steps.
use Prim.Native.String.{String}
use nctusde.Base.{ℕ, ◌≤◌, ◌<◌, ◌≡◌, refl, true, List, length, done}
use nctusde.Wire.{Request}
use nctusde.Ssd.{max_emulator_channels}
use nctusde.Server.Start.{
  Opt, Uninitialised, Sockets, listens, first_server, socket_port_offset, start_server,
}
use nctusde.Link.{Fate, Waiting}
use nctusde.Link.Delivery.{Delivers}
use nctusde.Emudisk.{Emudisk, Os, max_disk_requests_in_parallel}
use nctusde.Emudisk.Pause.{IsRunning}
use nctusde.Emudisk.Calls.{emulator_reset}
use nctusde.Emudisk.Init.{emudisk_netpoll}
use nctusde.Emudisk.Init.Loaded.{loaded_disk}
use nctusde.System.Run.Steady.{IsSteady}
use nctusde.System.Network.{Network, network_call}
use nctusde.System.Network.Run.{seen}
use nctusde.System.Network.Loaded.{network_reset-IsSteady}

start-listens :
    {Arg : Type 0} (strtol : Arg → ℕ) (in_aton : String → ℕ) (options : List (Opt Arg))
    (sockets : Sockets) (u : Uninitialised)
    → sockets.has_socket ≡ true
    → let port = (emudisk_netpoll in_aton (socket_port_offset strtol options 0)).remote_port in
      sockets.binds port ≡ true
      → start_server strtol sockets u options ≡ listens (first_server u) port
unfolding start_server emudisk_netpoll
start-listens strtol in_aton options sockets u socket binds = rw (socket, binds) refl

module _ (fates : ℕ → List Fate) (delivers : (k : ℕ) → Delivers (fates k)) (blank : Request) where
  -- If the server gets its socket and its port, it listens where a module with the same offset sends
  -- to, whatever its memory held before; and when that module is then loaded, with one to eight
  -- channels and a speed that is not 0, with the OS running and the memory mapped, its reset leaves
  -- both steady, over a network that loses datagrams, but not all sendings of a request.
  pub start-IsSteady :
      {Arg : Type 0} (strtol : Arg → ℕ) (in_aton : String → ℕ) (options : List (Opt Arg))
      (sockets : Sockets) (u : Uninitialised) (waiting : Waiting) (disk_channels speed_factor : ℕ)
      (memory : List ℕ) (os : Os) (clock : ℕ)
      → let port = (emudisk_netpoll in_aton (socket_port_offset strtol options 0)).remote_port in
        sockets.has_socket ≡ true
        → sockets.binds port ≡ true
        → length u.ssd.ssd_channels ≡ max_emulator_channels
        → length u.reply.io_request_ids ≡ max_emulator_channels
        → 0 < disk_channels
        → disk_channels ≤ max_disk_requests_in_parallel
        → 0 < speed_factor
        → 419430400 ≤ length memory
        → IsRunning os
        → (start_server strtol sockets u options ≡ listens (first_server u) port)
          × (e : Emudisk) × (n : Network) × (emulator_reset blank
                (network_call fates)
                (loaded_disk disk_channels speed_factor memory os)
                (record { server = first_server u; waiting = waiting; sent = 0 })
              ≡ done (e, n))
          × IsSteady (seen (record { disk = e; net = n; unended = 0; clock = clock }))
  unfolding first_server
  start-IsSteady strtol in_aton options sockets u waiting disk_channels speed_factor memory os clock
        socket binds array words some_ few runs mapped running =
      let (e, n, result, steady) =
        network_reset-IsSteady fates delivers blank
          (record { server = first_server u; waiting = waiting; sent = 0 }) disk_channels
          speed_factor memory os clock some_ few runs mapped running array words in
      (start-listens strtol in_aton options sockets u socket binds, e, n, result, steady)
