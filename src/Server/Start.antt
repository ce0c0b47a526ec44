-- ===== src/Server/Start.antt =====
-- The start of `main` in emulator_server/udp_server.cxx: options, state and socket.
use nctusde.Base.{ℕ, ◌+◌, ◌%◌, ◌^◌, Bool, List, [], ◌∷◌, if◌then◌else◌}
use nctusde.Ssd.{Ssd}
use nctusde.Wire.{Reply}
use nctusde.Server.{Server, no_counts}

abbrev pub serv_port : ℕ
serv_port = 5134

-- What getopt returns.
pub data Opt (Arg : Type 0) : Type 0 where
  port_offset : Arg → Opt Arg
  unknown : Opt Arg

-- What a variable holds before anything is assigned to it. The constructor of MySSDSim assigns
-- nothing.
pub record Uninitialised : Type 0 where
  pub ssd : Ssd
  pub reply : Reply
  pub reply_sector : List ℕ
  pub reply_length : ℕ

-- What `socket` and, for a port, `bind` come to.
pub record Sockets : Type 0 where
  pub has_socket : Bool
  pub binds : ℕ → Bool

-- The server exits with a code, or it listens at a port.
pub data Startup : Type 0 where
  exits : ℕ → Startup
  listens : Server → ℕ → Startup

unfoldable pub first_server : Uninitialised → Server
first_server u = record {
  current_max_request_id = 0;
  ssd = record (u.ssd) { counts = no_counts };
  storage = λ a. 0;
  reply = u.reply;
  reply_sector = u.reply_sector;
  reply_length = u.reply_length;
}

-- `strtol` returns the bits of a `long`, which are put in an `int`.
module _ {Arg : Type 0} (strtol : Arg → ℕ) where
  unfoldable pub socket_port_offset : List (Opt Arg) → ℕ → ℕ
  socket_port_offset [] offset = offset
  socket_port_offset (port_offset arg ∷ options) offset =
      socket_port_offset options (strtol arg % 2 ^ 32)
  socket_port_offset (unknown ∷ options) offset = socket_port_offset options offset

  abbrev pub service_port : List (Opt Arg) → ℕ
  service_port options = (serv_port + socket_port_offset options 0) % 2 ^ 16

  unfoldable pub start_server : Sockets → Uninitialised → List (Opt Arg) → Startup
  unfolding first_server socket_port_offset
  start_server sockets u options =
      if sockets.has_socket
      then if sockets.binds (service_port options)
        then listens (first_server u) (service_port options)
        else exits 1
      else exits 1
