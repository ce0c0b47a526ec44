-- ===== src/System/Network/Tests.antt =====
-- The system over a network that loses the first request and the first reply each time.
use nctusde.Server.{Server}
use nctusde.Base.{
  ◌<◌, ℕ, ◌≡◌, refl, List, [], ◌∷◌, arith, done, none, false, true, get_or, length, sym, subst,
}
use nctusde.Server.Start.{
  Opt, Uninitialised, listens, first_server, start_server, socket_port_offset,
}
use nctusde.Emudisk.Init.{emudisk_netpoll}
use nctusde.System.Network.Startup.{start-IsSteady}
use nctusde.Link.{Waiting, Fate, request_lost, reply_lost, delivered}
use nctusde.Link.Delivery.{Delivers}
use nctusde.Emudisk.{Emudisk}
use nctusde.Emudisk.Slots.Table.{occupied_ids}
use nctusde.Emudisk.Calls.{emulator_reset}
use nctusde.Emudisk.Init.Loaded.{loaded_disk}
use nctusde.System.Run.{World, Reach}
use nctusde.System.Run.Steady.{IsSteady}
use nctusde.System.Run.Drained.{IsDrained}
use nctusde.System.Run.Tests.{
  steady, mapped, length-mapped, disk3, server3, write_one, writable, written, readable,
}
use nctusde.System.Network.{Network, network_call}
use nctusde.System.Network.Run.{seen, NetworkReach, network-refines, network-drains}
use nctusde.Emudisk.{BlockRequest, segments_size}
use nctusde.Emudisk.Strategy.{start_request, no_slot}
use nctusde.Emudisk.Processing.{fetch_data}
use nctusde.Emudisk.Transfer.RoundTrip.{bytes_of}
use nctusde.System.ReadBack.{IsStartable}
use nctusde.System.Network.Calls.{start_over_network}
use nctusde.System.Network.ReadBack.{network_read_after_write}
use nctusde.System.Tests.{read_one, server, disk, blank, ready}

abbrev fates : ℕ → List Fate
fates k = request_lost ∷ reply_lost ∷ delivered ∷ []

abbrev delivers : (k : ℕ) → Delivers (fates k)
delivers k = tt

abbrev waiting : Waiting
waiting = record {
  nn = record { local_ip = 1; remote_ip = 2; local_port = 5135; remote_port = 5134 };
  current_waiting_reply_id = 0;
  skb_replied = false;
  skb = none;
  returned = 0;
  leaked = 0;
}

abbrev network : Network
network = record { server = server; waiting = waiting; sent = 0 }

abbrev world : World Network
world = record { disk = disk; net = network; unended = 0; clock = 60 }

network-drains_example :
    (w : World Network) × NetworkReach fates blank 7 world w
    × IsDrained blank 7 (seen world) (seen w)
unfolding occupied_ids
network-drains_example = network-drains fates delivers blank 7 world steady (omega arith)

network-refines_example : Reach blank 7 (seen world) (seen network-drains_example.0)
network-refines_example =
    network-refines fates delivers blank 7 world network-drains_example.0 steady
      network-drains_example.1

-- The server's memory is not clear, and it is started with an offset of 1.
abbrev dirty : Uninitialised
dirty = record {
  ssd = server.ssd;
  reply = server.reply;
  reply_sector = server.reply_sector;
  reply_length = 5;
}

abbrev offset_options : List (Opt ℕ)
offset_options = Opt.unknown ∷ Opt.port_offset 1 ∷ []

start-IsSteady_example :
    (start_server
        (λ (n : ℕ). n)
        (record { has_socket = true; binds = λ port. true })
        dirty
        offset_options
      ≡ listens (first_server dirty) 5135)
    × (e : Emudisk) × (n : Network) × (emulator_reset blank
          (network_call fates)
          (loaded_disk 4 1000 mapped disk.os)
          (record { server = first_server dirty; waiting = waiting; sent = 0 })
        ≡ done (e, n))
    × IsSteady (seen (record { disk = e; net = n; unended = 0; clock = 5 }))
unfolding socket_port_offset emudisk_netpoll
start-IsSteady_example =
    start-IsSteady fates delivers blank (λ (n : ℕ). n) (λ name. 0) offset_options
      (record { has_socket = true; binds = λ port. true }) dirty waiting 4 1000 mapped disk.os 5
      refl refl refl refl (omega arith) (omega arith) (omega arith) (omega (arith, length-mapped))
      ready.running

abbrev network3 : Network
network3 = record { server = server3; waiting = waiting; sent = 0 }

-- A write that is started over the network.
net_written :
    (r : Emudisk × Network) × (start_request blank
        (network_call fates)
        7
        disk3
        network3
        100
        write_one
      ≡ done r)
    × ◌≡◌ {A = Emudisk × Server} (r.0, r.1.server) (written.0, written.1)
net_written =
    start_over_network fates delivers blank 7 disk3 network3 100 write_one (written.0, written.1)
      (omega arith) (omega arith) written.2.result

net_readable : IsStartable net_written.0.0 net_written.0.1.server 200 read_one
net_readable =
    subst (λ (r : Emudisk × Server). IsStartable r.0 r.1 200 read_one) (sym net_written.2) readable

network_read_after_write_example :
    (e3 : Emudisk) × (n3 : Network) × (i : ℕ) × (filled : BlockRequest) × (start_request blank
        (network_call fates)
        7
        net_written.0.0
        net_written.0.1
        200
        read_one
      ≡ done (e3, n3))
    × (i < length e3.slots)
    × ((get_or e3.slots i no_slot).request_id ≡ net_written.0.0.udp_send_reply_id)
    × (fetch_data (get_or e3.slots i no_slot) ≡ done filled)
    × (bytes_of filled.segments ≡ 1 ∷ 2 ∷ [])
unfolding segments_size
network_read_after_write_example =
    network_read_after_write fates delivers blank 7 disk3 net_written.0.0 net_written.0.0 network3
      net_written.0.1 net_written.0.1 100 200 write_one read_one writable net_written.1 net_readable
      refl refl refl refl refl
