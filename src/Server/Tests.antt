-- ===== src/Server/Tests.antt =====
-- The server at concrete datagrams.
use nctusde.Base.{ℕ, ◌≡◌, refl, some, none, List, [], ◌∷◌, arith, replicate, done, fault}
use nctusde.Server.Serve.{Received}
use nctusde.Ssd.{Ssd, Channel, setup, restart}
use nctusde.Wire.{Request, Packet, full, truncated, reply_ok}
use nctusde.Server.{Server, handle, dispatch, send, packet, handle_write, put_sector, get_sector}
use nctusde.Server.Sectors.{setup-too_large}
use nctusde.Server.Retransmission.{handle_again, handle_short_write, handle_large_reset}

abbrev idle : Channel
idle = record { io_request_id = 0; completion_time = 0; request_last_sector = 0; request_rw = 0 }

abbrev ssd : Ssd
ssd = record {
  size = 819200;
  channels = 1;
  speed_factor = 1000;
  current_time = 0;
  most_frontier_simulation_time = 0;
  ssd_channels = replicate 32 idle;
  counts = record {
    total_random_request_count = 0;
    total_sequential_request_count = 0;
    total_rollback_request_count = 0;
  };
}

abbrev server : Server
server = record {
  current_max_request_id = 124;
  ssd = ssd;
  storage = λ a. 7;
  reply = record {
    id = 124;
    type = 1;
    data1 = 0;
    data2 = 0;
    data3 = 0;
    data4 = 0;
    io_request_ids = replicate 32 0;
    id_check = 124;
  };
  reply_sector = replicate 512 0;
  reply_length = 156;
}

abbrev request : Request
request = record {
  id = 125;
  type = 4;
  data1 = 1;
  data2 = 3;
  data3 = 0;
  data4 = 0;
  data5 = 0;
  data6 = 0;
  id_check = 125;
}

abbrev bytes : List ℕ
bytes = replicate 512 9

-- The server after the write of sector 3.
after : Server
unfolding handle dispatch handle_write put_sector send
after = elim (handle server (full request bytes)) [ done r ↦ r.0 | _ ↦ server ]

setup-too_large_example :
    (setup ssd 900000 1 1000 ≡ done (restart ssd 900000 1 1000))
    × (put_sector (λ a. 7) 819200 bytes ≡ fault)
    × (get_sector (λ a. 7) 819200 ≡ fault)
setup-too_large_example =
    setup-too_large ssd 900000 1 1000 819200 (λ a. 7) bytes (omega arith) (omega arith)
      (omega arith) (omega arith)

handle_again_example : handle after (full request bytes) ≡ done (after, some (packet after))
unfolding after packet
handle_again_example = handle_again server after request bytes (packet after) (omega arith) refl

handle_short_write_example :
    (handle server (full request (1 ∷ []))
      ≡ done (record server { current_max_request_id = 125 }, none))
    × (handle (record server { current_max_request_id = 125 }) (full request (1 ∷ []))
        ≡ done (record server { current_max_request_id = 125 }, some (packet server)))
unfolding packet
handle_short_write_example =
    handle_short_write server request (1 ∷ []) refl (omega arith) (omega arith) (omega arith) refl

abbrev large_reset : Request
large_reset = record request { type = 1; data1 = 819200; data2 = 64; data3 = 1000 }

handle_large_reset_example :
    (s' : Server) × (p : Packet) × (handle server (full large_reset []) ≡ done (s', some p))
    × (p.reply.type ≡ reply_ok)
    × (p.reply.id ≡ 125)
    × (s'.ssd.size ≡ 819200)
    × (s'.ssd.channels ≡ 1)
    × (s'.ssd.speed_factor ≡ 1000)
handle_large_reset_example = handle_large_reset server large_reset [] refl (omega arith)

-- A reset, a write, the same write again, a short datagram and a query.
abbrev reset_request : Request
reset_request = record request { id = 123; type = 1; data1 = 819200; data2 = 4; data3 = 1000 }

abbrev query_request : Request
query_request = record request { id = 126; type = 3; data1 = 0; data2 = 100; id_check = 126 }

abbrev received : List Received
received =
    Received.datagram (full reset_request [])
    ∷ Received.datagram (full request bytes)
    ∷ Received.failed
    ∷ Received.datagram (full request bytes)
    ∷ Received.datagram truncated
    ∷ Received.datagram (full query_request [])
    ∷ []
