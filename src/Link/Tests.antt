-- ===== src/Link/Tests.antt =====
-- A write over a network that loses datagrams.
use nctusde.Base.{
  ℕ, ◌≡◌, ◌≢◌, ◌+◌, refl, true, false, none, some, List, [], ◌∷◌, arith, replicate, done,
}
use nctusde.Wire.{Request, Packet, full}
use nctusde.Server.{Server, handle, dispatch, handle_write, put_sector, send}
use nctusde.Link.{
  data_len, Frame, Waiting, Fate, request_lost, reply_lost, delivered, await, checked, reply_frame,
  communicate_with_emulator, send_until_replied, poll_until_replied, poll, receive_skb, take_reply,
}
use nctusde.Link.Receive.{communicate-matches}
use nctusde.Link.Headers.{mirrored, received, skb_udp_finish, skb_udp_finish-received}
use nctusde.Link.Delivery.{replied}

abbrev server : Server
server = record {
  current_max_request_id = 124;
  ssd = record {
    size = 819200;
    channels = 0;
    speed_factor = 1000;
    current_time = 0;
    most_frontier_simulation_time = 0;
    ssd_channels = [];
    counts = record {
      total_random_request_count = 0;
      total_sequential_request_count = 0;
      total_rollback_request_count = 0;
    };
  };
  storage = λ a. 7;
  reply = record {
    id = 124;
    type = 1;
    data1 = 0;
    data2 = 0;
    data3 = 0;
    data4 = 0;
    io_request_ids = [];
    id_check = 124;
  };
  reply_sector = [];
  reply_length = 156;
}

abbrev request : Request
request = record {
  id = 125;
  type = 4;
  data1 = 1;
  data2 = 3;
  data3 = 0;
  data4 = 0;
  data5 = 0;
  data6 = 0;
  id_check = 0;
}

abbrev waiting : Waiting
waiting = record {
  nn = record { local_ip = 1; remote_ip = 2; local_port = 5135; remote_port = 5134 };
  current_waiting_reply_id = 0;
  skb_replied = false;
  skb = none;
  returned = 0;
  leaked = 0;
}

abbrev bytes : List ℕ
bytes = replicate 512 9

after : Server
unfolding handle dispatch handle_write put_sector send
after = elim (handle server (full (checked request) bytes)) [ done r ↦ r.0 | _ ↦ server ]

abbrev fates : List Fate
fates = request_lost ∷ reply_lost ∷ request_lost ∷ delivered ∷ []

-- A reply to an earlier request comes in, and then, with the last poll, the one that is waited for:
-- the request is sent once more.
abbrev old_reply : Packet
old_reply = record { reply = record (server.reply) { id = 124 }; payload = [] }

abbrev new_reply : Packet
new_reply = record { reply = record (server.reply) { id = 125 }; payload = [] }

abbrev sendings : List (List (List Frame))
sendings =
    ([] ∷ (reply_frame waiting.nn old_reply ∷ []) ∷ [])
    ∷ ((reply_frame waiting.nn new_reply ∷ []) ∷ [])
    ∷ ([] ∷ [])
    ∷ []

abbrev answered : Waiting
answered = record (replied (await waiting request) new_reply) { leaked = 1 }

communicate-matches_example : (new_reply.reply).id ≡ 125
unfolding communicate_with_emulator send_until_replied poll_until_replied poll receive_skb
    take_reply
communicate-matches_example = communicate-matches waiting answered request sendings new_reply refl

abbrev answer_packet : Packet
answer_packet = record { reply = record (server.reply) { id = 0 }; payload = [] }

-- Checksums that are always 0, the case in which the UDP checksum is replaced.
skb_udp_finish-received_example :
    let t =
      skb_udp_finish
        (λ _ _ _ _ _. 0)
        (λ _. 0)
        (mirrored (λ _ _ _ _ _. 0) (λ _. 0) waiting.nn)
        []
        []
        (replicate 156 0) in
    (receive_skb waiting (received (λ _ _ _ _ _. 0) (λ _. 0) t answer_packet)
      ≡ done (record waiting { skb = some answer_packet; skb_replied = true }))
    × (data_len (received (λ _ _ _ _ _. 0) (λ _. 0) t answer_packet) ≡ 156)
    × (t.udp.len ≡ 164)
    × (t.ip.tot_len ≡ t.udp.len + 20)
    × (t.udp.check ≢ 0)
skb_udp_finish-received_example =
    skb_udp_finish-received (λ _ _ _ _ _. 0) (λ _. 0) waiting [] [] (replicate 156 0) answer_packet
      (omega arith) refl
