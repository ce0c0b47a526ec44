-- ===== src/Link.antt =====
-- The path of a request to the server and back: nctuss_receive_skb and communicate_with_emulator
-- of emulator_kernel/nctuss_emudisk_main.c.
pub mod Receive
pub mod Delivery
pub mod Headers
mod Tests
use nctusde.Base.{
  ℕ, zero, suc, ◌+◌, ◌-◌, ◌*◌, ◌%◌, ◌^◌, Bool, true, false, not, ◌&&◌, Option, none, some, List, [],
  ◌∷◌, ltb, ◌==◌, if◌then◌else◌, length, Outcome, done, hang, fault, ◌>>=◌,
}
use nctusde.Wire.{Request, Reply, Packet, Datagram, full, reply_size}
use nctusde.Server.{Server, handle}

-- The part of `struct nctuss_netpoll` that addresses are checked by.
pub record Netpoll : Type 0 where
  pub local_ip : ℕ
  pub remote_ip : ℕ
  pub local_port : ℕ
  pub remote_port : ℕ

-- A received skb: what its headers say, its length from the IP header on, and the packet behind.
pub record Frame : Type 0 where
  pub is_ip : Bool
  pub ihl : ℕ
  pub saddr : ℕ
  pub daddr : ℕ
  pub source : ℕ
  pub dest : ℕ
  pub len : ℕ
  pub packet : Packet

abbrev pub udp_header_size : ℕ
udp_header_size = 8

abbrev pub max_skb_data_size : ℕ
max_skb_data_size = 2048

-- The fields of `Emudisk` that wait for a reply, and how many received skbs the driver has back
-- and how many neither went back nor were kept.
pub record Waiting : Type 0 where
  pub nn : Netpoll
  pub current_waiting_reply_id : ℕ
  pub skb_replied : Bool
  pub skb : Option Packet
  pub returned : ℕ
  pub leaked : ℕ

abbrev pub is_ours : Netpoll → Frame → Bool
is_ours nn f =
    nn.local_ip == f.daddr
    && nn.remote_ip == f.saddr
    && nn.local_port == f.dest
    && nn.remote_port == f.source

-- The UDP payload's length, a u32.
abbrev pub data_len : Frame → ℕ
data_len f = (f.len + 2 ^ 32 - udp_header_size + 2 ^ 32 - f.ihl * 4) % 2 ^ 32

unfoldable pub receive_skb : Waiting → Frame → Outcome Waiting
receive_skb w f =
    if f.is_ip
    then if is_ours w.nn f
      then if f.packet.reply.id == w.current_waiting_reply_id
        then if ltb max_skb_data_size (data_len f)
          then hang
          else done (record w { skb = some f.packet; skb_replied = true })
        else done (record w { leaked = w.leaked + 1 })
      else done (record w { returned = w.returned + 1 })
    else done (record w { returned = w.returned + 1 })

-- One poll of the driver hands over the frames that have come in.
unfoldable pub poll : Waiting → List Frame → Outcome Waiting
poll w [] = done w
poll w (f ∷ fs) = receive_skb w f >>= λ w'. poll w' fs

-- The inner loop, for one sending of the request, over the polls that the threshold allows. The flag
-- says that the loop has seen a reply. After the last poll the request is sent again, even if that
-- poll has brought the reply.
unfoldable pub poll_until_replied : Waiting → List (List Frame) → Outcome (Waiting × Bool)
poll_until_replied w [] = done (w, false)
poll_until_replied w (fs ∷ polls) = elim w.skb_replied [
  | true ↦ done (w, true)
  | false ↦ (poll w fs >>= λ w'. poll_until_replied w' polls)
]

-- `*skb_reply = Emudisk.skb`, with the sent skb given back to the driver.
unfoldable pub take_reply : Waiting → Outcome (Option (Waiting × Packet))
take_reply w = elim w.skb [
  | none ↦ fault
  | some p ↦ done (some (record w { returned = w.returned + 1 }, p))
]

-- The loop by `resend`, over what each sending brings in.
-- Without a reply the request is sent for ever: `none` is a run that is still waiting.
unfoldable pub send_until_replied :
    Waiting → List (List (List Frame)) → Outcome (Option (Waiting × Packet))
unfolding take_reply
send_until_replied w [] = done none
send_until_replied w (polls ∷ sendings) = poll_until_replied w polls >>= λ (w', replied).
    elim replied [ true ↦ take_reply w' | false ↦ send_until_replied w' sendings ]

-- The start of communicate_with_emulator.
abbrev pub await : Waiting → Request → Waiting
await w q = record w { skb_replied = false; current_waiting_reply_id = q.id }

abbrev pub checked : Request → Request
checked q = record q { id_check = q.id }

unfoldable pub communicate_with_emulator :
    Waiting → Request → List (List (List Frame)) → Outcome (Option (Waiting × Packet))
unfolding send_until_replied
communicate_with_emulator w q sendings = send_until_replied (await w q) sendings

-- The server's reply as it comes in at the board.
abbrev pub reply_frame : Netpoll → Packet → Frame
reply_frame nn p = record {
  is_ip = true;
  ihl = 5;
  saddr = nn.remote_ip;
  daddr = nn.local_ip;
  source = nn.remote_port;
  dest = nn.local_port;
  len = 20 + udp_header_size + reply_size + length p.payload;
  packet = p;
}

-- What becomes of one sending of the request: it is lost; or the server has it and its reply, if
-- any, is lost; or the reply comes in before the last poll.
pub data Fate : Type 0 where
  request_lost reply_lost delivered : Fate

-- The loop by `resend` with the server at the other end.
unfoldable pub exchange :
    Server → Waiting → Request → List ℕ → List Fate → Outcome (Option (Server × Waiting × Packet))
unfolding take_reply
exchange s w q bytes [] = done none
exchange s w q bytes (request_lost ∷ fates) = exchange s w q bytes fates
exchange s w q bytes (reply_lost ∷ fates) =
    handle s (full (checked q) bytes) >>= λ (s', sent). exchange s' w q bytes fates
exchange s w q bytes (delivered ∷ fates) = handle s (full (checked q) bytes) >>= λ (s', sent).
    elim sent [
      | none ↦ exchange s' w q bytes fates
      | some p ↦ receive_skb w (reply_frame w.nn p) >>= λ w'. elim w'.skb_replied [
        | true ↦
            (take_reply w' >>= λ r.
            done (elim r [ none ↦ none | some (w'', p') ↦ some (s', w'', p') ]))
        | false ↦ exchange s' w' q bytes fates
      ]
    ]
