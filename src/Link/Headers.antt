-- ===== src/Link/Headers.antt =====
-- skb_udp_finish of emulator_kernel/nctuss_emudisk_main.c: the headers put before a request's
-- bytes. A field holds the number that its bytes stand for in network order.
use nctusde.Base.{
  ℕ, ◌+◌, ◌%◌, ◌^◌, ◌≤◌, ◌≡◌, ◌≢◌, true, some, List, length, arith, ◌==◌, if◌then◌else◌, done,
}
use nctusde.Wire.{Packet}
use nctusde.Link.{
  Netpoll, Frame, Waiting, udp_header_size, max_skb_data_size, data_len, receive_skb,
}

abbrev pub ip_header_size : ℕ
ip_header_size = 20

abbrev pub eth_p_ip : ℕ
eth_p_ip = 0x0800

abbrev pub ipproto_udp : ℕ
ipproto_udp = 17

abbrev pub csum_mangled_0 : ℕ
csum_mangled_0 = 0xffff

-- `struct udphdr`, `struct iphdr` and `struct ethhdr`, with the length of the skb from the IP header
-- on.
pub record UdpHeader : Type 0 where
  pub source : ℕ
  pub dest : ℕ
  pub len : ℕ
  pub check : ℕ

pub record IpHeader : Type 0 where
  pub version_ihl : ℕ
  pub tos : ℕ
  pub tot_len : ℕ
  pub id : ℕ
  pub frag_off : ℕ
  pub ttl : ℕ
  pub protocol : ℕ
  pub check : ℕ
  pub saddr : ℕ
  pub daddr : ℕ

pub record Sent : Type 0 where
  pub h_proto : ℕ
  pub h_source : List ℕ
  pub h_dest : List ℕ
  pub ip : IpHeader
  pub udp : UdpHeader
  pub ip_len : ℕ
  pub payload : List ℕ

-- `csum_udp` stands for csum_tcpudp_magic over csum_partial, and `csum_ip` for ip_fast_csum, both
-- with the check field at 0.
module _ (csum_udp : ℕ → ℕ → ℕ → UdpHeader → List ℕ → ℕ) (csum_ip : IpHeader → ℕ) where
  unfoldable pub udp_header : Netpoll → List ℕ → UdpHeader
  udp_header nn payload =
      let udp_len = length payload + udp_header_size in
      let unchecked : UdpHeader = record {
        source = nn.local_port;
        dest = nn.remote_port;
        len = udp_len % 2 ^ 16;
        check = 0;
      } in
      let check = csum_udp nn.local_ip nn.remote_ip udp_len unchecked payload in
      record unchecked { check = if check == 0 then csum_mangled_0 else check }

  unfoldable pub ip_header : Netpoll → List ℕ → IpHeader
  ip_header nn payload =
      let unchecked : IpHeader = record {
        version_ihl = 0x45;
        tos = 0;
        tot_len = (length payload + udp_header_size + ip_header_size) % 2 ^ 16;
        id = 0;
        frag_off = 0;
        ttl = 64;
        protocol = ipproto_udp;
        check = 0;
        saddr = nn.local_ip;
        daddr = nn.remote_ip;
      } in
      record unchecked { check = csum_ip unchecked }

  unfoldable pub skb_udp_finish : Netpoll → (local_mac remote_mac : List ℕ) → List ℕ → Sent
  unfolding udp_header ip_header
  skb_udp_finish nn local_mac remote_mac payload = record {
    h_proto = eth_p_ip;
    h_source = local_mac;
    h_dest = remote_mac;
    ip = ip_header nn payload;
    udp = udp_header nn payload;
    ip_len = length payload + udp_header_size + ip_header_size;
    payload = payload;
  }

  -- The view from the other end.
  abbrev pub mirrored : Netpoll → Netpoll
  mirrored nn = record {
    local_ip = nn.remote_ip;
    remote_ip = nn.local_ip;
    local_port = nn.remote_port;
    remote_port = nn.local_port;
  }

  -- How nctuss_receive_skb reads the headers.
  abbrev pub received : Sent → Packet → Frame
  received t p = record {
    is_ip = t.h_proto == eth_p_ip;
    ihl = t.ip.version_ihl % 16;
    saddr = t.ip.saddr;
    daddr = t.ip.daddr;
    source = t.udp.source;
    dest = t.udp.dest;
    len = t.ip_len;
    packet = p;
  }

  -- A datagram with the headers of skb_udp_finish, sent from the other end, is taken by
  -- nctuss_receive_skb as the reply that is waited for, if it has that reply's id and at most 2048
  -- bytes. The length that is computed is that of the bytes behind the headers, both length fields
  -- are exact, and the UDP checksum is never 0, which would say that there is none.
  pub skb_udp_finish-received :
      (w : Waiting) (local_mac remote_mac payload : List ℕ) (p : Packet)
      → length payload ≤ max_skb_data_size
      → p.reply.id ≡ w.current_waiting_reply_id
      → let t = skb_udp_finish (mirrored w.nn) local_mac remote_mac payload in
        (receive_skb w (received t p) ≡ done (record w { skb = some p; skb_replied = true }))
        × (data_len (received t p) ≡ length payload)
        × (t.udp.len ≡ length payload + udp_header_size)
        × (t.ip.tot_len ≡ t.udp.len + ip_header_size)
        × (t.udp.check ≢ 0)
  unfolding skb_udp_finish receive_skb
  skb_udp_finish-received w local_mac remote_mac payload p small id =
      (ground arith, omega arith, omega arith, omega arith, ground arith)
