-- ===== src/System/Data/Skbs/Read.antt =====
-- A read of the sectors of a request into one skb each.
use mathlib.Core.Path.{ap₂}
use nctusde.Base.{
  ℕ, suc, ◌+◌, ◌*◌, ◌%◌, ◌^◌, ◌≤◌, ◌<◌, ◌≡◌, refl, sym, ap, ◌∙◌, List, [], ◌∷◌, ◌++◌, ◌>>=◌, arith,
  length, All, done,
}
use nctusde.Timing.{sector_size}
use nctusde.Ssd.{memory_storage_size}
use nctusde.Wire.{Request, Packet}
use nctusde.Server.{Server, read_bytes, packet, send}
use nctusde.Emudisk.{Emudisk}
use nctusde.Emudisk.Transfer.Skbs.{Skb}
use nctusde.Emudisk.Transfer.Skbs.Flat.{IsSector, flat}
use nctusde.Emudisk.Calls.{next_id}
use nctusde.Emudisk.Calls.Skbs.{reply_skb, read_sector_skbs}
use nctusde.Emudisk.Strategy.{transfer_sectors}
use nctusde.Link.{checked}
use nctusde.System.{direct_call}
use nctusde.System.Data.{
  after_read, message, direct_call-read, read-same, read-fresh, length-read_bytes, take_all,
}
use nctusde.System.Data.Sectors.{read-step, read_bytes-add}

module _ (blank : Request) (counter : ℕ) where
  reply-sector :
      (s : Server) (id sector : ℕ)
      → (reply_skb (packet (after_read s (checked (message blank id 0 sector))))).sector
        ≡ read_bytes s.storage (sector * sector_size) sector_size
  unfolding message send packet
  reply-sector s id sector =
      take_all _ sector_size (length-read_bytes s.storage (sector * sector_size) sector_size)

  read-first :
      (n i : ℕ) (e e' : Emudisk) (s s1 s' : Server) (pos : ℕ) (k : Skb) (ks rest : List Skb)
      (p : Packet)
      → pos + i < 2 ^ 32
      → direct_call s (message blank e.udp_send_reply_id 0 (pos + i)) [] ≡ done (s1, p)
      → read_sector_skbs blank direct_call n (i + 1) (next_id e) s1 pos ks ≡ done (e', s', rest)
      → read_sector_skbs blank direct_call (suc n) i e s pos (k ∷ ks)
        ≡ done (e', s', reply_skb p ∷ rest)
  unfolding read_sector_skbs message
  read-first n i e e' s s1 s' pos k ks rest p small called next =
      let in_word : (pos + i) % 2 ^ 32 ≡ pos + i = omega arith in
      rw (in_word, called) (rw next refl)

  pub read-follows :
      (skbs : List Skb) (i : ℕ) (e e' : Emudisk) (s s' : Server) (pos : ℕ) (buffer b' : List ℕ)
      → (pos + i + length skbs) * sector_size ≤ memory_storage_size
      → s.current_max_request_id < e.udp_send_reply_id
      → e.udp_send_reply_id + length skbs < 2 ^ 32
      → transfer_sectors blank direct_call counter (length skbs) i e s 0 pos buffer
        ≡ done (e', s', b')
      → (skbs' : List Skb) × (read_sector_skbs blank direct_call (length skbs) i e s pos skbs
          ≡ done (e', s', skbs'))
        × All IsSector skbs'
        × (flat skbs' ≡ read_bytes s.storage ((pos + i) * sector_size) (length skbs * sector_size))
  unfolding read_sector_skbs transfer_sectors read_bytes message
  read-follows [] i e e' s s' pos buffer b' inside fresh wraps h =
      ([], ap (λ m. m >>= λ (e, s, b). done (e, s, [])) h, tt, refl)
  read-follows (k ∷ ks) i e e' s s' pos buffer b' inside fresh wraps h =
      let q = message blank e.udp_send_reply_id 0 (pos + i) in
      let s1 = after_read s (checked q) in
      let called = direct_call-read s q refl refl fresh (omega (arith, inside)) in
      let h' =
        sym (
          read-step blank counter (length ks) i e s pos buffer _ (omega arith)
            (omega (arith, inside)) fresh refl)
        ∙ h in
      let (skbs', next, sectors, bytes) =
        read-follows ks (i + 1) (next_id e) e' s1 s' pos _ b' (omega (arith, inside))
          (read-fresh blank e s (pos + i) (omega (arith, wraps))) (omega (arith, wraps)) h' in
      let first = reply-sector s e.udp_send_reply_id (pos + i) in
      (
        reply_skb (packet s1) ∷ skbs',
        read-first (length ks) i e e' s s1 s' pos k ks skbs' (packet s1) (omega (arith, inside))
            called next,
        (
          ap length first ∙ length-read_bytes s.storage ((pos + i) * sector_size) sector_size,
          sectors,
        ),
        ap₂ ◌++◌ first (
              bytes
              ∙ ap₂ (λ st a. read_bytes st a (length ks * sector_size))
                  (read-same blank s e.udp_send_reply_id (pos + i)).2 (omega arith))
            ∙ sym (
                read_bytes-add s.storage ((pos + i) * sector_size) sector_size
                  (length ks * sector_size))
            ∙ ap (read_bytes s.storage ((pos + i) * sector_size)) (omega arith),
      )
