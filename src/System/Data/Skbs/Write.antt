-- ===== src/System/Data/Skbs/Write.antt =====
-- A write of the sectors of a request from one skb each.
use nctusde.Base.{
  ℕ, ◌+◌, ◌-◌, ◌*◌, ◌%◌, ◌^◌, ◌≤◌, ◌<◌, ◌≡◌, refl, sym, ap, ◌∙◌, List, [], ◌∷◌, ◌++◌, ◌>>=◌, arith,
  length, drop, All, done, replicate,
}
use nctusde.Timing.{sector_size}
use nctusde.Ssd.{memory_storage_size}
use nctusde.Wire.{Request, request_size}
use nctusde.Server.{Server, packet}
use nctusde.Emudisk.{Emudisk}
use nctusde.Emudisk.Transfer.{copy_from}
use nctusde.Emudisk.Transfer.RoundTrip.{drop-drop}
use nctusde.Emudisk.Transfer.Skbs.{Skb}
use nctusde.Emudisk.Transfer.Skbs.Flat.{IsSector, flat}
use nctusde.Emudisk.Calls.{next_id}
use nctusde.Emudisk.Calls.Skbs.{sent_bytes, write_sector_skbs}
use nctusde.Emudisk.Strategy.{transfer_sectors}
use nctusde.Link.{checked}
use nctusde.System.{direct_call}
use nctusde.System.Data.{after_write, written-fresh, direct_call-write, message}
use nctusde.System.Data.Sectors.{write-step}
use nctusde.Server.Sectors.{InStorage}
use nctusde.System.Data.First.{StartsAs, direct_call-StartsAs, front-StartsAs, drop-front}

-- Behind the first sector.
drop-next :
    (buffer sector rest : List ℕ) (i : ℕ)
    → length sector ≡ sector_size
    → drop (i * sector_size) buffer ≡ sector ++ rest
    → drop ((i + 1) * sector_size) buffer ≡ rest
drop-next buffer sector rest i l h =
    ap (λ k. drop k buffer) (omega arith)
    ∙ sym (drop-drop (i * sector_size) sector_size buffer)
    ∙ ap (drop sector_size) h
    ∙ drop-front sector rest sector_size l

module _ (blank : Request) (counter : ℕ) where
  -- A sector that is sent from an skb is stored as if it was sent from the buffer.
  sent-stored :
      (beyond : List ℕ) (skb : Skb) (rest buffer : List ℕ) (i : ℕ) (s : Server) (id sector : ℕ)
      → IsSector skb
      → drop (i * sector_size) buffer ≡ skb.sector ++ rest
      → s.current_max_request_id < id
      → InStorage sector
      → let q = message blank id 1 sector in
        let s' = after_write s (checked q) (copy_from buffer (i * sector_size) sector_size) in
        direct_call s q (sent_bytes beyond skb) ≡ done (s', packet s')
  unfolding message
  sent-stored beyond skb rest buffer i s id sector l found fresh inside =
      let q = message blank id 1 sector in
      let size = skb.len + (request_size + sector_size) - request_size in
      let starts : StartsAs (copy_from buffer (i * sector_size) sector_size)
          (sent_bytes beyond skb) =
        rw found
          (front-StartsAs skb.sector rest beyond sector_size size l (omega arith) (omega arith)) in
      sym (
        direct_call-StartsAs s q (copy_from buffer (i * sector_size) sector_size)
          (sent_bytes beyond skb) (λ e. cc e) starts)
      ∙ direct_call-write s q (copy_from buffer (i * sector_size) sector_size) refl refl fresh
          inside starts.0

  pub write-follows :
      (beyond : List ℕ) (fresh_skb : Skb) (skbs : List Skb) (i : ℕ) (e e' : Emudisk) (s s' : Server)
      (pos : ℕ) (buffer b' : List ℕ)
      → All IsSector skbs
      → drop (i * sector_size) buffer ≡ flat skbs
      → (pos + i + length skbs) * sector_size ≤ memory_storage_size
      → (i + length skbs) * sector_size ≤ length buffer
      → s.current_max_request_id < e.udp_send_reply_id
      → e.udp_send_reply_id + length skbs < 2 ^ 32
      → transfer_sectors blank direct_call counter (length skbs) i e s 1 pos buffer
        ≡ done (e', s', b')
      → write_sector_skbs blank direct_call beyond fresh_skb (length skbs) i e s pos skbs
        ≡ done (e', s', replicate (length skbs) fresh_skb)
  unfolding write_sector_skbs transfer_sectors message
  write-follows beyond fresh_skb [] i e e' s s' pos buffer b' sectors found inside room fresh wraps
        h =
      ap (λ m. m >>= λ (e, s, b). done (e, s, [])) h
  write-follows beyond fresh_skb (k ∷ ks) i e e' s s' pos buffer b' sectors found inside room fresh
        wraps h =
      let in_word : (pos + i) % 2 ^ 32 ≡ pos + i = omega arith in
      let sent = copy_from buffer (i * sector_size) sector_size in
      let s1 = after_write s (checked (message blank e.udp_send_reply_id 1 (pos + i))) sent in
      let called =
        sent-stored beyond k (flat ks) buffer i s e.udp_send_reply_id (pos + i) sectors.0 found
          fresh (omega (arith, inside)) in
      let h' =
        sym (
          write-step blank counter (length ks) i e s pos buffer _ (omega arith)
            (omega (arith, inside)) (omega (arith, room)) fresh refl)
        ∙ h in
      let next =
        write-follows beyond fresh_skb ks (i + 1) (next_id e) e' s1 s' pos buffer b' sectors.1
          (drop-next buffer k.sector (flat ks) i sectors.0 found) (omega (arith, inside))
          (omega (arith, room)) (written-fresh blank e s (pos + i) sent (omega (arith, wraps)))
          (omega (arith, wraps)) h' in
      rw (in_word, called) (rw next refl)
