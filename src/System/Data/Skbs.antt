-- ===== src/System/Data/Skbs.antt =====
-- The sectors of a request in one skb each, and in one buffer.
pub mod Write
pub mod Read
use mathlib.Core.Path.{ap₂}
use nctusde.Base.{
  ℕ, suc, ◌+◌, ◌-◌, ◌*◌, ◌%◌, ◌^◌, ◌≤◌, ◌<◌, ◌≡◌, refl, sym, ap, ◌∙◌, List, [], ◌∷◌, ◌++◌, ◌>>=◌,
  arith, length, drop, All, done, replicate, length-append,
}
use nctusde.Timing.{sector_size}
use nctusde.Ssd.{memory_storage_size}
use nctusde.Wire.{Request, Packet, request_size}
use nctusde.Server.{Server, read_bytes, packet, send}
use nctusde.Emudisk.{Emudisk}
use nctusde.Emudisk.Transfer.{copy_to, copy_from, overlay}
use nctusde.Emudisk.Transfer.RoundTrip.{drop-drop}
use nctusde.Emudisk.Transfer.Skbs.{Skb}
use nctusde.Emudisk.Transfer.Skbs.Flat.{IsSector, flat}
use nctusde.Emudisk.Calls.{next_id}
use nctusde.Emudisk.Calls.Skbs.{sent_bytes, reply_skb, write_sector_skbs, read_sector_skbs}
use nctusde.Emudisk.Strategy.{transfer_sectors}
use nctusde.Link.{checked}
use nctusde.System.{direct_call}
use nctusde.System.Data.{
  after_read, after_write, written-fresh, direct_call-write, message, direct_call-read, read-same,
  read-fresh, length-read_bytes, take_all,
}
use nctusde.System.Data.Sectors.{
  later, write-step, read-step, read_bytes-add, transfer_write, transfer_read,
}
use nctusde.Server.Sectors.{InStorage}
use nctusde.System.Data.First.{StartsAs, direct_call-StartsAs, front-StartsAs, drop-front}
use nctusde.System.Data.Skbs.Write.{write-follows}
use nctusde.System.Data.Skbs.Read.{read-follows}

length-flat : (skbs : List Skb) → All IsSector skbs → length (flat skbs) ≡ length skbs * sector_size
length-flat [] sectors = refl
length-flat (k ∷ ks) sectors =
    omega (arith, length-append k.sector (flat ks), sectors.0, length-flat ks sectors.1)

overlay_all : (bytes buffer : List ℕ) → length bytes ≡ length buffer → overlay bytes buffer ≡ bytes
unfolding overlay
overlay_all [] [] h = refl
overlay_all [] (b ∷ buffer) h = absurd (omega arith)
overlay_all (c ∷ bytes) [] h = absurd (omega arith)
overlay_all (c ∷ bytes) (b ∷ buffer) h = ap (◌∷◌ c) (overlay_all bytes buffer (omega arith))

module _ (blank : Request) (counter : ℕ) where
  -- For sectors of the storage, with ids that are new and fit 32 bits, the version that sends and
  -- receives one skb for each sector, whatever follows the sector in an skb, brings module and
  -- server to the same state as the compiled version does on one buffer with the same bytes, and
  -- neither hangs or fails: a write stores the same, and a read leaves the same bytes.
  pub transfer_sectors-matches :
      (beyond : List ℕ) (fresh_skb : Skb) (skbs : List Skb) (e : Emudisk) (s : Server) (pos : ℕ)
      → All IsSector skbs
      → (pos + length skbs) * sector_size ≤ memory_storage_size
      → s.current_max_request_id < e.udp_send_reply_id
      → e.udp_send_reply_id + length skbs < 2 ^ 32
      → ((e' : Emudisk) × (s' : Server) × (transfer_sectors blank direct_call counter
              (length skbs)
              0
              e
              s
              1
              pos
              (flat skbs)
            ≡ done (e', s', flat skbs))
          × (write_sector_skbs blank direct_call beyond fresh_skb (length skbs) 0 e s pos skbs
              ≡ done (e', s', replicate (length skbs) fresh_skb)))
        × ((e' : Emudisk) × (s' : Server) × (skbs' : List Skb) × (transfer_sectors blank direct_call
                counter
                (length skbs)
                0
                e
                s
                0
                pos
                (flat skbs)
              ≡ done (e', s', flat skbs'))
            × (read_sector_skbs blank direct_call (length skbs) 0 e s pos skbs
                ≡ done (e', s', skbs'))
            × All IsSector skbs')
  unfolding copy_to
  transfer_sectors-matches beyond fresh_skb skbs e s pos sectors inside fresh wraps =
      let size = length-flat skbs sectors in
      let n = length skbs in
      let (s1, wrote, _, _) =
        transfer_write blank counter n 0 e s pos (flat skbs) (omega (arith, inside))
          (omega (arith, size)) fresh wraps in
      let (s2, read, _, _) =
        transfer_read blank counter n 0 e s pos (flat skbs) (omega (arith, inside)) fresh wraps in
      let (skbs', followed, sectors', bytes) =
        read-follows blank counter skbs 0 e (later e n) s s2 pos (flat skbs) _
          (omega (arith, inside)) fresh wraps read in
      (
        (
          later e n,
          s1,
          wrote,
          write-follows blank counter beyond fresh_skb skbs 0 e (later e n) s s1 pos (flat skbs)
              (flat skbs) sectors refl (omega (arith, inside)) (omega (arith, size)) fresh wraps
              wrote,
        ),
        (
          later e n,
          s2,
          skbs',
          read
              ∙ ap (λ b. done (later e n, s2, b))
                  (overlay_all (read_bytes s.storage ((pos + 0) * sector_size) (n * sector_size))
                      (flat skbs)
                      (length-read_bytes s.storage ((pos + 0) * sector_size) (n * sector_size)
                        ∙ sym size)
                    ∙ sym bytes),
          followed,
          sectors',
        ),
      )
