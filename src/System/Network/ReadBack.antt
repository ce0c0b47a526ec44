-- ===== src/System/Network/ReadBack.antt =====
-- From a write to a later read, over the network.
use nctusde.Base.{
  ℕ, ◌<◌, ◌≡◌, sym, ap, ◌∙◌, true, false, List, length, get_or, arith, done, done-injective,
}
use nctusde.Wire.{Request}
use nctusde.Server.{Server}
use nctusde.Link.{Fate}
use nctusde.Link.Delivery.{Delivers}
use nctusde.Emudisk.{Emudisk, BlockRequest, request_bytes}
use nctusde.Emudisk.Strategy.{start_request, no_slot}
use nctusde.Emudisk.Processing.{fetch_data}
use nctusde.Emudisk.Transfer.RoundTrip.{bytes_of}
use nctusde.System.{direct_call}
use nctusde.System.ReadBack.{IsStartable, read_after_write}
use nctusde.System.Sync.Started.{start_request-IsStarted}
use nctusde.System.Network.{Network, network_call}
use nctusde.System.Network.Calls.{start_over_network}

module _ (fates : ℕ → List Fate) (delivers : (k : ℕ) → Delivers (fates k)) (blank : Request)
    (counter : ℕ) where
  -- A request that is started over the network is started without it, too.
  started_directly :
      (e e' : Emudisk) (n n' : Network) (now : ℕ) (req : BlockRequest)
      → IsStartable e n.server now req
      → start_request blank (network_call fates) counter e n now req ≡ done (e', n')
      → start_request blank direct_call counter e n.server now req ≡ done (e', n'.server)
  started_directly e e' n n' now req h result =
      let (e1, s1, st) =
        start_request-IsStarted blank counter e n.server now req h.ready h.admissible h.late h.soon
          h.wraps h.room in
      let ((e2, n2), carried, same) =
        start_over_network fates delivers blank counter e n now req (e1, s1) h.ready.in_sync.fresh
          (omega (arith, h.wraps)) st.result in
      st.result
      ∙ ap done (
          sym same
          ∙ ap (λ (r : Emudisk × Network). (r.0, r.1.server))
              (done-injective (sym carried ∙ result)))

  -- Over a network that loses datagrams, but not all sendings of a request, too, a read of as many
  -- bytes from the same sector as a write that was started, while the storage is as the write left
  -- it, gets a slot from which nctuss_emudisk_transfer fills the read's segments with just the bytes
  -- of the write's. Table and server are in step at both times, with a slot to spare, and both
  -- requests are admissible, far from the largest times and ids.
  pub network_read_after_write :
      (e e1 e2 : Emudisk) (n n1 n2 : Network) (now later : ℕ) (w r : BlockRequest)
      → IsStartable e n.server now w
      → start_request blank (network_call fates) counter e n now w ≡ done (e1, n1)
      → IsStartable e2 n2.server later r
      → n2.server.storage ≡ n1.server.storage
      → w.is_write ≡ true
      → r.is_write ≡ false
      → r.pos ≡ w.pos
      → request_bytes r ≡ request_bytes w
      → (e3 : Emudisk) × (n3 : Network) × (i : ℕ) × (filled : BlockRequest) × (start_request blank
            (network_call fates)
            counter
            e2
            n2
            later
            r
          ≡ done (e3, n3))
        × (i < length e3.slots)
        × ((get_or e3.slots i no_slot).request_id ≡ e2.udp_send_reply_id)
        × (fetch_data (get_or e3.slots i no_slot) ≡ done filled)
        × (bytes_of filled.segments ≡ bytes_of w.segments)
  network_read_after_write e e1 e2 n n1 n2 now later w r h result h' same writes reads place size =
      let (e3, s3, i, filled, direct, inside, id, fetched, bytes) =
        read_after_write blank counter e e1 e2 n.server n1.server n2.server now later w r h
          (started_directly e e1 n n1 now w h result) h' same writes reads place size in
      let ((e4, n3), carried, equal) =
        start_over_network fates delivers blank counter e2 n2 later r (e3, s3)
          h'.ready.in_sync.fresh (omega (arith, h'.wraps)) direct in
      let disk : e4 ≡ e3 = ap (λ (x : Emudisk × Server). x.0) equal in
      (e3, n3, i, filled, carried ∙ ap (λ x. done (x, n3)) disk, inside, id, fetched, bytes)
