-- ===== src/System/ReadBack.antt =====
-- What a request writes, a later request of the same place reads.
use nctusde.Base.{
  ℕ, zero, suc, ◌+◌, ◌-◌, ◌*◌, ◌≤◌, ◌<◌, ◌≡◌, refl, sym, ap, subst, done-injective, ◌^◌, ◌∙◌, true,
  false, List, [], ◌∷◌, arith, length, take, drop, get_or, get_or-set_self, length-set, All-get_or,
  done,
}
use nctusde.Timing.{sector_size}
use nctusde.Wire.{Request}
use nctusde.Server.{Server, Storage, read_bytes}
use nctusde.Emudisk.{Emudisk, BlockRequest, Slot, request_bytes, max_request_sector_num}
use nctusde.Emudisk.Transfer.{overlay, copy_to, scatter, emudisk_transfer}
use nctusde.Emudisk.Transfer.RoundTrip.{
  bytes_of, length-bytes_of, bytes_of-scatter, gather-eq-copy_to, length-copy_to, read_back,
}
use nctusde.Emudisk.Slots.Table.{occupied_ids}
use nctusde.Emudisk.Strategy.{no_slot, sector_count, start_request}
use nctusde.Emudisk.Processing.{fetch_data}
use nctusde.Emudisk.Processing.Completion.{Fits}
use nctusde.Ssd.{long_max}
use nctusde.System.{direct_call}
use nctusde.System.Data.Sectors.{stored}
use nctusde.System.Sync.Ready.{IsReady}
use nctusde.System.Sync.Start.{IsCopied, IsAdmissible}
use nctusde.System.Sync.Started.{HasSlot, IsStarted, start_request-IsStarted}

take-drop-suc :
    (n i : ℕ) (xs : List ℕ)
    → i < length xs
    → take (suc n) (drop i xs) ≡ get_or xs i 0 ∷ take n (drop (suc i) xs)
take-drop-suc n i [] h = absurd (omega arith)
take-drop-suc n zero (x ∷ xs) h = refl
take-drop-suc n (suc i) (x ∷ xs) h = take-drop-suc n i xs (omega arith)

take-take : (m n : ℕ) (xs : List ℕ) → m ≤ n → take m (take n xs) ≡ take m xs
take-take zero n xs h = refl
take-take (suc m) zero xs h = absurd (omega arith)
take-take (suc m) (suc n) [] h = refl
take-take (suc m) (suc n) (x ∷ xs) h = ap (◌∷◌ x) (take-take m n xs (omega arith))

take-overlay_le :
    (m : ℕ) (bytes buffer : List ℕ)
    → m ≤ length bytes
    → length bytes ≤ length buffer
    → take m (overlay bytes buffer) ≡ take m bytes
unfolding overlay
take-overlay_le zero bytes buffer h k = refl
take-overlay_le (suc m) [] buffer h k = absurd (omega arith)
take-overlay_le (suc m) (b ∷ bytes) [] h k = absurd (omega arith)
take-overlay_le (suc m) (b ∷ bytes) (c ∷ buffer) h k =
    ap (◌∷◌ b) (take-overlay_le m bytes buffer (omega arith) (omega arith))

length-read_bytes : (storage : Storage) (a n : ℕ) → length (read_bytes storage a n) ≡ n
unfolding read_bytes
length-read_bytes storage a zero = refl
length-read_bytes storage a (suc n) = ap suc (length-read_bytes storage (a + 1) n)

stored_byte :
    (from : Storage) (base size : ℕ) (bytes : List ℕ) (i : ℕ)
    → i < size
    → stored from base 0 size bytes (base + i) ≡ get_or bytes i 0
stored_byte from base size bytes i inside =
    let at : base + i - base ≡ i = omega arith in ground (arith, ap (λ k. get_or bytes k 0) at)

-- A copy into the storage, read from its byte `i` on.
read_bytes-stored :
    (to from : Storage) (base size : ℕ) (bytes : List ℕ) (n i : ℕ)
    → ((a : ℕ) → to a ≡ stored from base 0 size bytes a)
    → i + n ≤ size
    → i + n ≤ length bytes
    → read_bytes to (base + i) n ≡ take n (drop i bytes)
unfolding read_bytes
read_bytes-stored to from base size bytes zero i same inside long = refl
read_bytes-stored to from base size bytes (suc n) i same inside long =
    let byte : to (base + i) ≡ get_or bytes i 0 =
      same (base + i) ∙ stored_byte from base size bytes i (omega arith) in
    let next : base + i + 1 ≡ base + suc i = omega arith in
    ap (λ b. b ∷ read_bytes to (base + i + 1) n) byte
    ∙ ap (λ a. get_or bytes i 0 ∷ read_bytes to a n) next
    ∙ ap (◌∷◌ (get_or bytes i 0))
        (read_bytes-stored to from base size bytes n (suc i) same (omega arith) (omega arith))
    ∙ sym (take-drop-suc n i bytes (omega arith))

-- What is read of a written buffer.
read_copy :
    (to from : Storage) (base size m : ℕ) (bytes before buffer : List ℕ)
    → ((a : ℕ) → to a ≡ stored from base 0 size (copy_to before 0 bytes) a)
    → length bytes ≡ m
    → m ≤ size
    → size ≤ length before
    → size ≤ length buffer
    → take m (copy_to buffer 0 (read_bytes to base size)) ≡ bytes
unfolding copy_to
read_copy to from base size m bytes before buffer same whole short room room' =
    let long : length (overlay bytes before) ≡ length before = length-copy_to before 0 bytes in
    take-overlay_le m (read_bytes to base size) buffer
      (omega (arith, length-read_bytes to base size, short))
      (omega (arith, length-read_bytes to base size, room'))
    ∙ ap (λ a. take m (read_bytes to a size)) (omega arith)
    ∙ ap (take m) (
        read_bytes-stored to from base size (overlay bytes before) size 0 same (omega arith)
          (omega (arith, long, room)))
    ∙ take-take m size (overlay bytes before) short
    ∙ ap (λ k. take k (overlay bytes before)) (sym whole)
    ∙ read_back bytes before (omega (arith, whole, short, room))

module _ (w r : BlockRequest) where
  -- The same, as the slots' buffers hold it.
  copied_back :
      (s0 s1 s2 s3 : Storage) (before after buffer filled : List ℕ)
      → IsCopied w s0 s1 before after
      → IsCopied r s2 s3 buffer filled
      → s2 ≡ s1
      → w.is_write ≡ true
      → r.is_write ≡ false
      → r.pos ≡ w.pos
      → request_bytes r ≡ request_bytes w
      → sector_count w * sector_size ≤ length before
      → sector_count w * sector_size ≤ length buffer
      → bytes_of (scatter r.segments 0 filled) ≡ bytes_of w.segments
  copied_back s0 s1 s2 s3 before after buffer filled (IsCopied.fetched reads _ _) _ _ iw _ _ _ _ _ =
      cc
  copied_back s0 s1 s2 s3 before after buffer filled (IsCopied.written _ _ _)
        (IsCopied.written writes _ _) _ _ ir _ _ _ _ =
      cc
  copied_back s0 s1 s2 s3 before after buffer filled (IsCopied.written _ into to)
        (IsCopied.fetched _ _ out) same iw ir place size room room' =
      let whole : (a : ℕ)
          → s2 a
            ≡ stored s0 (w.pos * sector_size) 0 (sector_count w * sector_size)
                (copy_to before 0 (bytes_of w.segments)) a =
        rw (same, ← gather-eq-copy_to w.segments 0 before, ← into) to in
      bytes_of-scatter r.segments 0 filled
      ∙ rw (out, size, place)
          (read_copy s2 s0 (w.pos * sector_size) (sector_count w * sector_size) (request_bytes w)
            (bytes_of w.segments) before buffer whole (length-bytes_of w.segments) (omega arith)
            room room')

fetch_data-read :
    (slot : Slot)
    → slot.req.is_write ≡ false
    → request_bytes slot.req ≤ max_request_sector_num * sector_size
    → fetch_data slot
      ≡ done (record (slot.req) { segments = scatter slot.req.segments 0 slot.buffer })
unfolding emudisk_transfer
fetch_data-read slot reads small = ground arith

-- What lets a request be started.
pub record IsStartable (e : Emudisk) (s : Server) (now : ℕ) (req : BlockRequest) : Type 0 where
  pub ready : IsReady e s
  pub admissible : IsAdmissible req
  pub late : e.latest_response_time < now
  pub soon : now + 270270 * s.ssd.speed_factor < long_max
  pub wraps : e.udp_send_reply_id + (1 + sector_count req) < 2 ^ 32
  pub room : length (occupied_ids e.slots) < length e.slots

module _ (blank : Request) (counter : ℕ) where
  startable :
      (e : Emudisk) (s : Server) (now : ℕ) (req : BlockRequest)
      → IsStartable e s now req
      → (e' : Emudisk) × (s' : Server) × IsStarted blank counter e s now req e' s'
  startable e s now req h =
      start_request-IsStarted blank counter e s now req h.ready h.admissible h.late h.soon h.wraps
        h.room

  -- Where the data of a request that was started lies.
  started-copied :
      (e e' : Emudisk) (s s' : Server) (now : ℕ) (req : BlockRequest)
      → IsStartable e s now req
      → start_request blank direct_call counter e s now req ≡ done (e', s')
      → HasSlot e s req e' s'
  started-copied e e' s s' now req h result =
      let (_, _, st) = startable e s now req h in
      subst (λ (r : Emudisk × Server). HasSlot e s req r.0 r.1)
        (done-injective (sym st.result ∙ result)) st.slot

  -- Once a write is started, a read of as many bytes from the same sector can be started while the
  -- storage is as the write left it, and gets a slot from which nctuss_emudisk_transfer fills the
  -- read's segments, of whatever sizes, with just the bytes of the write's. Table and server are in
  -- step at both times, with a slot to spare, and both requests are admissible, far from the
  -- largest times and ids.
  pub read_after_write :
      (e e1 e2 : Emudisk) (s s1 s2 : Server) (now later : ℕ) (w r : BlockRequest)
      → IsStartable e s now w
      → start_request blank direct_call counter e s now w ≡ done (e1, s1)
      → IsStartable e2 s2 later r
      → s2.storage ≡ s1.storage
      → w.is_write ≡ true
      → r.is_write ≡ false
      → r.pos ≡ w.pos
      → request_bytes r ≡ request_bytes w
      → (e3 : Emudisk) × (s3 : Server) × (i : ℕ) × (filled : BlockRequest) × (start_request blank
            direct_call counter e2 s2 later r
          ≡ done (e3, s3))
        × (i < length e3.slots)
        × ((get_or e3.slots i no_slot).request_id ≡ e2.udp_send_reply_id)
        × (fetch_data (get_or e3.slots i no_slot) ≡ done filled)
        × (bytes_of filled.segments ≡ bytes_of w.segments)
  read_after_write e e1 e2 s s1 s2 now later w r h result h' same writes reads place size =
      let put = started-copied e e1 s s1 now w h result in
      let (e3, s3, st) = startable e2 s2 later r h' in
      let got = st.slot in
      let was = All-get_or Fits e.slots put.i no_slot h.ready.fits put.in_range in
      let was' = All-get_or Fits e2.slots got.i no_slot h'.ready.fits got.in_range in
      let slot : Slot = record {
        request_id = e2.udp_send_reply_id;
        req = r;
        req_sectors = sector_count r;
        buffer = got.after;
      } in
      let found : get_or e3.slots got.i no_slot ≡ slot =
        rw got.slots (get_or-set_self e2.slots got.i slot no_slot got.in_range) in
      (
        e3,
        s3,
        got.i,
        record r { segments = scatter r.segments 0 got.after },
        st.result,
        omega (arith, ap length got.slots, length-set e2.slots got.i slot, got.in_range),
        ap (λ (x : Slot). x.request_id) found,
        ap fetch_data found ∙ fetch_data-read slot reads h'.admissible.small,
        copied_back w r s.storage s1.storage s2.storage s3.storage _ put.after _ got.after
            put.copied got.copied same writes reads place size
            (omega (arith, h.admissible.small, was.1)) (omega (arith, h.admissible.small, was'.1)),
      )
