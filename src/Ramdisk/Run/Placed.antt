-- ===== src/Ramdisk/Run/Placed.antt =====
-- How the RAM disk puts a request on a channel: there is one that is free.
use nctusde.Base.{
  ℕ, ◌+◌, ◌*◌, ◌%◌, ◌^◌, ◌≤◌, ◌<◌, ◌≡◌, refl, ap, ◌∙◌, inl, inr, Bool, true, false, arith, length,
  get_or, set, ltb, not, ◌||◌, if◌then◌else◌, Bool-cases, done,
}
use nctusde.Timing.{sector_size}
use nctusde.Timing.Bucket.{request_size_index-IsFirstFit}
use nctusde.Emudisk.{BlockRequest, request_bytes, succ32}
use nctusde.Ramdisk.{
  Ramdisk, no_channel, occupied, completion_time, start_request, add_int, place_request,
  expect_response, earliest_pending, ramdisk_transfer, byte_offset, store_segments,
}
use nctusde.Ramdisk.Progress.{pending_count, LiesWithin}
use nctusde.Ramdisk.Run.{IsArriving}
use nctusde.Ramdisk.Run.Free.{free_channel, ram_time_bound}

-- The request is on a channel that was free; the others are as before.
pub record IsPlaced (d : Ramdisk) (now : ℕ) (req : BlockRequest) (d' : Ramdisk) (wake : Bool)
    : Type 0 where
  pub k : ℕ
  pub time : ℕ
  pub result : start_request d now req ≡ done (d', wake)
  pub in_range : k < length d.channels
  pub was_free : (get_or d.channels k no_channel).completed ≡ true
  pub channels : d'.channels ≡ set d.channels k (occupied req time)
  pub in_time : time < 2 ^ 63
  pub inflight : d'.request_inflight ≡ succ32 d.request_inflight
  pub same :
      (d'.size ≡ d.size)
      × (d'.disk_channels ≡ d.disk_channels)
      × (d'.queue_stopped ≡ d.queue_stopped)
      × (d'.finished ≡ d.finished)

-- What is left when a write has moved its data.
abbrev moved : Ramdisk → BlockRequest → Ramdisk
moved d req =
    if req.is_write
    then record d { memory = store_segments d.memory (byte_offset req) req.segments }
    else d

place_request-done :
    (d : Ramdisk) (req : BlockRequest) (time pos : ℕ)
    → LiesWithin d.size req
    → let r =
        expect_response
          (record (moved d req) { channels = set d.channels pos (occupied req time) })
          time in
      place_request d req time pos
      ≡ done (record (r.0) { request_inflight = succ32 (r.0).request_inflight }, r.1)
unfolding place_request ramdisk_transfer
place_request-done d req time pos inside =
    let here : byte_offset req ≡ req.pos * sector_size = omega (arith, inside) in
    let fits : ltb (d.size * sector_size) ((byte_offset req + request_bytes req) % 2 ^ 32) ≡ false =
      ground (arith, inside, here) in
    let mapped : ltb (d.size * sector_size) (byte_offset req + request_bytes req) ≡ false =
      ground (arith, inside, here) in
    elim (Bool-cases req.is_write) [ inl e ↦ rw (e, fits, mapped) refl | inr e ↦ rw e refl ]

expected :
    (d : Ramdisk) (time : ℕ)
    → let d' = (expect_response d time).0 in
      (d'.channels ≡ d.channels)
      × (d'.request_inflight ≡ d.request_inflight)
      × (d'.size ≡ d.size)
      × (d'.disk_channels ≡ d.disk_channels)
      × (d'.queue_stopped ≡ d.queue_stopped)
      × (d'.finished ≡ d.finished)
unfolding expect_response
expected d time =
    elim (Bool-cases (
      not d.next_response_to_reply
      || ltb (earliest_pending d.channels time) d.next_response_time)) [
        | inl e ↦ rw e (refl, refl, refl, refl, refl, refl)
        | inr e ↦ rw e (refl, refl, refl, refl, refl, refl)
      ]

moved-same :
    (d : Ramdisk) (req : BlockRequest)
    → ((moved d req).request_inflight ≡ d.request_inflight)
      × ((moved d req).size ≡ d.size)
      × ((moved d req).disk_channels ≡ d.disk_channels)
      × ((moved d req).queue_stopped ≡ d.queue_stopped)
      × ((moved d req).finished ≡ d.finished)
moved-same d req = elim (Bool-cases req.is_write) [
  | inl e ↦ rw e (refl, refl, refl, refl, refl)
  | inr e ↦ rw e (refl, refl, refl, refl, refl)
]

add_int-bound :
    (now entry : ℕ)
    → 2 ^ 31 ≤ now
    → now + 2 ^ 32 < 2 ^ 63
    → entry < 2 ^ 32
    → add_int now entry < 2 ^ 63
unfolding add_int
add_int-bound now entry started soon word = ground arith

-- If not all channels are busy, a request that may come in is put on one.
pub start_request-IsPlaced :
    (d : Ramdisk) (now : ℕ) (req : BlockRequest)
    → IsArriving d.size now req
    → pending_count d.channels < length d.channels
    → (d' : Ramdisk) × (wake : Bool) × IsPlaced d now req d' wake
unfolding start_request completion_time
start_request-IsPlaced d now req a room =
    let (index, bucket, _) = request_size_index-IsFirstFit (request_bytes req) a.small in
    let (t, k, found, lt, free) = free_channel d.channels room in
    let time = completion_time d now req index in
    let one = record (moved d req) { channels = set d.channels k (occupied req time) } in
    let x = expected one time in
    let m = moved-same d req in
    let placed = place_request-done d req time k a.inside in
    let r = expect_response one time in
    (
      record (r.0) { request_inflight = succ32 (r.0).request_inflight },
      r.1,
      record {
        k = k;
        time = time;
        result = rw (bucket, found, start_request) placed;
        in_range = lt;
        was_free = free;
        channels = x.0;
        in_time = add_int-bound now _ a.started a.soon (ram_time_bound _ _ index d.speed_factor);
        inflight = ap succ32 (x.1 ∙ m.0);
        same = (x.2 ∙ m.1, x.3 ∙ m.2, x.4 ∙ m.3, x.5 ∙ m.4);
      },
    )
