-- ===== src/Emudisk/Transfer.antt =====
-- nctuss_emudisk_transfer of emulator_kernel/nctuss_emudisk_main.c (COMBINE_REQ_DATA): the copies
-- between the segments of a request and the buffer of its slot.
pub mod RoundTrip
pub mod Skbs
use nctusde.Base.{
  ℕ, zero, suc, ◌+◌, ◌*◌, List, [], ◌∷◌, length, take, drop, ltb, if◌then◌else◌, Outcome, done,
  hang,
}
use nctusde.Timing.{sector_size}
use nctusde.Emudisk.{BlockRequest, request_bytes, max_request_sector_num}

-- Bytes laid over the front of a buffer. What would lie beyond the buffer is left out; the length
-- check of the caller rules that out.
unfoldable pub overlay : List ℕ → List ℕ → List ℕ
overlay [] buffer = buffer
overlay (b ∷ bytes) [] = []
overlay (b ∷ bytes) (_ ∷ buffer) = b ∷ overlay bytes buffer

-- memcpy(buffer + offset, bytes, size)
unfoldable pub copy_to : List ℕ → ℕ → List ℕ → List ℕ
copy_to buffer zero bytes = overlay bytes buffer
copy_to [] (suc offset) bytes = []
copy_to (b ∷ buffer) (suc offset) bytes = b ∷ copy_to buffer offset bytes

-- memcpy(bytes, buffer + offset, size)
abbrev pub copy_from : List ℕ → ℕ → ℕ → List ℕ
copy_from buffer offset size = take size (drop offset buffer)

-- `rq_for_each_segment` for a write, from `offset` on: the buffer that is left.
unfoldable pub gather : List (List ℕ) → ℕ → List ℕ → List ℕ
gather [] offset buffer = buffer
gather (seg ∷ segs) offset buffer = gather segs (offset + length seg) (copy_to buffer offset seg)

-- The same for a read: the segments that are left.
unfoldable pub scatter : List (List ℕ) → ℕ → List ℕ → List (List ℕ)
scatter [] offset buffer = []
scatter (seg ∷ segs) offset buffer =
    copy_from buffer offset (length seg) ∷ scatter segs (offset + length seg) buffer

unfoldable pub emudisk_transfer : BlockRequest → List ℕ → Outcome (BlockRequest × List ℕ)
unfolding gather scatter copy_to
emudisk_transfer req buffer =
    if ltb (max_request_sector_num * sector_size) (request_bytes req)
    then hang
    else if req.is_write
    then done (req, gather req.segments 0 buffer)
    else done (record req { segments = scatter req.segments 0 buffer }, buffer)
