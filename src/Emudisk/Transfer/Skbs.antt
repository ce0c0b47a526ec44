-- ===== src/Emudisk/Transfer/Skbs.antt =====
-- nctuss_emudisk_transfer of emulator_kernel/nctuss_emudisk_main.c as it is compiled without
-- COMBINE_REQ_DATA: the bytes of a request go to, or come from, one skb for each sector.
pub mod Flat
pub mod Same
pub mod Read
pub mod Matches
use nctusde.Base.{
  ℕ, zero, suc, ◌+◌, ◌-◌, ◌*◌, List, [], ◌∷◌, ◌++◌, length, take, drop, get_or, set, ltb, leb, ◌==◌,
  if◌then◌else◌, Outcome, done, hang, fault, ◌>>=◌,
}
use nctusde.Timing.{sector_size}
use nctusde.Wire.{request_size}
use nctusde.Emudisk.{BlockRequest, request_bytes, max_request_sector_num}
use nctusde.Emudisk.Transfer.{copy_to, copy_from}

-- The length of an skb, and the bytes of its data behind the header of a request or of a reply.
pub record Skb : Type 0 where
  pub len : ℕ
  pub sector : List ℕ

abbrev pub no_skb : Skb
no_skb = record { len = 0; sector = [] }

-- The skbs, `current_skb`, `bytes_remaining_in_skb_data`, and `skb_data_offset` from the end of the
-- header on. The variable `skb` is the one before `current_skb`.
pub record Cursor : Type 0 where
  pub skbs : List Skb
  pub current_skb : ℕ
  pub remaining : ℕ
  pub offset : ℕ

abbrev pub start : List Skb → Cursor
start skbs = record { skbs = skbs; current_skb = 0; remaining = 0; offset = 0 }

-- `n` more bytes of the current skb are used.
abbrev pub advance : Cursor → ℕ → Cursor
advance c n = record c { remaining = c.remaining - n; offset = c.offset + n }

-- The next skb, once the current one is used up; `added` is what a write adds to its length. An
-- index beyond the array is a fault.
unfoldable pub next_skb : Cursor → ℕ → Outcome Cursor
next_skb c added =
    if c.remaining == 0
    then if ltb c.current_skb (length c.skbs)
      then (let skb = get_or c.skbs c.current_skb no_skb in
          done (record {
            skbs = set c.skbs c.current_skb (record skb { len = skb.len + added });
            current_skb = c.current_skb + 1;
            remaining = sector_size;
            offset = 0;
          }))
      else fault
    else done c

-- memcpy to the current skb.
unfoldable pub put_bytes : Cursor → List ℕ → Cursor
put_bytes c bytes =
    let i = c.current_skb - 1 in
    let skb = get_or c.skbs i no_skb in
    advance
      (record c { skbs = set c.skbs i (record skb { sector = copy_to skb.sector c.offset bytes }) })
      (length bytes)

-- `while(size>0)` for a write, on fuel: `bytes` is what is left of the segment.
unfoldable pub write_segment : ℕ → Cursor → List ℕ → Outcome Cursor
unfolding next_skb put_bytes
write_segment fuel c [] = done c
write_segment zero c (b ∷ bytes) = hang
write_segment (suc fuel) c (b ∷ bytes) = next_skb c (request_size + sector_size) >>= λ c'.
    if leb (length (b ∷ bytes)) c'.remaining
    then done (put_bytes c' (b ∷ bytes))
    else write_segment fuel (put_bytes c' (take c'.remaining (b ∷ bytes)))
        (drop c'.remaining (b ∷ bytes))

-- `rq_for_each_segment` for a write.
unfoldable pub write_segments : Cursor → List (List ℕ) → Outcome Cursor
unfolding write_segment
write_segments c [] = done c
write_segments c (seg ∷ segs) = write_segment (length seg) c seg >>= λ c'. write_segments c' segs

unfoldable pub write_skbs : BlockRequest → ℕ → List Skb → Outcome (List Skb)
unfolding write_segments
write_skbs req req_sectors skbs =
    if ltb (max_request_sector_num * sector_size) (request_bytes req)
    then hang
    else if ltb max_request_sector_num req_sectors
    then hang
    else (write_segments (start skbs) req.segments >>= λ c. done c.skbs)

-- memcpy from the current skb.
unfoldable pub get_bytes : Cursor → ℕ → List ℕ
get_bytes c n = copy_from (get_or c.skbs (c.current_skb - 1) no_skb).sector c.offset n

-- `while(size>0)` for a read, on fuel: `size` bytes of the segment are still to be filled.
unfoldable pub read_segment : ℕ → Cursor → ℕ → Outcome (Cursor × List ℕ)
unfolding next_skb get_bytes
read_segment fuel c zero = done (c, [])
read_segment zero c (suc size) = hang
read_segment (suc fuel) c (suc size) = next_skb c 0 >>= λ c'.
    if leb (suc size) c'.remaining
    then done (advance c' (suc size), get_bytes c' (suc size))
    else (read_segment fuel (advance c' c'.remaining) (suc size - c'.remaining) >>= λ (c1, bytes).
        done (c1, get_bytes c' c'.remaining ++ bytes))

-- `rq_for_each_segment` for a read.
unfoldable pub read_segments : Cursor → List (List ℕ) → Outcome (List (List ℕ))
unfolding read_segment
read_segments c [] = done []
read_segments c (seg ∷ segs) = read_segment (length seg) c (length seg) >>= λ (c', bytes).
    read_segments c' segs >>= λ rest. done (bytes ∷ rest)

unfoldable pub read_skbs : BlockRequest → ℕ → List Skb → Outcome BlockRequest
unfolding read_segments
read_skbs req req_sectors skbs =
    if ltb (max_request_sector_num * sector_size) (request_bytes req)
    then hang
    else if ltb max_request_sector_num req_sectors
    then hang
    else (read_segments (start skbs) req.segments >>= λ segs. done (record req { segments = segs }))

-- The whole function, which takes the direction from the request.
unfoldable pub transfer_skbs : BlockRequest → ℕ → List Skb → Outcome (BlockRequest × List Skb)
unfolding write_skbs read_skbs
transfer_skbs req req_sectors skbs =
    if req.is_write
    then (write_skbs req req_sectors skbs >>= λ skbs'. done (req, skbs'))
    else (read_skbs req req_sectors skbs >>= λ req'. done (req', skbs))
