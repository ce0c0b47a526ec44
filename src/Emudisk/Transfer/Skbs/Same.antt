-- ===== src/Emudisk/Transfer/Skbs/Same.antt =====
-- The two versions of nctuss_emudisk_transfer for a write.
use nctusde.Base.{
  ℕ, zero, suc, ◌+◌, ◌-◌, ◌*◌, ◌≤◌, ◌<◌, ◌≡◌, refl, ap, subst, ◌∙◌, ◌⊎◌, inl, inr, true, false,
  List, [], ◌∷◌, ◌++◌, arith, length, take, drop, get_or, set, All, All-set, All-get_or, length-set,
  leb, ◌==◌, Outcome, done, Bool-cases,
}
use nctusde.Timing.{sector_size}
use nctusde.Wire.{request_size}
use nctusde.Emudisk.{BlockRequest, request_bytes, segments_size, max_request_sector_num}
use nctusde.Emudisk.Transfer.{copy_to, gather, emudisk_transfer}
use nctusde.Emudisk.Transfer.RoundTrip.{copy_to-append, copy_to-nil, length-copy_to}
use nctusde.Emudisk.Transfer.Skbs.{
  Skb, Cursor, no_skb, next_skb, put_bytes, write_segment, write_segments, write_skbs, start,
}
use nctusde.Emudisk.Transfer.Skbs.Flat.{IsSector, flat, flat-set, flat-same}

-- The cursor stands at byte `pos` of the `n` skbs, which hold `buffer` together.
pub record IsAt (c : Cursor) (n : ℕ) (buffer : List ℕ) (pos : ℕ) : Type 0 where
  pub sectors : All IsSector c.skbs
  pub holds : flat c.skbs ≡ buffer
  pub size : length c.skbs ≡ n
  pub at : pos + c.remaining ≡ c.current_skb * sector_size
  pub place : (c.remaining ≡ 0) ⊎ ((c.offset + c.remaining ≡ sector_size) × (0 < c.current_skb))
  pub in_range : c.current_skb ≤ n

next_skb-done :
    (c : Cursor) (added : ℕ)
    → c.remaining ≡ 0
    → c.current_skb < length c.skbs
    → next_skb c added
      ≡ done (record {
        skbs = set c.skbs c.current_skb (record (get_or c.skbs c.current_skb no_skb) {
          len = (get_or c.skbs c.current_skb no_skb).len + added;
        });
        current_skb = c.current_skb + 1;
        remaining = sector_size;
        offset = 0;
      })
unfolding next_skb
next_skb-done c added used inside = ground arith

next_skb-same : (c : Cursor) (added : ℕ) → (c.remaining == 0) ≡ false → next_skb c added ≡ done c
unfolding next_skb
next_skb-same c added more = simp more

pub next_skb-IsAt :
    (c : Cursor) (added n : ℕ) (buffer : List ℕ) (pos : ℕ)
    → IsAt c n buffer pos
    → pos < n * sector_size
    → (c' : Cursor) × (next_skb c added ≡ done c') × IsAt c' n buffer pos × (0 < c'.remaining)
next_skb-IsAt c added n buffer pos a inside = elim (Bool-cases (c.remaining == 0)) [
  | inl used ↦
      let skb : Skb = get_or c.skbs c.current_skb no_skb in
      let skb' : Skb = record skb { len = skb.len + added } in
      let none : c.remaining ≡ 0 = ground arith in
      let there : c.current_skb < n = omega (arith, a.at, none, inside) in
      (
        _,
        next_skb-done c added none (omega (arith, there, a.size)),
        record {
          sectors = All-set IsSector c.skbs c.current_skb skb' a.sectors (
              All-get_or IsSector c.skbs c.current_skb no_skb a.sectors
                (omega (arith, there, a.size)));
          holds = flat-same c.skbs c.current_skb skb' refl ∙ a.holds;
          size = length-set c.skbs c.current_skb skb' ∙ a.size;
          at = omega (arith, a.at, none);
          place = inr (omega arith, omega arith);
          in_range = omega (arith, there);
        },
        omega arith,
      )
  | inr more ↦ (c, next_skb-same c added more, a, ground arith)
]

put_bytes-IsAt :
    (c : Cursor) (n : ℕ) (buffer : List ℕ) (pos : ℕ) (bytes : List ℕ)
    → IsAt c n buffer pos
    → 0 < c.remaining
    → length bytes ≤ c.remaining
    → IsAt (put_bytes c bytes) n (copy_to buffer pos bytes) (pos + length bytes)
unfolding put_bytes
put_bytes-IsAt c n buffer pos bytes a more fits =
    let i = c.current_skb - 1 in
    let skb : Skb = get_or c.skbs i no_skb in
    let skb' : Skb = record skb { sector = copy_to skb.sector c.offset bytes } in
    let here : (c.offset + c.remaining ≡ sector_size) × (0 < c.current_skb) = elim a.place [
      | inl none ↦ absurd (omega arith)
      | inr here ↦ here
    ] in
    let inside : i < length c.skbs = omega (arith, a.in_range, a.size, here.1) in
    let same : i * sector_size + c.offset ≡ pos = omega (arith, a.at, here.0, here.1) in
    record {
      sectors = All-set IsSector c.skbs i skb' a.sectors (
          length-copy_to skb.sector c.offset bytes
          ∙ All-get_or IsSector c.skbs i no_skb a.sectors inside);
      holds =
          flat-set c.skbs i c.offset skb' bytes a.sectors inside (omega (arith, here.0, fits)) refl
          ∙ ap (λ p. copy_to (flat c.skbs) p bytes) same
          ∙ ap (λ b. copy_to b pos bytes) a.holds;
      size = length-set c.skbs i skb' ∙ a.size;
      at = omega (arith, a.at, fits);
      place = inr (omega (arith, here.0, fits), here.1);
      in_range = a.in_range;
    }

take-append-drop : (n : ℕ) (xs : List ℕ) → take n xs ++ drop n xs ≡ xs
take-append-drop zero xs = refl
take-append-drop (suc n) [] = refl
take-append-drop (suc n) (x ∷ xs) = ap (◌∷◌ x) (take-append-drop n xs)

length-split :
    (n : ℕ) (xs : List ℕ)
    → n < length xs
    → (length (take n xs) ≡ n) × (length (drop n xs) + n ≡ length xs)
length-split zero xs h = (refl, omega arith)
length-split (suc n) [] h = absurd (omega arith)
length-split (suc n) (x ∷ xs) h =
    let (t, d) = length-split n xs (omega arith) in (ap suc t, omega (arith, d))

-- What a copy of `bytes` at `pos` comes to.
pub record IsWritten (n : ℕ) (buffer : List ℕ) (pos : ℕ) (bytes : List ℕ) (m : Outcome Cursor)
    : Type 0 where
  pub cursor : Cursor
  pub result : m ≡ done cursor
  pub at : IsAt cursor n (copy_to buffer pos bytes) (pos + length bytes)

last_bytes :
    (fuel : ℕ) (c c' : Cursor) (b : ℕ) (bytes : List ℕ)
    → next_skb c (request_size + sector_size) ≡ done c'
    → leb (length (b ∷ bytes)) c'.remaining ≡ true
    → write_segment (suc fuel) c (b ∷ bytes) ≡ done (put_bytes c' (b ∷ bytes))
unfolding write_segment
last_bytes fuel c c' b bytes next fits = rw (next, fits) refl

more_bytes :
    (fuel : ℕ) (c c' : Cursor) (b : ℕ) (bytes : List ℕ)
    → next_skb c (request_size + sector_size) ≡ done c'
    → leb (length (b ∷ bytes)) c'.remaining ≡ false
    → write_segment (suc fuel) c (b ∷ bytes)
      ≡ write_segment fuel
          (put_bytes c' (take c'.remaining (b ∷ bytes)))
          (drop c'.remaining (b ∷ bytes))
unfolding write_segment
more_bytes fuel c c' b bytes next more = rw (next, more) refl

write_segment-IsWritten :
    (fuel : ℕ) (c : Cursor) (n : ℕ) (buffer : List ℕ) (pos : ℕ) (bytes : List ℕ)
    → IsAt c n buffer pos
    → length bytes ≤ fuel
    → pos + length bytes ≤ n * sector_size
    → IsWritten n buffer pos bytes (write_segment fuel c bytes)
unfolding write_segment
write_segment-IsWritten fuel c n buffer pos [] a enough inside = record {
  cursor = c;
  result = refl;
  at = rw copy_to-nil (subst (IsAt c n buffer) (omega arith) a);
}
write_segment-IsWritten zero c n buffer pos (b ∷ bytes) a enough inside = absurd (omega arith)
write_segment-IsWritten (suc fuel) c n buffer pos (b ∷ bytes) a enough inside =
    let (c', next, a', more) =
      next_skb-IsAt c (request_size + sector_size) n buffer pos a (omega arith) in
    let all = b ∷ bytes in
    elim (Bool-cases (leb (length all) c'.remaining)) [
      | inl fits ↦ record {
        cursor = put_bytes c' all;
        result = last_bytes fuel c c' b bytes next fits;
        at = put_bytes-IsAt c' n buffer pos all a' more (ground arith);
      }
      | inr rest ↦
          let front = take c'.remaining all in
          let behind = drop c'.remaining all in
          let (front_n, behind_n) = length-split c'.remaining all (ground arith) in
          let step = put_bytes-IsAt c' n buffer pos front a' more (omega (arith, front_n)) in
          let w =
            write_segment-IsWritten fuel (put_bytes c' front) n (copy_to buffer pos front)
              (pos + length front) behind step (omega (arith, behind_n, more, enough))
              (omega (arith, front_n, behind_n, inside)) in
          record {
            cursor = w.cursor;
            result = more_bytes fuel c c' b bytes next rest ∙ w.result;
            at =
                subst (λ x. IsAt w.cursor n x (pos + length all))
                  (copy_to-append buffer pos front behind
                    ∙ ap (copy_to buffer pos) (take-append-drop c'.remaining all))
                  (subst
                    (IsAt w.cursor n
                      (copy_to (copy_to buffer pos front) (pos + length front) behind))
                    (omega (arith, front_n, behind_n)) w.at);
          }
    ]

write_segments-IsAt :
    (c : Cursor) (n : ℕ) (buffer : List ℕ) (pos : ℕ) (segs : List (List ℕ))
    → IsAt c n buffer pos
    → pos + segments_size segs ≤ n * sector_size
    → (c' : Cursor) × (write_segments c segs ≡ done c')
      × IsAt c' n (gather segs pos buffer) (pos + segments_size segs)
unfolding write_segments gather segments_size
write_segments-IsAt c n buffer pos [] a inside = (c, refl, subst (IsAt c n buffer) (omega arith) a)
write_segments-IsAt c n buffer pos (seg ∷ segs) a inside =
    let w = write_segment-IsWritten (length seg) c n buffer pos seg a (omega arith) (omega arith) in
    let (c', result, a') =
      write_segments-IsAt w.cursor n (copy_to buffer pos seg) (pos + length seg) segs w.at
        (omega arith) in
    (
      c',
      rw w.result result,
      subst (IsAt c' n (gather segs (pos + length seg) (copy_to buffer pos seg))) (omega arith) a',
    )

-- A write of at most 64 KB whose skbs hold a sector each, and as many as the request has sectors,
-- runs without a fault, and the skbs then hold, one after the other, just the bytes that the
-- compiled version puts into a buffer that held what they did.
pub write_skbs-matches :
    (req : BlockRequest) (skbs : List Skb)
    → req.is_write ≡ true
    → All IsSector skbs
    → request_bytes req ≤ length skbs * sector_size
    → length skbs ≤ max_request_sector_num
    → (skbs' : List Skb) × (write_skbs req (length skbs) skbs ≡ done skbs')
      × (emudisk_transfer req (flat skbs) ≡ done (req, flat skbs'))
      × All IsSector skbs'
unfolding write_skbs emudisk_transfer
write_skbs-matches req skbs writes sectors room few =
    let (c, result, a) =
      write_segments-IsAt (start skbs) (length skbs) (flat skbs) 0 req.segments
        (record {
          sectors = sectors;
          holds = refl;
          size = refl;
          at = omega arith;
          place = inl refl;
          in_range = omega arith;
        })
        (omega (arith, room)) in
    (c.skbs, simp result (ground arith), ground (arith, a.holds), a.sectors)
