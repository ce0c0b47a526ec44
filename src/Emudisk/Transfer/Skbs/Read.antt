-- ===== src/Emudisk/Transfer/Skbs/Read.antt =====
-- The two versions of nctuss_emudisk_transfer for a read.
use nctusde.Base.{
  ℕ, zero, suc, ◌+◌, ◌-◌, ◌*◌, ◌≤◌, ◌<◌, ◌≡◌, refl, sym, ap, subst, ◌∙◌, inl, inr, true, false,
  List, [], ◌∷◌, ◌++◌, arith, length, take, drop, get_or, All, leb, Outcome, done, Bool-cases,
}
use nctusde.Timing.{sector_size}
use nctusde.Emudisk.{BlockRequest, request_bytes, segments_size, max_request_sector_num}
use nctusde.Emudisk.Transfer.{copy_from, scatter, emudisk_transfer}
use nctusde.Emudisk.Transfer.RoundTrip.{take-add, drop-drop}
use nctusde.Emudisk.Transfer.Skbs.{
  Skb, Cursor, no_skb, next_skb, get_bytes, advance, read_segment, read_segments, read_skbs, start,
}
use nctusde.Emudisk.Transfer.Skbs.Flat.{IsSector, flat}
use nctusde.Emudisk.Transfer.Skbs.Same.{IsAt, next_skb-IsAt}

take-front : (k : ℕ) (xs ys : List ℕ) → k ≤ length xs → take k (xs ++ ys) ≡ take k xs
take-front zero xs ys h = refl
take-front (suc k) [] ys h = absurd (omega arith)
take-front (suc k) (x ∷ xs) ys h = ap (◌∷◌ x) (take-front k xs ys (omega arith))

copy_from-front :
    (xs ys : List ℕ) (o k : ℕ) → o + k ≤ length xs → copy_from (xs ++ ys) o k ≡ copy_from xs o k
copy_from-front xs ys zero k h = take-front k xs ys (omega arith)
copy_from-front [] ys (suc o) zero h = refl
copy_from-front [] ys (suc o) (suc k) h = absurd (omega arith)
copy_from-front (x ∷ xs) ys (suc o) k h = copy_from-front xs ys o k (omega arith)

drop-behind : (xs ys : List ℕ) (p : ℕ) → drop (length xs + p) (xs ++ ys) ≡ drop p ys
drop-behind [] ys p = ap (λ k. drop k ys) (omega arith)
drop-behind (x ∷ xs) ys p =
    let more : suc (length xs) + p ≡ suc (length xs + p) = omega arith in
    rw more (drop-behind xs ys p)

-- Bytes of one skb are bytes of the whole.
flat-get :
    (ks : List Skb) (i o k : ℕ)
    → All IsSector ks
    → i < length ks
    → o + k ≤ sector_size
    → copy_from (get_or ks i no_skb).sector o k ≡ copy_from (flat ks) (i * sector_size + o) k
flat-get [] i o k sectors inside fits = absurd (omega arith)
flat-get (s ∷ ks) zero o k sectors inside fits =
    sym (copy_from-front s.sector (flat ks) o k (omega (arith, sectors.0)))
    ∙ ap (λ p. copy_from (s.sector ++ flat ks) p k) (omega arith)
flat-get (s ∷ ks) (suc i) o k sectors inside fits =
    flat-get ks i o k sectors.1 (omega arith) fits
    ∙ ap (take k) (sym (drop-behind s.sector (flat ks) (i * sector_size + o)))
    ∙ ap (λ p. copy_from (s.sector ++ flat ks) p k) (omega (arith, sectors.0))

copy_from-add :
    (buffer : List ℕ) (pos k m size : ℕ)
    → k + m ≡ size
    → copy_from buffer pos k ++ copy_from buffer (pos + k) m ≡ copy_from buffer pos size
copy_from-add buffer pos k m size sum =
    rw (← sum, take-add k m (drop pos buffer), drop-drop pos k buffer) refl

get_bytes-IsAt :
    (c : Cursor) (n : ℕ) (buffer : List ℕ) (pos k : ℕ)
    → IsAt c n buffer pos
    → 0 < c.remaining
    → k ≤ c.remaining
    → (get_bytes c k ≡ copy_from buffer pos k) × IsAt (advance c k) n buffer (pos + k)
unfolding get_bytes
get_bytes-IsAt c n buffer pos k a more fits =
    let here : (c.offset + c.remaining ≡ sector_size) × (0 < c.current_skb) = elim a.place [
      | inl none ↦ absurd (omega arith)
      | inr here ↦ here
    ] in
    (
      flat-get c.skbs (c.current_skb - 1) c.offset k a.sectors
            (omega (arith, a.in_range, a.size, here.1)) (omega (arith, here.0, fits))
          ∙ ap (λ p. copy_from (flat c.skbs) p k) (omega (arith, a.at, here.0, here.1))
          ∙ ap (λ b. copy_from b pos k) a.holds,
      record {
        sectors = a.sectors;
        holds = a.holds;
        size = a.size;
        at = omega (arith, a.at, fits);
        place = inr (omega (arith, here.0, fits), here.1);
        in_range = a.in_range;
      },
    )

-- What reading `size` bytes at `pos` comes to.
pub record IsRead (n : ℕ) (buffer : List ℕ) (pos size : ℕ) (m : Outcome (Cursor × List ℕ))
    : Type 0 where
  pub cursor : Cursor
  pub result : m ≡ done (cursor, copy_from buffer pos size)
  pub at : IsAt cursor n buffer (pos + size)

last_bytes :
    (fuel : ℕ) (c c' : Cursor) (size : ℕ)
    → next_skb c 0 ≡ done c'
    → leb (suc size) c'.remaining ≡ true
    → read_segment (suc fuel) c (suc size) ≡ done (advance c' (suc size), get_bytes c' (suc size))
unfolding read_segment
last_bytes fuel c c' size next fits = rw (next, fits) refl

more_bytes :
    (fuel : ℕ) (c c' c1 : Cursor) (size : ℕ) (bytes : List ℕ)
    → next_skb c 0 ≡ done c'
    → leb (suc size) c'.remaining ≡ false
    → read_segment fuel (advance c' c'.remaining) (suc size - c'.remaining) ≡ done (c1, bytes)
    → read_segment (suc fuel) c (suc size) ≡ done (c1, get_bytes c' c'.remaining ++ bytes)
unfolding read_segment
more_bytes fuel c c' c1 size bytes next more rest = rw (next, more, rest) refl

read_segment-IsRead :
    (fuel : ℕ) (c : Cursor) (n : ℕ) (buffer : List ℕ) (pos size : ℕ)
    → IsAt c n buffer pos
    → size ≤ fuel
    → pos + size ≤ n * sector_size
    → IsRead n buffer pos size (read_segment fuel c size)
unfolding read_segment
read_segment-IsRead fuel c n buffer pos zero a enough inside = record {
  cursor = c;
  result = refl;
  at = subst (IsAt c n buffer) (omega arith) a;
}
read_segment-IsRead zero c n buffer pos (suc size) a enough inside = absurd (omega arith)
read_segment-IsRead (suc fuel) c n buffer pos (suc size) a enough inside =
    let (c', next, a', more) = next_skb-IsAt c 0 n buffer pos a (omega arith) in
    elim (Bool-cases (leb (suc size) c'.remaining)) [
      | inl fits ↦
          let (bytes, a1) = get_bytes-IsAt c' n buffer pos (suc size) a' more (ground arith) in
          record {
            cursor = advance c' (suc size);
            result =
                last_bytes fuel c c' size next fits
                ∙ ap (λ b. done (advance c' (suc size), b)) bytes;
            at = a1;
          }
      | inr rest ↦
          let left : c'.remaining < suc size = ground arith in
          let (bytes, a1) = get_bytes-IsAt c' n buffer pos c'.remaining a' more (omega arith) in
          let w =
            read_segment-IsRead fuel (advance c' c'.remaining) n buffer (pos + c'.remaining)
              (suc size - c'.remaining) a1 (omega (arith, more, enough, left))
              (omega (arith, left, inside)) in
          record {
            cursor = w.cursor;
            result =
                more_bytes fuel c c' w.cursor size _ next rest w.result
                ∙ ap
                    (λ b. done (
                      w.cursor,
                      b ++ copy_from buffer (pos + c'.remaining) (suc size - c'.remaining),
                    ))
                    bytes
                ∙ ap (λ b. done (w.cursor, b))
                    (copy_from-add buffer pos c'.remaining (suc size - c'.remaining) (suc size)
                      (omega (arith, left)));
            at = subst (IsAt w.cursor n buffer) (omega (arith, left)) w.at;
          }
    ]

read_segments-scatter :
    (c : Cursor) (n : ℕ) (buffer : List ℕ) (pos : ℕ) (segs : List (List ℕ))
    → IsAt c n buffer pos
    → pos + segments_size segs ≤ n * sector_size
    → read_segments c segs ≡ done (scatter segs pos buffer)
unfolding read_segments scatter segments_size
read_segments-scatter c n buffer pos [] a inside = refl
read_segments-scatter c n buffer pos (seg ∷ segs) a inside =
    let w =
      read_segment-IsRead (length seg) c n buffer pos (length seg) a (omega arith) (omega arith) in
    rw
      (w.result, read_segments-scatter w.cursor n buffer (pos + length seg) segs w.at (omega arith))
      refl

-- A read of at most 64 KB from skbs that hold a sector each, as many as the request has sectors,
-- runs without a fault, and fills the segments with the bytes that the compiled version takes out
-- of the same sectors in one buffer.
pub read_skbs-matches :
    (req : BlockRequest) (skbs : List Skb)
    → req.is_write ≡ false
    → All IsSector skbs
    → request_bytes req ≤ length skbs * sector_size
    → length skbs ≤ max_request_sector_num
    → (req' : BlockRequest) × (read_skbs req (length skbs) skbs ≡ done req')
      × (emudisk_transfer req (flat skbs) ≡ done (req', flat skbs))
unfolding read_skbs emudisk_transfer
read_skbs-matches req skbs reads sectors room few =
    let result =
      read_segments-scatter (start skbs) (length skbs) (flat skbs) 0 req.segments
        (record {
          sectors = sectors;
          holds = refl;
          size = refl;
          at = omega arith;
          place = inl refl;
          in_range = omega arith;
        })
        (omega (arith, room)) in
    (
      record req { segments = scatter req.segments 0 (flat skbs) },
      simp result (ground arith),
      ground arith,
    )
