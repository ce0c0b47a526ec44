-- ===== src/Emudisk/Transfer/RoundTrip.antt =====
-- nctuss_emudisk_transfer as copies of whole byte strings.
use nctusde.Base.{
  ℕ, zero, suc, ◌+◌, ◌≤◌, ◌≡◌, refl, sym, ap, ◌∙◌, true, false, List, [], ◌∷◌, ◌++◌, arith, length,
  take, drop, done, length-append, take-nil, drop-nil,
}
use nctusde.Emudisk.{BlockRequest, segments_size, request_bytes}
use nctusde.Emudisk.Transfer.{overlay, copy_to, copy_from, gather, scatter, emudisk_transfer}

-- All bytes of a request, whatever its segments.
abbrev pub bytes_of : List (List ℕ) → List ℕ
bytes_of [] = []
bytes_of (seg ∷ segs) = seg ++ bytes_of segs

pub length-bytes_of : (segs : List (List ℕ)) → length (bytes_of segs) ≡ segments_size segs
unfolding segments_size
length-bytes_of [] = refl
length-bytes_of (seg ∷ segs) =
    omega (arith, length-append seg (bytes_of segs), length-bytes_of segs)

overlay-append :
    (xs ys buffer : List ℕ) → overlay (xs ++ ys) buffer ≡ copy_to (overlay xs buffer) (length xs) ys
unfolding overlay copy_to
overlay-append [] ys buffer = refl
overlay-append (x ∷ xs) ys [] = refl
overlay-append (x ∷ xs) ys (b ∷ buffer) = ap (◌∷◌ x) (overlay-append xs ys buffer)

pub copy_to-append :
    (buffer : List ℕ) (offset : ℕ) (xs ys : List ℕ)
    → copy_to (copy_to buffer offset xs) (offset + length xs) ys ≡ copy_to buffer offset (xs ++ ys)
unfolding copy_to
copy_to-append buffer zero xs ys =
    let e : 0 + length xs ≡ length xs = omega arith in rw e (sym (overlay-append xs ys buffer))
copy_to-append [] (suc offset) xs ys =
    let e : suc offset + length xs ≡ suc (offset + length xs) = omega arith in rw e
copy_to-append (b ∷ buffer) (suc offset) xs ys =
    let e : suc offset + length xs ≡ suc (offset + length xs) = omega arith in
    rw e (ap (◌∷◌ b) (copy_to-append buffer offset xs ys))

pub copy_to-nil : (buffer : List ℕ) (offset : ℕ) → copy_to buffer offset [] ≡ buffer
unfolding copy_to overlay
copy_to-nil buffer zero = refl
copy_to-nil [] (suc offset) = refl
copy_to-nil (b ∷ buffer) (suc offset) = ap (◌∷◌ b) (copy_to-nil buffer offset)

length-overlay : (bytes buffer : List ℕ) → length (overlay bytes buffer) ≡ length buffer
unfolding overlay
length-overlay [] buffer = refl
length-overlay (b ∷ bytes) [] = refl
length-overlay (b ∷ bytes) (_ ∷ buffer) = ap suc (length-overlay bytes buffer)

pub length-copy_to :
    (buffer : List ℕ) (offset : ℕ) (bytes : List ℕ)
    → length (copy_to buffer offset bytes) ≡ length buffer
unfolding copy_to
length-copy_to buffer zero bytes = length-overlay bytes buffer
length-copy_to [] (suc offset) bytes = refl
length-copy_to (b ∷ buffer) (suc offset) bytes = ap suc (length-copy_to buffer offset bytes)

-- The loop over the segments is one copy of all bytes.
pub gather-eq-copy_to :
    (segs : List (List ℕ)) (offset : ℕ) (buffer : List ℕ)
    → gather segs offset buffer ≡ copy_to buffer offset (bytes_of segs)
unfolding gather
gather-eq-copy_to [] offset buffer = sym (copy_to-nil buffer offset)
gather-eq-copy_to (seg ∷ segs) offset buffer =
    gather-eq-copy_to segs (offset + length seg) (copy_to buffer offset seg)
    ∙ copy_to-append buffer offset seg (bytes_of segs)

pub take-add : (n m : ℕ) (xs : List ℕ) → take (n + m) xs ≡ take n xs ++ take m (drop n xs)
take-add zero m xs = ap (λ k. take k xs) (omega arith)
take-add (suc n) m [] = take-nil ℕ (suc n + m) ∙ sym (take-nil ℕ m)
take-add (suc n) m (x ∷ xs) =
    let e : suc n + m ≡ suc (n + m) = omega arith in rw e (ap (◌∷◌ x) (take-add n m xs))

pub drop-drop : (n m : ℕ) (xs : List ℕ) → drop m (drop n xs) ≡ drop (n + m) xs
drop-drop zero m xs = ap (λ k. drop k xs) (omega arith)
drop-drop (suc n) m [] = drop-nil ℕ m ∙ sym (drop-nil ℕ (suc n + m))
drop-drop (suc n) m (x ∷ xs) =
    let e : suc n + m ≡ suc (n + m) = omega arith in rw e (drop-drop n m xs)

pub bytes_of-scatter :
    (segs : List (List ℕ)) (offset : ℕ) (buffer : List ℕ)
    → bytes_of (scatter segs offset buffer) ≡ copy_from buffer offset (segments_size segs)
unfolding scatter segments_size
bytes_of-scatter [] offset buffer = refl
bytes_of-scatter (seg ∷ segs) offset buffer =
    rw (bytes_of-scatter segs (offset + length seg) buffer, ← drop-drop offset (length seg) buffer)
      (sym (take-add (length seg) (segments_size segs) (drop offset buffer)))

pub take-overlay :
    (bytes buffer : List ℕ)
    → length bytes ≤ length buffer
    → take (length bytes) (overlay bytes buffer) ≡ bytes
unfolding overlay
take-overlay [] buffer h = refl
take-overlay (b ∷ bytes) [] h = absurd (omega arith)
take-overlay (b ∷ bytes) (_ ∷ buffer) h = ap (◌∷◌ b) (take-overlay bytes buffer (omega arith))

pub read_back :
    (bytes buffer : List ℕ)
    → length bytes ≤ length buffer
    → copy_from (copy_to buffer 0 bytes) 0 (length bytes) ≡ bytes
unfolding copy_to
read_back bytes buffer h = take-overlay bytes buffer h

-- A write of at most 64 KB that fits the buffer puts all its bytes there, and a read of as many
-- bytes, in segments of any sizes, takes them out again.
pub transfer_round_trip :
    (writing reading : BlockRequest) (buffer : List ℕ)
    → writing.is_write ≡ true
    → reading.is_write ≡ false
    → request_bytes writing ≤ 65536
    → request_bytes writing ≤ length buffer
    → request_bytes reading ≡ request_bytes writing
    → (buffer' : List ℕ) × (reading' : BlockRequest) × (emudisk_transfer writing buffer
        ≡ done (writing, buffer'))
      × (emudisk_transfer reading buffer' ≡ done (reading', buffer'))
      × (bytes_of reading'.segments ≡ bytes_of writing.segments)
unfolding emudisk_transfer
transfer_round_trip w r buffer ew er small fits same = (
  gather w.segments 0 buffer,
  record r { segments = scatter r.segments 0 (gather w.segments 0 buffer) },
  ground arith,
  ground arith,
  bytes_of-scatter r.segments 0 (gather w.segments 0 buffer)
      ∙ rw (gather-eq-copy_to, same, ← length-bytes_of w.segments)
          (read_back (bytes_of w.segments) buffer (rw length-bytes_of fits)),
)
