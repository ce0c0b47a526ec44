-- ===== src/Emudisk/Transfer/Skbs/Flat.antt =====
-- The skbs of a request as one buffer: what is written there is what the compiled version writes.
use nctusde.Base.{
  ℕ, zero, suc, ◌+◌, ◌*◌, ◌≤◌, ◌<◌, ◌≡◌, refl, sym, ap, ◌∙◌, List, [], ◌∷◌, ◌++◌, arith, length,
  get_or, set, All,
}
use nctusde.Timing.{sector_size}
use nctusde.Emudisk.Transfer.{copy_to, overlay}
use nctusde.Emudisk.Transfer.Skbs.{Skb, no_skb}

abbrev pub IsSector : Skb → Type 0
IsSector k = length k.sector ≡ sector_size

abbrev pub flat : List Skb → List ℕ
flat [] = []
flat (k ∷ ks) = k.sector ++ flat ks

overlay-front :
    (bytes xs ys : List ℕ)
    → length bytes ≤ length xs
    → overlay bytes (xs ++ ys) ≡ overlay bytes xs ++ ys
unfolding overlay
overlay-front [] xs ys h = refl
overlay-front (b ∷ bytes) [] ys h = absurd (omega arith)
overlay-front (b ∷ bytes) (x ∷ xs) ys h = ap (◌∷◌ b) (overlay-front bytes xs ys (omega arith))

copy_to-front :
    (xs ys : List ℕ) (o : ℕ) (bytes : List ℕ)
    → o + length bytes ≤ length xs
    → copy_to (xs ++ ys) o bytes ≡ copy_to xs o bytes ++ ys
unfolding copy_to
copy_to-front xs ys zero bytes h = overlay-front bytes xs ys (omega arith)
copy_to-front [] ys (suc o) bytes h = absurd (omega arith)
copy_to-front (x ∷ xs) ys (suc o) bytes h = ap (◌∷◌ x) (copy_to-front xs ys o bytes (omega arith))

suc_add : (a b : ℕ) → suc a + b ≡ suc (a + b)
suc_add a b = omega arith

copy_to-behind :
    (xs ys : List ℕ) (o : ℕ) (bytes : List ℕ)
    → copy_to (xs ++ ys) (length xs + o) bytes ≡ xs ++ copy_to ys o bytes
unfolding copy_to
copy_to-behind [] ys o bytes = ap (λ k. copy_to ys k bytes) (omega arith)
copy_to-behind (x ∷ xs) ys o bytes =
    ap (λ k. copy_to (x ∷ (xs ++ ys)) k bytes) (suc_add (length xs) o)
    ∙ ap (◌∷◌ x) (copy_to-behind xs ys o bytes)

-- Bytes put into one skb are bytes put into the whole.
pub flat-set :
    (ks : List Skb) (i o : ℕ) (k : Skb) (bytes : List ℕ)
    → All IsSector ks
    → i < length ks
    → o + length bytes ≤ sector_size
    → k.sector ≡ copy_to (get_or ks i no_skb).sector o bytes
    → flat (set ks i k) ≡ copy_to (flat ks) (i * sector_size + o) bytes
flat-set [] i o k bytes sectors inside fits put = absurd (omega arith)
flat-set (s ∷ ks) zero o k bytes sectors inside fits put =
    ap (λ d. d ++ flat ks) put
    ∙ sym (copy_to-front s.sector (flat ks) o bytes (omega (arith, sectors.0)))
    ∙ ap (λ p. copy_to (s.sector ++ flat ks) p bytes) (omega arith)
flat-set (s ∷ ks) (suc i) o k bytes sectors inside fits put =
    ap (λ r. s.sector ++ r) (flat-set ks i o k bytes sectors.1 (omega arith) fits put)
    ∙ sym (copy_to-behind s.sector (flat ks) (i * sector_size + o) bytes)
    ∙ ap (λ p. copy_to (s.sector ++ flat ks) p bytes) (omega (arith, sectors.0))

-- A new length leaves the data.
pub flat-same :
    (ks : List Skb) (i : ℕ) (k : Skb)
    → k.sector ≡ (get_or ks i no_skb).sector
    → flat (set ks i k) ≡ flat ks
flat-same [] i k same = refl
flat-same (s ∷ ks) zero k same = ap (λ d. d ++ flat ks) same
flat-same (s ∷ ks) (suc i) k same = ap (λ r. s.sector ++ r) (flat-same ks i k same)
