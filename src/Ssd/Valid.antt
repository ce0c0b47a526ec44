-- ===== src/Ssd/Valid.antt =====
-- The invariant of the simulated SSD.
use nctusde.Base.{
  ℕ, zero, suc, ◌≤◌, ◌<◌, ◌≡◌, refl, ap, List, [], ◌∷◌, arith, length, take, set, All,
}
use nctusde.Ssd.{Ssd, active, max_emulator_channels, long_max}

pub record IsValid (ssd : Ssd) : Type 0 where
  pub array : length ssd.ssd_channels ≡ max_emulator_channels
  pub in_array : ssd.channels ≤ max_emulator_channels
  pub in_time : All (λ c. c.completion_time < long_max) (active ssd)

module _ {ℓ} {A : Type ℓ} where
  pub length-take_of_le : (n : ℕ) (xs : List A) → n ≤ length xs → length (take n xs) ≡ n
  length-take_of_le zero xs h = refl
  length-take_of_le (suc n) [] h = absurd (omega arith)
  length-take_of_le (suc n) (x ∷ xs) h = ap suc (length-take_of_le n xs (omega arith))

  pub take-set : (n : ℕ) (xs : List A) (i : ℕ) (v : A) → take n (set xs i v) ≡ set (take n xs) i v
  take-set zero xs i v = refl
  take-set (suc n) [] i v = refl
  take-set (suc n) (x ∷ xs) zero v = refl
  take-set (suc n) (x ∷ xs) (suc i) v = ap (◌∷◌ x) (take-set n xs i v)

pub length-active : {ssd : Ssd} → IsValid ssd → length (active ssd) ≡ ssd.channels
length-active {ssd} v =
    length-take_of_le ssd.channels ssd.ssd_channels (omega (arith, v.array, v.in_array))
