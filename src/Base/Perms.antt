-- ===== src/Base/Perms.antt =====
-- What two lists that hold the same elements share.
use Prim.Native.Nat.{ℕ, suc, ◌<◌}
use mathlib.Core.Path.{◌≡◌, refl, ap, ◌∙◌, subst}
use mathlib.Core.Logic.{∥∥₁_elim, ∥∥₁_map}
use mathlib.Core.List.{List, [], ◌∷◌, ◌++◌, map, Perm, Permᴰ}
use native.Mathlib.Nat.{ℕ_set}
use native.Mathlib.Bridge.{le_prop}
use nctusde.Base.Lists.{length, All}

module _ {A : Type 0} where
  lengthᴰ : {xs ys : List A} → Permᴰ xs ys → length xs ≡ length ys
  lengthᴰ Permᴰ.nil = refl
  lengthᴰ (Permᴰ.cons e p) = ap suc (lengthᴰ p)
  lengthᴰ (Permᴰ.swap e f) = refl
  lengthᴰ (Permᴰ.trans p q) = lengthᴰ p ∙ lengthᴰ q

  pub length-perm : (xs ys : List A) → Perm xs ys → length xs ≡ length ys
  length-perm xs ys p = ∥∥₁_elim p (ℕ_set _ _) (λ d. lengthᴰ d)

module _ {A B : Type 0} (f : A → B) where
  mapᴰ : {xs ys : List A} → Permᴰ xs ys → Permᴰ (map f xs) (map f ys)
  mapᴰ Permᴰ.nil = Permᴰ.nil
  mapᴰ (Permᴰ.cons e p) = Permᴰ.cons (ap f e) (mapᴰ p)
  mapᴰ (Permᴰ.swap e g) = Permᴰ.swap (ap f e) (ap f g)
  mapᴰ (Permᴰ.trans p q) = Permᴰ.trans (mapᴰ p) (mapᴰ q)

  pub map-perm : (xs ys : List A) → Perm xs ys → Perm (map f xs) (map f ys)
  map-perm xs ys p = ∥∥₁_map {B = Permᴰ (map f xs) (map f ys)} p (λ d. mapᴰ d)

  pub map-append : (xs ys : List A) → map f (xs ++ ys) ≡ map f xs ++ map f ys
  map-append [] ys = refl
  map-append (x ∷ xs) ys = ap (◌∷◌ (f x)) (map-append xs ys)

module _ {A : Type 0} {P : A → Type 0} (P_prop : (x : A) → IsProp (P x)) where
  Allᴰ : {xs ys : List A} → Permᴰ xs ys → All P xs → All P ys
  Allᴰ Permᴰ.nil h = h
  Allᴰ (Permᴰ.cons e p) h = (subst P e h.0, Allᴰ p h.1)
  Allᴰ (Permᴰ.swap e f) h = (subst P f h.1.0, (subst P e h.0, h.1.1))
  Allᴰ (Permᴰ.trans p q) h = Allᴰ q (Allᴰ p h)

  All-prop : (xs : List A) → IsProp (All P xs)
  All-prop [] = hlevel
  All-prop (x ∷ xs) = hlevel (P_prop x, All-prop xs)

  pub All-perm : (xs ys : List A) → Perm xs ys → All P xs → All P ys
  All-perm xs ys p h = ∥∥₁_elim p (All-prop ys) (λ d. Allᴰ d h)

pub All-below-perm :
    (n : ℕ) (xs ys : List ℕ) → Perm xs ys → All (λ x. x < n) xs → All (λ x. x < n) ys
All-below-perm n xs ys p h = All-perm {P = λ x. x < n} (λ x. le_prop) xs ys p h
