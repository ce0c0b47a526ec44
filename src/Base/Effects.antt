-- ===== src/Base/Effects.antt =====
-- What a call of a C function can come to.
use mathlib.Core.Path.{◌≡◌, refl, ap}
use mathlib.Core.Bool.{Bool, true, false}
use nctusde.Base.Tests.{if◌then◌else◌}

-- `hang` is a `while(1)` of the source, `fault` an access outside an array.
pub data Outcome {ℓ} (A : Type ℓ) : Type ℓ where
  done : A → Outcome A
  hang : Outcome A
  fault : Outcome A

infixl 5 ◌>>=◌
abbrev pub ◌>>=◌ {ℓ κ} : {A : Type ℓ} {B : Type κ} → Outcome A → (A → Outcome B) → Outcome B
done a >>= f = f a
hang >>= f = hang
fault >>= f = fault

-- A chain of calls that comes to an end has had each call come to an end.
pub >>=-eq-done {ℓ κ} :
    {A : Type ℓ} {B : Type κ} (m : Outcome A) (f : A → Outcome B) {b : B}
    → (m >>= f) ≡ done b
    → (a : A) × (m ≡ done a) × (f a ≡ done b)
>>=-eq-done (done a) f h = (a, refl, h)
>>=-eq-done hang f h = cc
>>=-eq-done fault f h = cc

abbrev value_or {ℓ} : {A : Type ℓ} → A → Outcome A → A
value_or d (done a) = a
value_or d hang = d
value_or d fault = d

pub done-injective {ℓ} : {A : Type ℓ} {a b : A} → done a ≡ done b → a ≡ b
done-injective {a = a} e = ap (value_or a) e

-- What holds of the result, if there is one.
abbrev pub Done {ℓ} : {A : Type ℓ} → (A → Type 0) → Outcome A → Type 0
Done P (done a) = P a
Done P hang = Unit {0}
Done P fault = Unit {0}

module _ {A B : Type 0} (P : B → Type 0) where
  pub Done-then : (m : Outcome A) (f : A → Outcome B) → ((a : A) → Done P (f a)) → Done P (m >>= f)
  Done-then (done a) f h = h a
  Done-then hang f h = tt
  Done-then fault f h = tt

  pub Done-bind :
      (R : A → Type 0) (m : Outcome A) (f : A → Outcome B)
      → Done R m
      → ((a : A) → R a → Done P (f a))
      → Done P (m >>= f)
  Done-bind R (done a) f r h = h a r
  Done-bind R hang f r h = tt
  Done-bind R fault f r h = tt

pub Done-if :
    {A : Type 0} (P : A → Type 0) (b : Bool) (x y : Outcome A)
    → Done P x
    → Done P y
    → Done P (if b then x else y)
Done-if P true x y h k = h
Done-if P false x y h k = k

pub Done-then_branch :
    {A : Type 0} (P : A → Type 0) (b : Bool) (x y : Outcome A)
    → b ≡ true
    → Done P x
    → Done P (if b then x else y)
Done-then_branch P true x y e h = h
Done-then_branch P false x y e h = cc

pub Done-else_branch :
    {A : Type 0} (P : A → Type 0) (b : Bool) (x y : Outcome A)
    → b ≡ false
    → Done P y
    → Done P (if b then x else y)
Done-else_branch P true x y e h = cc
Done-else_branch P false x y e h = h
