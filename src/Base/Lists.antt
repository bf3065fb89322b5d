-- ===== src/Base/Lists.antt =====
-- Lists measured by native numbers, and Boolean searches, which the library's versions do not run.
use Prim.Native.Nat.{ℕ, suc, ◌+◌, ◌≤◌}
use mathlib.Core.Path.{◌≡◌, refl}
use mathlib.Core.Bool.{Bool, false, not, ◌&&◌, ◌||◌}
use mathlib.Core.List.{List, [], ◌∷◌, ◌++◌}
use native.Mathlib.Omega.{arith}
use sampark.Base.Tests.{if◌then◌else◌, Eq}

module _ {ℓ} {A : Type ℓ} where
  abbrev pub length : List A → ℕ
  length [] = 0
  length (x ∷ xs) = suc (length xs)

  pub length-append : (xs ys : List A) → length (xs ++ ys) ≡ length xs + length ys
  length-append [] ys = omega arith
  length-append (x ∷ xs) ys = omega (arith, length-append xs ys)

  abbrev pub All {κ} : (A → Type κ) → List A → Type κ
  All P [] = Unit
  All P (x ∷ xs) = P x × All P xs

  pub All-append {κ} : (P : A → Type κ) (xs ys : List A) → All P xs → All P ys → All P (xs ++ ys)
  All-append P [] ys h k = k
  All-append P (x ∷ xs) ys h k = (h.0, All-append P xs ys h.1 k)

  pub All-map {κ μ} :
      {P : A → Type κ} {Q : A → Type μ} (xs : List A) → ((x : A) → P x → Q x) → All P xs → All Q xs
  All-map [] f h = tt
  All-map (x ∷ xs) f h = (f x h.0, All-map xs f h.1)

  pub All-both {κ μ} :
      (P : A → Type κ) (Q : A → Type μ) (xs : List A)
      → All P xs
      → All Q xs
      → All (λ (x : A). P x × Q x) xs
  All-both P Q [] h k = tt
  All-both P Q (x ∷ xs) h k = ((h.0, k.0), All-both P Q xs h.1 k.1)

  -- `any(p(x) for x in xs)`
  abbrev pub any : (A → Bool) → List A → Bool
  any p [] = false
  any p (x ∷ xs) = p x || any p xs

  -- `[x for x in xs if p(x)]`
  abbrev pub select : (A → Bool) → List A → List A
  select p [] = []
  select p (x ∷ xs) = let rest = select p xs in if p x then x ∷ rest else rest

  -- How many elements pass the test.
  abbrev pub tally : (A → Bool) → List A → ℕ
  tally p [] = 0
  tally p (x ∷ xs) = (if p x then 1 else 0) + tally p xs

  pub tally-length : (p : A → Bool) (xs : List A) → tally p xs ≤ length xs
  tally-length p [] = omega arith
  tally-length p (x ∷ xs) = ground (arith, tally-length p xs)

  pub tally-append : (p : A → Bool) (xs ys : List A) → tally p (xs ++ ys) ≡ tally p xs + tally p ys
  tally-append p [] ys = omega arith
  tally-append p (x ∷ xs) ys = omega (arith, tally-append p xs ys)

  pub tally-split :
      (p q : A → Bool) (xs : List A)
      → tally (λ x. q x && p x) xs + tally (λ x. not (q x) && p x) xs ≡ tally p xs
  tally-split p q [] = omega arith
  tally-split p q (x ∷ xs) = ground (arith, tally-split p q xs)

  pub tally-split_right :
      (p q : A → Bool) (xs : List A)
      → tally (λ x. q x && p x) xs + tally (λ x. q x && not (p x)) xs ≡ tally q xs
  tally-split_right p q [] = omega arith
  tally-split_right p q (x ∷ xs) = ground (arith, tally-split_right p q xs)

  pub tally-select :
      (p q : A → Bool) (xs : List A) → tally p (select q xs) ≡ tally (λ x. q x && p x) xs
  tally-select p q [] = omega arith
  tally-select p q (x ∷ xs) = ground (arith, tally-select p q xs)

module _ {ℓ} {A : Type ℓ} ⦃e : Eq A⦄ where
  -- `x in xs`
  abbrev pub contains : A → List A → Bool
  contains a [] = false
  contains a (x ∷ xs) = e.beq x a || contains a xs

-- Some element has the property.
pub data Any {A : Type 0} (P : A → Type 0) : List A → Type 0 where
  this : {x : A} {xs : List A} → P x → Any P (x ∷ xs)
  among : {x : A} {xs : List A} → Any P xs → Any P (x ∷ xs)

pub All-each :
    {A : Type 0} (P : A → Type 0) (xs : List A) → ((x : A) → Any (λ y. y ≡ x) xs → P x) → All P xs
All-each P [] h = tt
All-each P (x ∷ xs) h = (h x (this refl), All-each P xs (λ y m. h y (among m)))
