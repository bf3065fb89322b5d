-- ===== src/Base/Sort.antt =====
-- Python's `sorted`, a stable sort, as insertion sort over a Boolean order.
use sampark.Base.Tests.{if◌then◌else◌}
use sampark.Base.Lists.{All, tally}
use Prim.Native.Nat.{◌+◌}
use mathlib.Core.Path.{◌≡◌, refl}
use mathlib.Core.Bool.{Bool}
use mathlib.Core.List.{List, [], ◌∷◌, Perm}
use mathlib.Core.List.Perm
use native.Mathlib.Omega.{arith}

-- `before a b` says that `a` sorts strictly before `b`: an element goes in front of the first one
-- that it is not behind, so equal elements keep their order.
module _ {ℓ} {A : Type ℓ} (before : A → A → Bool) where
  unfoldable pub insert_sorted : A → List A → List A
  insert_sorted a [] = a ∷ []
  insert_sorted a (x ∷ xs) = if before x a then x ∷ insert_sorted a xs else a ∷ x ∷ xs

  unfoldable pub sorted : List A → List A
  unfolding insert_sorted
  sorted [] = []
  sorted (x ∷ xs) = insert_sorted x (sorted xs)

  insert_sorted-perm : (a : A) (xs : List A) → Perm (insert_sorted a xs) (a ∷ xs)
  unfolding insert_sorted
  insert_sorted-perm a [] = Perm.refl (a ∷ [])
  insert_sorted-perm a (x ∷ xs) =
      let later = Perm.trans (Perm.cons x (insert_sorted-perm a xs)) (Perm.swap a x xs) in
      let here = Perm.refl (a ∷ x ∷ xs) in ground (arith, later, here)

  pub sorted-perm : (xs : List A) → Perm (sorted xs) xs
  unfolding sorted
  sorted-perm [] = Perm.refl []
  sorted-perm (x ∷ xs) =
      Perm.trans (insert_sorted-perm x (sorted xs)) (Perm.cons x (sorted-perm xs))

  All-insert_sorted {κ} :
      (P : A → Type κ) (a : A) (xs : List A) → P a → All P xs → All P (insert_sorted a xs)
  unfolding insert_sorted
  All-insert_sorted P a [] h k = (h, tt)
  All-insert_sorted P a (x ∷ xs) h k = ground (arith, All-insert_sorted P a xs h k.1)

  pub All-sorted {κ} : (P : A → Type κ) (xs : List A) → All P xs → All P (sorted xs)
  unfolding sorted
  All-sorted P [] h = tt
  All-sorted P (x ∷ xs) h = All-insert_sorted P x (sorted xs) h.0 (All-sorted P xs h.1)

  tally-insert_sorted :
      (p : A → Bool) (a : A) (xs : List A)
      → tally p (insert_sorted a xs) ≡ (if p a then 1 else 0) + tally p xs
  unfolding insert_sorted
  tally-insert_sorted p a [] = refl
  tally-insert_sorted p a (x ∷ xs) = ground (arith, tally-insert_sorted p a xs)

  pub tally-sorted : (p : A → Bool) (xs : List A) → tally p (sorted xs) ≡ tally p xs
  unfolding sorted
  tally-sorted p [] = refl
  tally-sorted p (x ∷ xs) = omega (arith, tally-insert_sorted p x (sorted xs), tally-sorted p xs)
