-- ===== src/Base/Dict.antt =====
-- A Python dict as an association list in insertion order.
use sampark.Base.Tests.{if◌then◌else◌, Eq, Bool-cases, Option-cases}
use sampark.Base.Lists.{All}
use mathlib.Core.Logic.{inl, inr}
use Prim.Native.Nat.{ℕ, ◌+◌}
use mathlib.Core.Path.{◌≡◌, refl}
use mathlib.Core.Bool.{Bool, true, false, ◌||◌}
use mathlib.Core.Option.{Option, none, some}
use mathlib.Core.List.{List, [], ◌∷◌, ◌++◌}
use native.Mathlib.Omega.{arith}

abbrev pub Dict {ℓ κ} : Type ℓ → Type κ → Type (ℓ ⊔ κ)
Dict K V = List (K × V)

module _ {ℓ κ} {K : Type ℓ} {V : Type κ} ⦃e : Eq K⦄ where
  -- `d.get(k)`
  unfoldable pub lookup : K → Dict K V → Option V
  lookup k [] = none
  lookup k ((j, v) ∷ d) = if e.beq j k then some v else lookup k d

  -- `d[k] = v`: the value of a known key is replaced in place, a new key comes last.
  unfoldable pub insert : K → V → Dict K V → Dict K V
  insert k v [] = (k, v) ∷ []
  insert k v ((j, w) ∷ d) = if e.beq j k then (k, v) ∷ d else (j, w) ∷ insert k v d

  -- `d.get(k, default)`
  unfoldable pub lookup_or : V → K → Dict K V → V
  unfolding lookup
  lookup_or default k d = elim (lookup k d) [ none ↦ default | some v ↦ v ]

  -- `k in d`
  unfoldable pub has_key : K → Dict K V → Bool
  unfolding lookup
  has_key k d = elim (lookup k d) [ none ↦ false | some _ ↦ true ]

  -- `d.values()`
  unfoldable pub values : Dict K V → List V
  values [] = []
  values ((j, v) ∷ d) = v ∷ values d

  pub lookup-insert :
      (j k : K) (v : V) (d : Dict K V)
      → lookup j (insert k v d) ≡ (if e.beq k j then some v else lookup j d)
  unfolding lookup insert
  lookup-insert j k v [] = refl
  lookup-insert j k v ((i, w) ∷ d) =
      ground (arith, e.beq_iff i k, e.beq_iff k j, e.beq_iff i j, lookup-insert j k v d)

  pub lookup-insert_self : (k : K) (v : V) (d : Dict K V) → lookup k (insert k v d) ≡ some v
  lookup-insert_self k v d = ground (arith, lookup-insert k k v d, e.beq_iff k k)

  pub lookup_or-insert :
      (default : V) (j k : K) (v : V) (d : Dict K V)
      → lookup_or default j (insert k v d) ≡ (if e.beq k j then v else lookup_or default j d)
  unfolding lookup_or
  lookup_or-insert default j k v d = ground (arith, lookup-insert j k v d)

  pub values-insert_new :
      (k : K) (v : V) (d : Dict K V)
      → lookup k d ≡ none
      → values (insert k v d) ≡ values d ++ v ∷ []
  unfolding lookup insert values
  values-insert_new k v [] h = refl
  values-insert_new k v ((i, w) ∷ d) h = ground (arith, values-insert_new k v d)

  pub has_key-insert :
      (j k : K) (v : V) (d : Dict K V) → has_key j (insert k v d) ≡ (e.beq k j || has_key j d)
  unfolding has_key
  has_key-insert j k v d = ground (arith, lookup-insert j k v d)

  -- A key of the dict has a value.
  pub lookup_known : (k : K) (d : Dict K V) → has_key k d ≡ true → (v : V) × (lookup k d ≡ some v)
  unfolding has_key
  lookup_known k d h = elim (Option-cases (lookup k d)) [
    | inl absent ↦ absurd (ground arith)
    | inr found ↦ found
  ]

  -- The sum of a measure over the values.
  unfoldable pub sum_of : (V → ℕ) → Dict K V → ℕ
  sum_of f [] = 0
  sum_of f ((j, v) ∷ d) = f v + sum_of f d

  pub sum_of-insert_new :
      (f : V → ℕ) (k : K) (v : V) (d : Dict K V)
      → lookup k d ≡ none
      → sum_of f (insert k v d) ≡ sum_of f d + f v
  unfolding lookup insert sum_of
  sum_of-insert_new f k v [] h = omega arith
  sum_of-insert_new f k v ((i, w) ∷ d) h = ground (arith, sum_of-insert_new f k v d)

  pub sum_of-insert :
      (f : V → ℕ) (k : K) (v old : V) (d : Dict K V)
      → lookup k d ≡ some old
      → sum_of f (insert k v d) + f old ≡ sum_of f d + f v
  unfolding lookup insert sum_of
  sum_of-insert f k v old [] h = cc
  sum_of-insert f k v old ((i, w) ∷ d) h = ground (arith, sum_of-insert f k v old d)

  pub All-lookup {μ} :
      (P : V → Type μ) (k : K) (v : V) (d : Dict K V) → All P (values d) → lookup k d ≡ some v → P v
  unfolding lookup values
  All-lookup P k v [] h m = cc
  All-lookup P k v ((i, w) ∷ d) h m = elim (Bool-cases (e.beq i k)) [
    | inl same ↦ let here : w ≡ v = ground arith in rw (← here) h.0
    | inr other ↦ All-lookup P k v d h.1 (ground arith)
  ]

  pub All-values-insert {μ} :
      (P : V → Type μ) (k : K) (v : V) (d : Dict K V)
      → All P (values d)
      → P v
      → All P (values (insert k v d))
  unfolding insert values
  All-values-insert P k v [] h p = (p, tt)
  All-values-insert P k v ((i, w) ∷ d) h p = elim (Bool-cases (e.beq i k)) [
    | inl same ↦ rw same (p, h.1)
    | inr other ↦ rw other (h.0, All-values-insert P k v d h.1 p)
  ]
