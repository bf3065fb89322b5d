-- ===== src/Attribution/Baseline/Grouping.antt =====
-- The groups and rates of sampark/attribution/baseline.py, key by key.
use sampark.Base.{
  ℕ, ◌≡◌, ◌≤◌, refl, sym, false, List, [], ◌∷◌, ◌++◌, none, some, Eq, select, tally, length, leb,
  if◌then◌else◌, arith,
}
use mathlib.Core.List.{append-nil, append_assoc}
use sampark.Base.Dict.{Dict, lookup, lookup_or, insert, lookup-insert, lookup_or-insert}
use sampark.Attribution.Baseline.{group_onto, rates_onto}

module _ {K V : Type 0} ⦃e : Eq K⦄ where
  -- How often a key stands in a dict.
  abbrev keyed : K → Dict K V → ℕ
  keyed k d = tally (λ (x : K × V). e.beq x.0 k) d

  -- Every key stands once.
  abbrev pub IsKeyed : Dict K V → Type 0
  IsKeyed d = (k : K) → keyed k d ≤ 1

  keyed-insert_other :
      (j k : K) (v : V) (d : Dict K V) → e.beq k j ≡ false → keyed j (insert k v d) ≡ keyed j d
  unfolding insert
  keyed-insert_other j k v [] h = ground arith
  keyed-insert_other j k v ((i, w) ∷ d) h =
      ground (arith, keyed-insert_other j k v d h, e.beq_iff i k, e.beq_iff i j, e.beq_iff k j)

  keyed-insert : (j k : K) (v : V) (d : Dict K V) → IsKeyed d → keyed j (insert k v d) ≤ 1
  unfolding insert
  keyed-insert j k v [] h = ground arith
  keyed-insert j k v ((i, w) ∷ d) h =
      let rest : IsKeyed d = λ x. ground (arith, h x) in
      ground (
        arith,
        keyed-insert j k v d rest,
        keyed-insert_other j k v d,
        h j,
        e.beq_iff i k,
        e.beq_iff i j,
        e.beq_iff k j,
      )

  keyed_absent : (k : K) (d : Dict K V) → keyed k d ≡ 0 → lookup k d ≡ none
  unfolding lookup
  keyed_absent k [] h = refl
  keyed_absent k ((i, w) ∷ d) h = ground (arith, keyed_absent k d)

module _ {K A : Type 0} ⦃e : Eq K⦄ (key : A → K) where
  -- Grouping appends to each group the elements with its key.
  pub group_onto_lem :
      (k : K) (d : Dict K (List A)) (xs : List A)
      → lookup_or [] k (group_onto key d xs) ≡ lookup_or [] k d ++ select (λ x. e.beq (key x) k) xs
  unfolding group_onto
  group_onto_lem k d [] = sym (append-nil (lookup_or [] k d))
  group_onto_lem k d (x ∷ xs) =
      let more = lookup_or [] (key x) d ++ x ∷ [] in
      let later = select (λ y. e.beq (key y) k) xs in
      ground (
        arith,
        group_onto_lem k (insert (key x) more d) xs,
        lookup_or-insert [] k (key x) more d,
        append_assoc (lookup_or [] k d) (x ∷ []) later,
        e.beq_iff (key x) k,
      )

  pub group_onto-IsKeyed :
      (d : Dict K (List A)) (xs : List A) → IsKeyed d → IsKeyed (group_onto key d xs)
  unfolding group_onto
  group_onto-IsKeyed d [] h = h
  group_onto-IsKeyed d (x ∷ xs) h =
      group_onto-IsKeyed (insert (key x) (lookup_or [] (key x) d ++ x ∷ []) d) xs
        (λ j. keyed-insert j (key x) (lookup_or [] (key x) d ++ x ∷ []) d h)

module _ {K A R : Type 0} ⦃e : Eq K⦄ (min_obs : ℕ) (rate_of : K → List A → R) where
  -- A key has a rate of its own when its group is large enough.
  pub rates_onto_lem :
      (k : K) (rates : Dict K R) (groups : Dict K (List A))
      → IsKeyed groups
      → 1 ≤ min_obs
      → lookup k (rates_onto min_obs rate_of rates groups) ≡ (
          if leb min_obs (length (lookup_or [] k groups))
          then some (rate_of k (lookup_or [] k groups))
          else lookup k rates)
  unfolding rates_onto lookup lookup_or
  rates_onto_lem k rates [] h pos = ground arith
  rates_onto_lem k rates ((j, xs) ∷ groups) h pos =
      let rest : IsKeyed groups = λ x. ground (arith, h x) in
      let next : Dict K R =
        if leb min_obs (length xs) then insert j (rate_of j xs) rates else rates in
      let ih = rates_onto_lem k next groups rest pos in
      ground (
        arith,
        ih,
        lookup-insert k j (rate_of j xs) rates,
        keyed_absent k groups,
        h k,
        e.beq_iff j k,
      )
