-- ===== src/Budget/Claims/Search.antt =====
-- sampark/budget/store.py: `_claim_for_grant`, as a search, and what a transition makes of its result.
use sampark.Base.{
  ℕ, ◌≡◌, refl, Option, none, some, List, [], ◌∷◌, arith, any, true, false, length, ◌==◌,
  if◌then◌else◌, nat_eq, pair_eq, Bool-cases, inl, inr,
}
use sampark.Base.Dict.{Dict, lookup_or}
use sampark.Contracts.{Instant, GrantState}
use sampark.Budget.Ledger.{ClaimRecord}
use sampark.Budget.Claims.{move_claim, move_first, move_claims}

-- The inner loop.
abbrev pub find_claim : ℕ → List ClaimRecord → Option ClaimRecord
find_claim grant_id [] = none
find_claim grant_id (claim ∷ claims) =
    if claim.grant_id == grant_id then some claim else find_claim grant_id claims

abbrev found_or : Option ClaimRecord → Option ClaimRecord → Option ClaimRecord
found_or (some claim) rest = some claim
found_or none rest = rest

abbrev pub claim_for_grant : ℕ → Dict (ℕ × ℕ) (List ClaimRecord) → Option ClaimRecord
claim_for_grant grant_id [] = none
claim_for_grant grant_id ((key, claims) ∷ rest) =
    found_or (find_claim grant_id claims) (claim_for_grant grant_id rest)

module _ (g : ℕ) (to : GrantState) (at : Instant) where
  abbrev pub move_found : Option ClaimRecord → Option ClaimRecord
  move_found none = none
  move_found (some claim) = some (move_claim to at claim)

  find_claim-move_first :
      (k : ℕ) (cs : List ClaimRecord)
      → find_claim k (move_first g to at cs)
        ≡ (if g == k then move_found (find_claim k cs) else find_claim k cs)
  unfolding move_first move_claim
  find_claim-move_first k [] = ground arith
  find_claim-move_first k (c ∷ cs) = ground (arith, find_claim-move_first k cs)

  length-move_first : (cs : List ClaimRecord) → length (move_first g to at cs) ≡ length cs
  unfolding move_first
  length-move_first [] = refl
  length-move_first (c ∷ cs) = ground (arith, length-move_first cs)

  find_claim-none :
      (cs : List ClaimRecord) → any (λ c. c.grant_id == g) cs ≡ false → find_claim g cs ≡ none
  find_claim-none [] h = refl
  find_claim-none (c ∷ cs) h = ground (arith, find_claim-none cs)

  find_claim-some :
      (cs : List ClaimRecord)
      → any (λ c. c.grant_id == g) cs ≡ true
      → (c : ClaimRecord) × (find_claim g cs ≡ some c)
  find_claim-some [] h = absurd (ground arith)
  find_claim-some (c ∷ cs) h = elim (Bool-cases (c.grant_id == g)) [
    | inl e ↦ (c, ground arith)
    | inr e ↦ let (d, found) = find_claim-some cs (ground arith) in (d, ground arith)
  ]

  -- The grant's claim moves, and the claim that is found for any other grant is the one before.
  pub claim_for_grant-move_claims :
      (k : ℕ) (d : Dict (ℕ × ℕ) (List ClaimRecord))
      → claim_for_grant k (move_claims g to at d)
        ≡ (if g == k then move_found (claim_for_grant k d) else claim_for_grant k d)
  unfolding move_claims
  claim_for_grant-move_claims k [] = ground arith
  claim_for_grant-move_claims k ((key, cs) ∷ rest) =
      elim (Bool-cases (any (λ c. c.grant_id == g) cs)) [
        | inl here ↦
            let (c, found) = find_claim-some cs here in ground (arith, find_claim-move_first k cs)
        | inr away ↦
            let missing = find_claim-none cs away in
            ground (arith, claim_for_grant-move_claims k rest)
      ]

  -- Every customer and window has as many claims as before.
  pub length-move_claims :
      (key : ℕ × ℕ) (d : Dict (ℕ × ℕ) (List ClaimRecord))
      → length (lookup_or [] key (move_claims g to at d)) ≡ length (lookup_or [] key d)
  unfolding move_claims lookup_or
  length-move_claims key [] = refl
  length-move_claims key ((j, cs) ∷ rest) =
      ground (arith, length-move_first cs, length-move_claims key rest)
