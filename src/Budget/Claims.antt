-- ===== src/Budget/Claims.antt =====
-- sampark/budget/store.py: `update_grant_state`, which changes a grant's record and its claim.
pub mod Search
use sampark.Base.{
  ℕ, some, List, [], ◌∷◌, Result, ok, key_error, or_raise, any, ◌==◌, if◌then◌else◌, ◌>>=◌, nat_eq,
}
use sampark.Base.Dict.{Dict, lookup, insert}
use sampark.Contracts.{Instant, Grant, GrantState}
use sampark.Budget.Contact.{is_releasing}
use sampark.Budget.Ledger.{ClaimRecord, GrantRecord, Ledger, get_grant_by_grant_id}

unfoldable pub move_claim : GrantState → Instant → ClaimRecord → ClaimRecord
move_claim new_state at claim = record claim {
  state = new_state;
  released_at = if is_releasing new_state then some at else claim.released_at;
}

-- The first claim of the list that belongs to the grant.
unfoldable pub move_first : ℕ → GrantState → Instant → List ClaimRecord → List ClaimRecord
unfolding move_claim
move_first grant_id new_state at [] = []
move_first grant_id new_state at (claim ∷ claims) =
    if claim.grant_id == grant_id
    then move_claim new_state at claim ∷ claims
    else claim ∷ move_first grant_id new_state at claims

-- `_claim_for_grant` searches the lists in order; the claim that it finds is changed in place.
unfoldable pub move_claims :
    ℕ → GrantState → Instant → Dict (ℕ × ℕ) (List ClaimRecord) → Dict (ℕ × ℕ) (List ClaimRecord)
unfolding move_first
move_claims grant_id new_state at [] = []
move_claims grant_id new_state at ((key, claims) ∷ rest) =
    if any (λ c. c.grant_id == grant_id) claims
    then (key, move_first grant_id new_state at claims) ∷ rest
    else (key, claims) ∷ move_claims grant_id new_state at rest

unfoldable pub set_grant_state : GrantState → GrantRecord → GrantRecord
set_grant_state new_state r = record r { grant = record r.grant { state = new_state } }

unfoldable pub update_grant_state : Ledger → ℕ → GrantState → Instant → Result (Grant × Ledger)
unfolding get_grant_by_grant_id set_grant_state move_claims insert lookup
update_grant_state l grant_id new_state at = do
  request_id ← or_raise (lookup grant_id l.grants_by_grant_id) key_error
  r ← or_raise (lookup request_id l.grants_by_request_id) key_error
  let updated = set_grant_state new_state r
  ok (
    updated.grant,
    record l {
      grants_by_request_id = insert request_id updated l.grants_by_request_id;
      claims = move_claims grant_id new_state at l.claims;
    },
  )
