-- ===== src/Mediation/Lifecycle.antt =====
-- sampark/mediation/lifecycle.py: the transitions of a grant after it is issued.
pub mod Moves
pub mod Consistency
pub mod Effects
pub mod History
use sampark.Base.{
  ℕ, Bool, true, false, not, List, [], ◌∷◌, Result, ok, err, unknown_grant, illegal_transition,
  or_raise, raise_if, if◌then◌else◌, ◌>>=◌, ◌>>◌,
}
use sampark.Base.Int.{ℤ}
use sampark.Contracts.{
  Instant, Grant, GrantState, reserved, executing, confirmed, rolled_back, expired,
}
use sampark.Budget.Contact.{state_eq}
use sampark.Budget.Ledger.{GrantRecord, Ledger, get_grant_by_grant_id}
use sampark.Budget.Pools.{release_margin, settle_margin}
use sampark.Budget.Claims.{update_grant_state}
use sampark.Budget.Expiry.{find_expired_grant_ids}

-- `to in _LEGAL_TRANSITIONS[current]`
abbrev pub is_legal : GrantState → GrantState → Bool
is_legal reserved executing = true
is_legal reserved rolled_back = true
is_legal reserved expired = true
is_legal executing confirmed = true
is_legal executing rolled_back = true
is_legal _ _ = false

unfoldable pub require_grant : Ledger → ℕ → Result GrantRecord
unfolding get_grant_by_grant_id
require_grant l grant_id = or_raise (get_grant_by_grant_id l grant_id) unknown_grant

unfoldable pub transition : Ledger → ℕ → GrantState → Instant → Result (Grant × Ledger)
unfolding require_grant update_grant_state
transition l grant_id to at = do
  r ← require_grant l grant_id
  raise_if (not (is_legal r.grant.state to)) illegal_transition
  update_grant_state l grant_id to at

unfoldable pub execute : Ledger → ℕ → Instant → Result (Grant × Ledger)
unfolding transition require_grant
execute l grant_id at = do
  r ← require_grant l grant_id
  if state_eq r.grant.state executing then ok (r.grant, l) else transition l grant_id executing at

unfoldable pub confirm : Ledger → ℕ → Instant → ℤ → Result (Grant × Ledger)
unfolding transition require_grant settle_margin
confirm l grant_id at actual_spend_paise = do
  r ← require_grant l grant_id
  if state_eq r.grant.state confirmed then ok (r.grant, l) else (do
    (grant, l') ← transition l grant_id confirmed at
    l'' ← settle_margin l' r.request_id actual_spend_paise
    ok (grant, l''))

-- `rollback` and `expire` differ in the state that they move to.
unfoldable pub end_unspent : GrantState → Ledger → ℕ → Instant → Result (Grant × Ledger)
unfolding transition require_grant release_margin
end_unspent to l grant_id at = do
  r ← require_grant l grant_id
  if state_eq r.grant.state to then ok (r.grant, l) else (do
    (grant, l') ← transition l grant_id to at
    l'' ← release_margin l' r.request_id
    ok (grant, l''))

unfoldable pub rollback : Ledger → ℕ → Instant → Result (Grant × Ledger)
unfolding end_unspent
rollback = end_unspent rolled_back

unfoldable pub expire : Ledger → ℕ → Instant → Result (Grant × Ledger)
unfolding end_unspent
expire = end_unspent expired

unfoldable pub expire_all : Ledger → List ℕ → Instant → Result (List ℕ × Ledger)
unfolding expire
expire_all l [] now = ok ([], l)
expire_all l (grant_id ∷ grant_ids) now = do
  (grant, l') ← expire l grant_id now
  (done, l'') ← expire_all l' grant_ids now
  ok (grant.grant_id ∷ done, l'')

unfoldable pub sweep_expired : Ledger → Instant → Result (List ℕ × Ledger)
unfolding expire_all find_expired_grant_ids
sweep_expired l now = do overdue ← find_expired_grant_ids l now; expire_all l overdue now
