-- ===== src/Budget/Ledger.antt =====
-- sampark/budget/store.py: the state of InMemoryMediationLedger, its readers and its pools.
--
-- A record object is reached through two dicts of the source. Here `grants_by_request_id` holds
-- the objects and `grants_by_grant_id` refers to an object by the request id under which it was
-- stored, so that a change through one dict shows through the other.
use sampark.Base.{
  ℕ, String, ◌+◌, ◌*◌, Bool, true, false, not, ◌&&◌, Option, none, some, List, [], ◌∷◌, Result, ok,
  key_error, or_raise, any, select, tally, contains, ltb, leb, ◌==◌, if◌then◌else◌, ◌>>=◌, nat_eq,
  pair_eq,
}
use sampark.Base.Int.{ℤ}
use sampark.Base.Dict.{Dict, lookup, lookup_or}
use sampark.Contracts.{
  Instant, Date, RiskItem, GrantRequest, Grant, GrantState, executing, confirmed,
}
use sampark.Budget.Windows.{usec_per_hour, usec_per_day}
use sampark.Budget.Contact.{consumes_capacity}

pub record PoolRecord : Type 0 where
  pub budget_paise : ℕ
  pub reserved_paise : ℤ
  pub spent_paise : ℤ

pub record ClaimRecord : Type 0 where
  pub claim_id : ℕ
  pub customer_id : ℕ
  pub window_id : Date
  pub grant_id : ℕ
  pub state : GrantState
  pub claimed_at : Instant
  pub released_at : Option Instant

pub record GrantRecord : Type 0 where
  pub grant : Grant
  pub request_id : ℕ
  pub customer_id : ℕ
  pub window_id : Date
  pub claim_id : ℕ

pub record Ledger : Type 0 where
  pub risk_items_by_customer : Dict ℕ (List RiskItem)
  pub merchant_id : ℕ
  pub merchant_budget_paise_per_window : ℕ
  pub grant_requests : Dict ℕ GrantRequest
  pub grants_by_request_id : Dict ℕ GrantRecord
  pub grants_by_grant_id : Dict ℕ ℕ
  pub grants_by_customer : Dict ℕ (List ℕ)
  pub claims : Dict (ℕ × ℕ) (List ClaimRecord)
  pub merchant_pools : Dict (ℕ × ℕ) PoolRecord
  pub customer_pools : Dict (ℕ × ℕ) PoolRecord
  pub terminally_denied_risk_ids : List ℕ

-- `InMemoryMediationLedger.__init__`
unfoldable pub new_ledger : Dict ℕ (List RiskItem) → ℕ → ℕ → Ledger
new_ledger risk_items_by_customer merchant_id merchant_budget_paise_per_window = record {
  risk_items_by_customer = risk_items_by_customer;
  merchant_id = merchant_id;
  merchant_budget_paise_per_window = merchant_budget_paise_per_window;
  grant_requests = [];
  grants_by_request_id = [];
  grants_by_grant_id = [];
  grants_by_customer = [];
  claims = [];
  merchant_pools = [];
  customer_pools = [];
  terminally_denied_risk_ids = [];
}

-- Both are `{}` for every customer of this data set.
unfoldable pub optouts_by_channel : Ledger → ℕ → List String
optouts_by_channel l customer_id = []

unfoldable pub risk_items_for_customer : Ledger → ℕ → List RiskItem
unfolding lookup_or
risk_items_for_customer l customer_id = lookup_or [] customer_id l.risk_items_by_customer

-- `[self._grants_by_request_id[rid] for rid in …]`: a dangling id raises KeyError.
unfoldable pub resolve : Dict ℕ GrantRecord → List ℕ → Result (List GrantRecord)
resolve records [] = ok []
resolve records (request_id ∷ request_ids) = do
  record_here ← or_raise (lookup request_id records) key_error
  rest ← resolve records request_ids
  ok (record_here ∷ rest)

unfoldable pub records_for_customer : Ledger → ℕ → Result (List GrantRecord)
unfolding resolve lookup_or
records_for_customer l customer_id =
    resolve l.grants_by_request_id (lookup_or [] customer_id l.grants_by_customer)

-- `send_after > decision_at - interval`, with the interval moved to the other side.
abbrev pub counts_within : ℕ → Instant → GrantRecord → Bool
counts_within interval decision_at r =
    consumes_capacity r.grant.state && ltb decision_at (r.grant.send_after + interval)

unfoldable pub rolling_contact_counts : Ledger → ℕ → Instant → Result (ℕ × ℕ)
unfolding records_for_customer
rolling_contact_counts l customer_id decision_at = do
  records ← records_for_customer l customer_id
  ok (
    tally (counts_within (24 * usec_per_hour) decision_at) records,
    tally (counts_within (7 * usec_per_day) decision_at) records,
  )

abbrev pub was_sent : GrantState → Bool
was_sent executing = true
was_sent confirmed = true
was_sent _ = false

unfoldable pub contacts_made : Ledger → ℕ → Instant → Result ℕ
unfolding records_for_customer
contacts_made l customer_id before = do
  records ← records_for_customer l customer_id
  ok (tally (λ r. was_sent r.grant.state && ltb r.grant.send_after before) records)

unfoldable pub claims_at : Ledger → ℕ → Date → List ClaimRecord
unfolding lookup_or
claims_at l customer_id window_id = lookup_or [] (customer_id, window_id) l.claims

unfoldable pub has_active_claim : Ledger → ℕ → Date → Bool
unfolding claims_at
has_active_claim l customer_id window_id =
    any (λ c. consumes_capacity c.state) (claims_at l customer_id window_id)

abbrev is_confirmed : GrantState → Bool
is_confirmed confirmed = true
is_confirmed _ = false

confirmed_risk_ids : Dict ℕ GrantRequest → List GrantRecord → Result (List ℕ)
confirmed_risk_ids requests [] = ok []
confirmed_risk_ids requests (r ∷ rs) =
    let rest = confirmed_risk_ids requests rs in
    if is_confirmed r.grant.state
    then (do
      request ← or_raise (lookup r.request_id requests) key_error
      risk_ids ← rest
      ok (request.risk_id ∷ risk_ids))
    else rest

unfoldable pub open_candidates_for_customer : Ledger → ℕ → Instant → ℕ → Result (List RiskItem)
unfolding records_for_customer confirmed_risk_ids risk_items_for_customer
open_candidates_for_customer l customer_id decision_at exclude_risk_id = do
  records ← records_for_customer l customer_id
  granted_confirmed ← confirmed_risk_ids l.grant_requests records
  ok (
      select
        (λ item.
          not (item.risk_id == exclude_risk_id)
          && not (contains item.risk_id granted_confirmed)
          && not (contains item.risk_id l.terminally_denied_risk_ids)
          && leb item.detected_at decision_at)
        (risk_items_for_customer l customer_id))

unfoldable pub mark_terminally_denied : Ledger → ℕ → Ledger
mark_terminally_denied l risk_id = record l {
  terminally_denied_risk_ids = risk_id ∷ l.terminally_denied_risk_ids;
}

unfoldable pub get_grant_by_request_id : Ledger → ℕ → Option GrantRecord
get_grant_by_request_id l request_id = lookup request_id l.grants_by_request_id

-- The object that the second dict refers to.
unfoldable pub get_grant_by_grant_id : Ledger → ℕ → Option GrantRecord
get_grant_by_grant_id l grant_id = elim (lookup grant_id l.grants_by_grant_id) [
  | none ↦ none
  | some request_id ↦ lookup request_id l.grants_by_request_id
]
