-- ===== src/Budget/Issuance.antt =====
-- sampark/budget/store.py: InMemoryGrantIssuer.issue_grant, step by step. The ids come from
-- `uuid.uuid5`, which is not code of this repository: they are functions of the request id.
pub mod Branches
pub mod Granting
pub mod Safety
pub mod Caps
use sampark.Base.{
  ℕ, ◌+◌, ◌*◌, ◌/◌, Bool, Option, none, some, List, [], ◌∷◌, ◌++◌, Result, ok, err, or_raise, leb,
  if◌then◌else◌, ◌>>=◌, nat_eq, pair_eq,
}
use sampark.Base.Int.{ℤ, pos, leb_ℤ}
use sampark.Base.Dict.{Dict, lookup, lookup_or, insert}
use sampark.Contracts.{
  Instant, Date, Grant, GrantState, reserved, ReasonCode, merchant_margin_exhausted,
  customer_margin_exhausted, contact_cap_24h, contact_cap_7d, contact_slot_taken,
}
use sampark.Allocator.Candidate.{Candidate}
use sampark.Budget.Windows.{next_window_start, usec_per_hour}
use sampark.Budget.Margin.{downgrade_to_fit}
use sampark.Budget.Ledger.{
  PoolRecord, GrantRecord, ClaimRecord, Ledger, rolling_contact_counts, has_active_claim,
}
use sampark.Budget.Pools.{
  merchant_pool, customer_pool, set_merchant_pool, set_customer_pool, remaining_of, reserve,
}

-- `uuid5(NS_GRANT, str(request_id))` and `uuid5(NS_GRANT, f"claim:{request_id}")`.
pub record IdScheme : Type 0 where
  pub grant_id_for : ℕ → ℕ
  pub claim_id_for : ℕ → ℕ

abbrev pub contact_cap_24h_limit : ℕ
contact_cap_24h_limit = 1

abbrev pub contact_cap_7d_limit : ℕ
contact_cap_7d_limit = 2

abbrev pub grant_ttl : ℕ
grant_ttl = 2 * usec_per_hour

pub data IssuanceResult : Type 0 where
  grant_issued : Grant → IssuanceResult
  budget_denial : ReasonCode → Option Instant → IssuanceResult

unfoldable pub persist_request : Ledger → Candidate → Ledger
unfolding lookup insert
persist_request l c = elim (lookup c.request.request_id l.grant_requests) [
  | some _ ↦ l
  | none ↦ record l { grant_requests = insert c.request.request_id c.request l.grant_requests }
]

module _ (ids : IdScheme) where
  unfoldable pub new_grant : Candidate → ℕ → Grant
  new_grant c ceiling = record {
    grant_id = ids.grant_id_for c.request.request_id;
    channel = c.request.requested_channel;
    incentive_ceiling_paise = ceiling;
    send_after = c.proposed_send_after;
    expires_at = c.proposed_send_after + grant_ttl;
    state = reserved;
  }

  unfoldable pub new_claim : Candidate → Instant → ClaimRecord
  new_claim c decision_at = record {
    claim_id = ids.claim_id_for c.request.request_id;
    customer_id = c.customer_id;
    window_id = c.window_id;
    grant_id = ids.grant_id_for c.request.request_id;
    state = reserved;
    claimed_at = decision_at;
    released_at = none;
  }

  unfoldable pub new_record : Candidate → ℕ → GrantRecord
  unfolding new_grant
  new_record c ceiling = record {
    grant = new_grant c ceiling;
    request_id = c.request.request_id;
    customer_id = c.customer_id;
    window_id = c.window_id;
    claim_id = ids.claim_id_for c.request.request_id;
  }

  -- Steps (5) and (6): the record under its two keys, the customer's list, the claim.
  unfoldable pub write_grant : Ledger → Candidate → ℕ → Instant → Ledger
  unfolding new_record new_claim lookup_or insert
  write_grant l c ceiling decision_at = record l {
    grants_by_request_id =
        insert c.request.request_id (new_record c ceiling) l.grants_by_request_id;
    grants_by_grant_id =
        insert (ids.grant_id_for c.request.request_id) c.request.request_id l.grants_by_grant_id;
    grants_by_customer =
        insert c.customer_id
          (lookup_or [] c.customer_id l.grants_by_customer ++ c.request.request_id ∷ [])
          l.grants_by_customer;
    claims =
        insert (c.customer_id, c.window_id)
          (lookup_or [] (c.customer_id, c.window_id) l.claims ++ new_claim c decision_at ∷ [])
          l.claims;
  }

  -- Steps (4) to (7), with the two pools at hand.
  unfoldable pub issue_from :
      Ledger → PoolRecord → PoolRecord → Candidate → ℕ → Instant → Result (IssuanceResult × Ledger)
  unfolding write_grant set_merchant_pool set_customer_pool reserve rolling_contact_counts
      has_active_claim
  issue_from l merchant customer c ceiling decision_at = do
    let next_eligible = next_window_start c.window_id
    (c24, c7) ← rolling_contact_counts l c.customer_id decision_at
    ok (
        if leb contact_cap_24h_limit c24
        then (budget_denial contact_cap_24h (some next_eligible), l)
        else if leb contact_cap_7d_limit c7
        then (budget_denial contact_cap_7d (some next_eligible), l)
        else if has_active_claim l c.customer_id c.window_id
        then (budget_denial contact_slot_taken (some next_eligible), l)
        else (
          grant_issued (new_grant c ceiling),
          set_customer_pool
              (set_merchant_pool (write_grant l c ceiling decision_at) c.window_id
                (reserve ceiling merchant))
              c.customer_id c.window_id (reserve ceiling customer),
        ))

  -- Steps (2) and (3), and the test of what remains.
  unfoldable pub issue_new : Ledger → Candidate → ℕ → Instant → Result (IssuanceResult × Ledger)
  unfolding issue_from persist_request merchant_pool customer_pool remaining_of downgrade_to_fit
  issue_new l c effective_incentive_bps decision_at =
      let next_eligible = next_window_start c.window_id in
      let (merchant, l') = merchant_pool (persist_request l c) c.window_id in
      let (customer, l'') = customer_pool l' c.customer_id c.window_id in
      let ceiling =
        downgrade_to_fit (c.risk_item.amount_paise * effective_incentive_bps / 10_000)
          (remaining_of merchant) (remaining_of customer) in
      if leb_ℤ (remaining_of merchant) (pos 0)
      then ok (budget_denial merchant_margin_exhausted (some next_eligible), l'')
      else if leb_ℤ (remaining_of customer) (pos 0)
      then ok (budget_denial customer_margin_exhausted (some next_eligible), l'')
      else issue_from l'' merchant customer c ceiling decision_at

  -- Step (1): a request that has a grant gets that grant.
  unfoldable pub issue_grant : Ledger → Candidate → ℕ → Instant → Result (IssuanceResult × Ledger)
  unfolding issue_new lookup
  issue_grant l c effective_incentive_bps decision_at =
      elim (lookup c.request.request_id l.grants_by_request_id) [
        | some existing ↦ ok (grant_issued existing.grant, l)
        | none ↦ issue_new l c effective_incentive_bps decision_at
      ]
