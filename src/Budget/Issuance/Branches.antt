-- ===== src/Budget/Issuance/Branches.antt =====
-- The branches of InMemoryGrantIssuer.issue_grant (sampark/budget/store.py) in terms of the ledger
-- that it is called on.
use sampark.Base.{
  ℕ, ◌*◌, ◌/◌, ◌≡◌, refl, ◌∙◌, none, some, Result, ok, leb, if◌then◌else◌, ◌>>=◌, nat_eq, pair_eq,
  arith, Option, ◌==◌, ap, subst, Option-cases, inl, inr,
}
use sampark.Base.Int.{pos, leb_ℤ}
use sampark.Base.Dict.{lookup, lookup-insert}
use sampark.Contracts.{
  Instant, Date, GrantRequest, merchant_margin_exhausted, customer_margin_exhausted,
  contact_cap_24h, contact_cap_7d, contact_slot_taken,
}
use sampark.Allocator.Candidate.{Candidate}
use sampark.Budget.Windows.{next_window_start}
use sampark.Budget.Margin.{downgrade_to_fit}
use sampark.Budget.Ledger.{
  GrantRecord, Ledger, rolling_contact_counts, records_for_customer, has_active_claim, claims_at,
}
use sampark.Budget.Pools.{
  merchant_pool, customer_pool, set_merchant_pool, set_customer_pool, remaining_of, reserve,
}
use sampark.Budget.Pools.View.{
  merchant_view, customer_view, both_pools, merchant_pool-view, second_pool-view,
  merchant_view-both_pools, customer_view-both_pools,
}
use sampark.Budget.Pools.Existence.{both_pools_exist, grant_requests-both_pools}
use sampark.Budget.Consistency.{SameGrants, SameGrants-both_pools}
use sampark.Budget.Issuance.{
  IdScheme, IssuanceResult, grant_issued, budget_denial, persist_request, new_grant, write_grant,
  issue_new, issue_grant,
}

-- The ledger after steps (2) and (3): the request is stored and both pools exist.
unfoldable pub prepared : Ledger → Candidate → Ledger
prepared l c = both_pools (persist_request l c) c.customer_id c.window_id

-- What both pools leave of the ceiling that was asked for.
unfoldable pub ceiling_for : Ledger → Candidate → ℕ → ℕ
ceiling_for l c bps =
    downgrade_to_fit (c.risk_item.amount_paise * bps / 10_000)
      (remaining_of (merchant_view l c.window_id))
      (remaining_of (customer_view l c.customer_id c.window_id))

-- A request is stored once: the first one stays.
abbrev pub first_stored : GrantRequest → Option GrantRequest → GrantRequest
first_stored request none = request
first_stored request (some stored) = stored

module _ (l : Ledger) (c : Candidate) where
  persist_request-SameGrants : SameGrants l (persist_request l c)
  unfolding persist_request
  persist_request-SameGrants = ground arith

  merchant_view-persist_request :
      (w : Date) → merchant_view (persist_request l c) w ≡ merchant_view l w
  unfolding persist_request merchant_view
  merchant_view-persist_request w = ground arith

  customer_view-persist_request :
      (d : ℕ) (w : Date) → customer_view (persist_request l c) d w ≡ customer_view l d w
  unfolding persist_request customer_view
  customer_view-persist_request d w = ground arith

  pub prepared-SameGrants : SameGrants l (prepared l c)
  unfolding prepared
  prepared-SameGrants =
      let first = persist_request-SameGrants in
      let then_pools = SameGrants-both_pools (persist_request l c) c.customer_id c.window_id in
      ground (arith, first, then_pools)

  pub merchant_view-prepared : (w : Date) → merchant_view (prepared l c) w ≡ merchant_view l w
  unfolding prepared
  merchant_view-prepared w =
      merchant_view-both_pools (persist_request l c) c.customer_id c.window_id w
      ∙ merchant_view-persist_request w

  pub customer_view-prepared :
      (d : ℕ) (w : Date) → customer_view (prepared l c) d w ≡ customer_view l d w
  unfolding prepared
  customer_view-prepared d w =
      customer_view-both_pools (persist_request l c) c.customer_id c.window_id d w
      ∙ customer_view-persist_request d w

  lookup-persist_request :
      (k : ℕ)
      → lookup k (persist_request l c).grant_requests ≡ (
          if c.request.request_id == k
          then some (first_stored c.request (lookup k l.grant_requests))
          else lookup k l.grant_requests)
  unfolding persist_request
  lookup-persist_request k =
      let id = c.request.request_id in
      elim (Option-cases (lookup id l.grant_requests)) [
        | inl e ↦ ground (arith, lookup-insert k id c.request l.grant_requests)
        | inr (r, e) ↦ ground arith
      ]

  pub lookup-prepared :
      (k : ℕ)
      → lookup k (prepared l c).grant_requests ≡ (
          if c.request.request_id == k
          then some (first_stored c.request (lookup k l.grant_requests))
          else lookup k l.grant_requests)
  unfolding prepared
  lookup-prepared k =
      ap (lookup k) (grant_requests-both_pools (persist_request l c) c.customer_id c.window_id)
      ∙ lookup-persist_request k

  persist_request-merchant_id : (persist_request l c).merchant_id ≡ l.merchant_id
  unfolding persist_request
  persist_request-merchant_id = ground arith

  pub prepared_pools_exist :
      (lookup (l.merchant_id, c.window_id) (prepared l c).merchant_pools
        ≡ some (merchant_view l c.window_id))
      × (lookup (c.customer_id, c.window_id) (prepared l c).customer_pools
          ≡ some (customer_view l c.customer_id c.window_id))
  unfolding prepared
  prepared_pools_exist =
      let both = both_pools_exist (persist_request l c) c.customer_id c.window_id in
      let same = persist_request-merchant_id in
      (
        subst
              (λ m.
                lookup (m, c.window_id) (prepared l c).merchant_pools
                ≡ some (merchant_view (persist_request l c) c.window_id))
              same both.0
            ∙ ap some (merchant_view-persist_request c.window_id),
        both.1 ∙ ap some (customer_view-persist_request c.customer_id c.window_id),
      )

  pub rolling_contact_counts-prepared :
      (customer_id : ℕ) (now : Instant)
      → rolling_contact_counts (prepared l c) customer_id now
        ≡ rolling_contact_counts l customer_id now
  unfolding rolling_contact_counts records_for_customer
  rolling_contact_counts-prepared customer_id now =
      let same = prepared-SameGrants in rw (same.same_records, same.same_index) refl

  pub has_active_claim-prepared :
      (customer_id : ℕ) (w : Date)
      → has_active_claim (prepared l c) customer_id w ≡ has_active_claim l customer_id w
  unfolding has_active_claim claims_at
  has_active_claim-prepared customer_id w =
      let same = prepared-SameGrants in rw same.same_claims refl

-- The ledger of a granted request.
unfoldable pub granted : IdScheme → Ledger → Candidate → ℕ → Instant → Ledger
granted ids l c bps now =
    set_customer_pool
      (set_merchant_pool (write_grant ids (prepared l c) c (ceiling_for l c bps) now) c.window_id
        (reserve (ceiling_for l c bps) (merchant_view l c.window_id)))
      c.customer_id c.window_id
      (reserve (ceiling_for l c bps) (customer_view l c.customer_id c.window_id))

-- The decision for a request that has no grant yet, from the contact counts.
unfoldable pub decide_contact :
    IdScheme → Ledger → Candidate → ℕ → Instant → ℕ → ℕ → IssuanceResult × Ledger
decide_contact ids l c bps now c24 c7 =
    let next = some (next_window_start c.window_id) in
    if leb 1 c24
    then (budget_denial contact_cap_24h next, prepared l c)
    else if leb 2 c7
    then (budget_denial contact_cap_7d next, prepared l c)
    else if has_active_claim l c.customer_id c.window_id
    then (budget_denial contact_slot_taken next, prepared l c)
    else (grant_issued (new_grant ids c (ceiling_for l c bps)), granted ids l c bps now)

unfoldable pub decide :
    IdScheme → Ledger → Candidate → ℕ → Instant → Result (ℕ × ℕ) → Result (IssuanceResult × Ledger)
decide ids l c bps now counts =
    let next = some (next_window_start c.window_id) in
    if leb_ℤ (remaining_of (merchant_view l c.window_id)) (pos 0)
    then ok (budget_denial merchant_margin_exhausted next, prepared l c)
    else if leb_ℤ (remaining_of (customer_view l c.customer_id c.window_id)) (pos 0)
    then ok (budget_denial customer_margin_exhausted next, prepared l c)
    else counts >>= λ (n : ℕ × ℕ). ok (decide_contact ids l c bps now n.0 n.1)

module _ (ids : IdScheme) (l : Ledger) (c : Candidate) (bps : ℕ) (now : Instant) where
  first_view : (merchant_pool (persist_request l c) c.window_id).0 ≡ merchant_view l c.window_id
  first_view = merchant_pool-view _ c.window_id ∙ merchant_view-persist_request l c c.window_id

  second_view :
      (customer_pool
        (merchant_pool (persist_request l c) c.window_id).1
        c.customer_id
        c.window_id).0
      ≡ customer_view l c.customer_id c.window_id
  second_view =
      second_pool-view (persist_request l c) c.customer_id c.window_id
      ∙ customer_view-persist_request l c c.customer_id c.window_id

  pub issue_new_lem :
      issue_new ids l c bps now
      ≡ decide ids l c bps now (rolling_contact_counts l c.customer_id now)
  unfolding issue_new decide decide_contact granted ceiling_for prepared both_pools
  issue_new_lem =
      rw
        (
          first_view,
          second_view,
          rolling_contact_counts-prepared l c c.customer_id now,
          has_active_claim-prepared l c c.customer_id c.window_id,
        )
        refl

  -- A request that has a grant gets that grant, and nothing changes.
  pub issue_grant_known :
      (r : GrantRecord)
      → lookup c.request.request_id l.grants_by_request_id ≡ some r
      → issue_grant ids l c bps now ≡ ok (grant_issued r.grant, l)
  unfolding issue_grant
  issue_grant_known r e = rw (e, issue_grant)

  pub issue_grant_fresh :
      lookup c.request.request_id l.grants_by_request_id ≡ none
      → issue_grant ids l c bps now
        ≡ decide ids l c bps now (rolling_contact_counts l c.customer_id now)
  unfolding issue_grant
  issue_grant_fresh e = rw (e, issue_grant) issue_new_lem
