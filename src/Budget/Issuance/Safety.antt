-- ===== src/Budget/Issuance/Safety.antt =====
-- issue_grant (sampark/budget/store.py) as a whole.
use sampark.Base.{
  ℕ, ◌*◌, ◌/◌, ◌≤◌, ◌≡◌, ◌∙◌, sym, subst, inl, inr, true, none, some, ok, nat_eq, arith,
  Option-cases, ◌==◌, pair_eq, if◌then◌else◌,
}
use sampark.Base.Int.{pos, ◌≤ℤ◌, leb_ℤ}
use sampark.Base.Dict.{lookup, lookup-insert_self}
use sampark.Contracts.{Instant, Date, Grant, merchant_margin_exhausted, customer_margin_exhausted}
use sampark.Budget.Windows.{next_window_start}
use sampark.Allocator.Candidate.{Candidate}
use sampark.Budget.Margin.Bounds.{downgrade_to_fit-le-requested}
use sampark.Budget.Ledger.{Ledger}
use sampark.Budget.Pools.{remaining_of, set_merchant_pool, set_customer_pool}
use sampark.Budget.Pools.View.{merchant_view, customer_view}
use sampark.Budget.Consistency.{IsConsistent, SameGrants}
use sampark.Budget.Issuance.{
  IdScheme, IssuanceResult, grant_issued, budget_denial, issue_grant, new_grant, new_record,
  write_grant,
}
use sampark.Budget.Issuance.Branches.{
  prepared, ceiling_for, granted, decide, decide_contact, prepared-SameGrants,
  merchant_view-prepared, customer_view-prepared, first_stored, lookup-prepared,
  prepared_pools_exist, issue_grant_known, issue_grant_fresh,
}
use sampark.Budget.Issuance.Granting.{
  is_denied, counts_total, prepared-IsConsistent, granted-IsConsistent, issue_grant_cases,
  ceiling_for-le-merchant, ceiling_for-le-customer,
}

module _ (ids : IdScheme) (l : Ledger) (c : Candidate) (bps : ℕ) (now : Instant) where
  -- A call of issue_grant that returns leaves a consistent ledger, whatever it decided.
  pub issue_grant-IsConsistent :
      (res : IssuanceResult) (l' : Ledger)
      → IsConsistent l
      → issue_grant ids l c bps now ≡ ok (res, l')
      → IsConsistent l'
  issue_grant-IsConsistent res l' v e = elim (issue_grant_cases ids l c bps now res l' v e) [
    | inl (r, known, issued, same) ↦ subst IsConsistent (sym same) v
    | inr (inl (fresh, refused, after)) ↦
        subst IsConsistent (sym after) (prepared-IsConsistent ids l c bps now v)
    | inr (inr (n, counts, fresh, issued, after, ok_to)) ↦
        subst IsConsistent (sym after)
          (granted-IsConsistent ids l c bps now v fresh ok_to.merchant_left ok_to.customer_left)
  ]

  decided : ℕ × ℕ → IssuanceResult × Ledger
  decided n =
      let next = some (next_window_start c.window_id) in
      if leb_ℤ (remaining_of (merchant_view l c.window_id)) (pos 0)
      then (budget_denial merchant_margin_exhausted next, prepared l c)
      else if leb_ℤ (remaining_of (customer_view l c.customer_id c.window_id)) (pos 0)
      then (budget_denial customer_margin_exhausted next, prepared l c)
      else decide_contact ids l c bps now n.0 n.1

  decide_total : (n : ℕ × ℕ) → decide ids l c bps now (ok n) ≡ ok (decided n)
  unfolding decide decided
  decide_total n = ground arith

  -- In a consistent ledger issue_grant returns: it never raises.
  pub issue_grant_total :
      IsConsistent l → (r : IssuanceResult × Ledger) × (issue_grant ids l c bps now ≡ ok r)
  issue_grant_total v = elim (Option-cases (lookup c.request.request_id l.grants_by_request_id)) [
    | inr (r, known) ↦ ((grant_issued r.grant, l), issue_grant_known ids l c bps now r known)
    | inl fresh ↦
        let (n, counts) = counts_total ids l c bps now v in
        (decided n, issue_grant_fresh ids l c bps now fresh ∙ rw counts (decide_total n))
  ]

  lookup-granted :
      lookup c.request.request_id (granted ids l c bps now).grants_by_request_id
      ≡ some (new_record ids c (ceiling_for l c bps))
  unfolding granted set_merchant_pool set_customer_pool write_grant
  lookup-granted =
      lookup-insert_self c.request.request_id (new_record ids c (ceiling_for l c bps))
        (prepared l c).grants_by_request_id

  -- Idempotency: after a grant on a consistent ledger, asking again for the same request, at any incentive and any time,
  -- returns the same grant and changes nothing.
  pub issue_grant_twice :
      (grant : Grant) (l' : Ledger) (bps' : ℕ) (later : Instant)
      → IsConsistent l
      → issue_grant ids l c bps now ≡ ok (grant_issued grant, l')
      → issue_grant ids l' c bps' later ≡ ok (grant_issued grant, l')
  unfolding new_record
  issue_grant_twice grant l' bps' later v e =
      elim (issue_grant_cases ids l c bps now (grant_issued grant) l' v e) [
        | inl (r, known, issued, same) ↦
            let again = issue_grant_known ids l c bps' later r known in ground arith
        | inr (inl (fresh, refused, after)) ↦ cc
        | inr (inr (n, counts, fresh, issued, after, ok_to)) ↦
            let again =
              issue_grant_known ids (granted ids l c bps now) c bps' later
                (new_record ids c (ceiling_for l c bps)) lookup-granted in
            ground arith
      ]

  -- In a consistent ledger a denial writes no grant, reference or claim and changes no pool. It does
  -- store the request, unless its id is stored already, keeping every other request, and it leaves
  -- the pools of the merchant and of the customer in the window existing, as they were seen before.
  pub issue_grant_denied :
      (res : IssuanceResult) (l' : Ledger)
      → IsConsistent l
      → issue_grant ids l c bps now ≡ ok (res, l')
      → is_denied res ≡ true
      → SameGrants l l'
        × ((w : Date) → merchant_view l' w ≡ merchant_view l w)
        × ((d : ℕ) (w : Date) → customer_view l' d w ≡ customer_view l d w)
        × ((k : ℕ)
            → lookup k l'.grant_requests ≡ (
                if c.request.request_id == k
                then some (first_stored c.request (lookup k l.grant_requests))
                else lookup k l.grant_requests))
        × (lookup (l.merchant_id, c.window_id) l'.merchant_pools
            ≡ some (merchant_view l c.window_id))
        × (lookup (c.customer_id, c.window_id) l'.customer_pools
            ≡ some (customer_view l c.customer_id c.window_id))
  issue_grant_denied res l' v e denied = elim (issue_grant_cases ids l c bps now res l' v e) [
    | inl (r, known, issued, same) ↦ ground arith
    | inr (inl (fresh, refused, after)) ↦ rw after (
      prepared-SameGrants l c,
      merchant_view-prepared l c,
      customer_view-prepared l c,
      lookup-prepared l c,
      (prepared_pools_exist l c).0,
      (prepared_pools_exist l c).1,
    )
    | inr (inr (n, counts, fresh, issued, after, ok_to)) ↦ ground arith
  ]

  ceiling_for-le-requested : ceiling_for l c bps ≤ c.risk_item.amount_paise * bps / 10_000
  unfolding ceiling_for
  ceiling_for-le-requested = downgrade_to_fit-le-requested _ _ _

  -- In a consistent ledger, for a request that has no grant yet, a grant costs at most the asked share of the authoritative amount, and at most what either
  -- pool has left.
  pub issue_grant_ceiling :
      (grant : Grant) (l' : Ledger)
      → IsConsistent l
      → lookup c.request.request_id l.grants_by_request_id ≡ none
      → issue_grant ids l c bps now ≡ ok (grant_issued grant, l')
      → (grant.incentive_ceiling_paise ≤ c.risk_item.amount_paise * bps / 10_000)
        × (pos grant.incentive_ceiling_paise ≤ℤ remaining_of (merchant_view l c.window_id))
        × (pos grant.incentive_ceiling_paise
            ≤ℤ remaining_of (customer_view l c.customer_id c.window_id))
  unfolding new_grant
  issue_grant_ceiling grant l' v fresh e =
      elim (issue_grant_cases ids l c bps now (grant_issued grant) l' v e) [
        | inl (r, known, issued, same) ↦ ground arith
        | inr (inl (also_fresh, refused, after)) ↦ cc
        | inr (inr (n, counts, also_fresh, issued, after, ok_to)) ↦
            let asked = ceiling_for-le-requested in
            let merchant = ceiling_for-le-merchant ids l c bps now ok_to.merchant_left in
            let customer = ceiling_for-le-customer ids l c bps now ok_to.customer_left in
            ground arith
      ]
