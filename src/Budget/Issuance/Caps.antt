-- ===== src/Budget/Issuance/Caps.antt =====
-- The contact caps and the claim of a new grant. (sampark/budget/store.py)
use sampark.Base.{
  ℕ, ◌+◌, ◌*◌, ◌≤◌, ◌<◌, ◌≡◌, refl, inl, inr, Bool, true, false, none, List, [], ◌∷◌, ◌++◌, ok,
  nat_eq, pair_eq, arith, tally, tally-append, any, ==_refl, >>=-eq-ok,
}
use sampark.Base.Dict.{lookup, lookup_or, insert, lookup-insert_self, lookup_or-insert}
use sampark.Contracts.{Instant, Grant}
use sampark.Allocator.Candidate.{Candidate}
use sampark.Budget.Windows.{usec_per_hour, usec_per_day}
use sampark.Budget.Contact.{consumes_capacity}
use sampark.Budget.Ledger.{
  GrantRecord, ClaimRecord, Ledger, rolling_contact_counts, records_for_customer, counts_within,
  has_active_claim, claims_at, resolve,
}
use sampark.Budget.Pools.{set_merchant_pool, set_customer_pool}
use sampark.Budget.Consistency.{IsConsistent}
use sampark.Budget.Consistency.Resolve.{resolve-append, resolve-insert}
use sampark.Budget.Issuance.{
  IdScheme, grant_issued, issue_grant, new_record, new_claim, write_grant,
}
use sampark.Budget.Issuance.Branches.{prepared, ceiling_for, granted, prepared-SameGrants}
use sampark.Budget.Issuance.Granting.{issue_grant_cases}

module _ (ids : IdScheme) (l : Ledger) (c : Candidate) (bps : ℕ) (now : Instant) where
  new : GrantRecord
  new = new_record ids c (ceiling_for l c bps)

  -- The customer's records after the grant: the old ones and the new one.
  records_for_customer-granted :
      (rs : List GrantRecord)
      → lookup c.request.request_id l.grants_by_request_id ≡ none
      → records_for_customer l c.customer_id ≡ ok rs
      → records_for_customer (granted ids l c bps now) c.customer_id ≡ ok (rs ++ new ∷ [])
  unfolding records_for_customer granted set_merchant_pool set_customer_pool write_grant new
  records_for_customer-granted rs fresh e =
      let same = prepared-SameGrants l c in
      let rid = c.request.request_id in
      let records = insert rid new (prepared l c).grants_by_request_id in
      let known = lookup_or [] c.customer_id (prepared l c).grants_by_customer in
      let still_fresh : lookup rid (prepared l c).grants_by_request_id ≡ none =
        rw same.same_records fresh in
      let old : resolve (prepared l c).grants_by_request_id known ≡ ok rs =
        rw (same.same_records, same.same_index) e in
      let last : resolve records (rid ∷ []) ≡ ok (new ∷ []) =
        ground (arith, lookup-insert_self rid new (prepared l c).grants_by_request_id) in
      rw
        (
          lookup_or-insert [] c.customer_id c.customer_id (known ++ rid ∷ [])
              (prepared l c).grants_by_customer,
          ==_refl c.customer_id,
        )
        (resolve-append records known (rid ∷ []) rs (new ∷ [])
          (resolve-insert (prepared l c).grants_by_request_id rid new known rs still_fresh old)
          last)

  new_counts-le : (interval : ℕ) → tally (counts_within interval now) (new ∷ []) ≤ 1
  new_counts-le interval = ground arith

  -- The counts after a grant exceed those before it by at most one.
  rolling_contact_counts-granted :
      (c24 c7 : ℕ)
      → lookup c.request.request_id l.grants_by_request_id ≡ none
      → rolling_contact_counts l c.customer_id now ≡ ok (c24, c7)
      → (n : ℕ × ℕ) × (rolling_contact_counts (granted ids l c bps now) c.customer_id now ≡ ok n)
        × (n.0 ≤ c24 + 1)
        × (n.1 ≤ c7 + 1)
  unfolding rolling_contact_counts
  rolling_contact_counts-granted c24 c7 fresh e =
      let (rs, found, counted) = >>=-eq-ok (records_for_customer l c.customer_id) _ e in
      let after = records_for_customer-granted rs fresh found in
      let all = rs ++ new ∷ [] in
      let day = counts_within (24 * usec_per_hour) now in
      let week = counts_within (7 * usec_per_day) now in
      (
        (tally day all, tally week all),
        ground (arith, after),
        ground (arith, tally-append day rs (new ∷ []), new_counts-le (24 * usec_per_hour)),
        ground (arith, tally-append week rs (new ∷ []), new_counts-le (7 * usec_per_day)),
      )

  any-append_last :
      (p : ClaimRecord → Bool) (xs : List ClaimRecord) (x : ClaimRecord)
      → p x ≡ true
      → any p (xs ++ x ∷ []) ≡ true
  any-append_last p [] x h = ground arith
  any-append_last p (y ∷ ys) x h = ground (arith, any-append_last p ys x h)

  has_active_claim-granted :
      has_active_claim (granted ids l c bps now) c.customer_id c.window_id ≡ true
  unfolding has_active_claim claims_at granted set_merchant_pool set_customer_pool write_grant
      new_claim
  has_active_claim-granted =
      let old = lookup_or [] (c.customer_id, c.window_id) (prepared l c).claims in
      rw
        (
          lookup_or-insert [] (c.customer_id, c.window_id) (c.customer_id, c.window_id)
              (old ++ new_claim ids c now ∷ []) (prepared l c).claims,
          ==_refl c.customer_id,
          ==_refl c.window_id,
        )
        (any-append_last (λ claim. consumes_capacity claim.state) old (new_claim ids c now) refl)

  -- In a consistent ledger, for a request that has no grant yet, a grant is written only if the customer had no contact in the last 24 hours, fewer than two
  -- in the last 7 days, and no active claim on the window. After it the counts at that time are
  -- within the caps of 1 and 2, and the window is claimed.
  pub issue_grant_caps :
      (grant : Grant) (l' : Ledger)
      → IsConsistent l
      → lookup c.request.request_id l.grants_by_request_id ≡ none
      → issue_grant ids l c bps now ≡ ok (grant_issued grant, l')
      → (n n' : ℕ × ℕ) × (rolling_contact_counts l c.customer_id now ≡ ok n)
        × (n.0 ≡ 0)
        × (n.1 < 2)
        × (has_active_claim l c.customer_id c.window_id ≡ false)
        × (rolling_contact_counts l' c.customer_id now ≡ ok n')
        × (n'.0 ≤ 1)
        × (n'.1 ≤ 2)
        × (has_active_claim l' c.customer_id c.window_id ≡ true)
  issue_grant_caps grant l' v fresh e =
      elim (issue_grant_cases ids l c bps now (grant_issued grant) l' v e) [
        | inl (r, known, issued, same) ↦ ground arith
        | inr (inl (also_fresh, refused, after)) ↦ cc
        | inr (inr (n, counts, also_fresh, issued, after, ok_to)) ↦
            let (n', counts', le_day, le_week) =
              rolling_contact_counts-granted n.0 n.1 fresh counts in
            (
              n,
              n',
              counts,
              omega (arith, ok_to.under_24h),
              ok_to.under_7d,
              ok_to.slot_free,
              rw after counts',
              omega (arith, ok_to.under_24h, le_day),
              omega (arith, ok_to.under_7d, le_week),
              rw after has_active_claim-granted,
            )
      ]
