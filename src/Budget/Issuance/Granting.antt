-- ===== src/Budget/Issuance/Granting.antt =====
-- The grants that issue_grant (sampark/budget/store.py) writes: the conditions, the pools and the
-- ledger afterwards.
use sampark.Base.{
  ℕ, ◌*◌, ◌<◌, ◌≡◌, refl, ◌∙◌, sym, ◌⊎◌, inl, inr, Bool, true, false, none, some, [], ok, nat_eq,
  pair_eq, arith, Option-cases, tally,
}
use sampark.Base.Int.{pos, ◌≤ℤ◌, leb_ℤ}
use sampark.Base.Dict.{lookup, lookup_or, insert, lookup-insert_self}
use sampark.Contracts.{Instant, Date}
use sampark.Allocator.Candidate.{Candidate}
use sampark.Budget.Windows.{usec_per_hour, usec_per_day}
use sampark.Budget.Margin.Bounds.{downgrade_to_fit-le-merchant, downgrade_to_fit-le-customer}
use sampark.Budget.Ledger.{
  GrantRecord, Ledger, rolling_contact_counts, records_for_customer, has_active_claim,
  counts_within,
}
use sampark.Budget.Pools.{set_merchant_pool, set_customer_pool, remaining_of, reserve}
use sampark.Budget.Pools.View.{
  merchant_view, customer_view, at_window, at_customer, merchant_view-set_merchant_pool,
  merchant_view-set_customer_pool, customer_view-set_merchant_pool, customer_view-set_customer_pool,
  at_window-eq, at_customer-eq,
}
use sampark.Budget.Backing.{IsBacked, IsBacked-reserve}
use sampark.Budget.Consistency.{
  IsConsistent, IsLinked, IsPresent, IsLinked-store, IsLinked-refer, IsLinked-index, IsBacked-eq,
  resolve-IsPresent,
}
use sampark.Budget.Issuance.{
  IdScheme, IssuanceResult, grant_issued, budget_denial, new_grant, new_record, write_grant,
  issue_grant,
}
use sampark.Budget.Issuance.Branches.{
  prepared, ceiling_for, granted, decide, decide_contact, prepared-SameGrants,
  merchant_view-prepared, customer_view-prepared, issue_grant_known, issue_grant_fresh,
}

abbrev pub is_denied : IssuanceResult → Bool
is_denied (grant_issued g) = false
is_denied (budget_denial reason next) = true

-- The conditions under which a new grant is written.
pub record IsGrantable (l : Ledger) (c : Candidate) (c24 c7 : ℕ) : Type 0 where
  pub merchant_left : leb_ℤ (remaining_of (merchant_view l c.window_id)) (pos 0) ≡ false
  pub customer_left :
      leb_ℤ (remaining_of (customer_view l c.customer_id c.window_id)) (pos 0) ≡ false
  pub under_24h : c24 < 1
  pub under_7d : c7 < 2
  pub slot_free : has_active_claim l c.customer_id c.window_id ≡ false

module _ (ids : IdScheme) (l : Ledger) (c : Candidate) (bps : ℕ) (now : Instant) where
  decide_cases :
      (c24 c7 : ℕ) (res : IssuanceResult) (l' : Ledger)
      → decide ids l c bps now (ok (c24, c7)) ≡ ok (res, l')
      → ((is_denied res ≡ true) × (l' ≡ prepared l c))
        ⊎ ((res ≡ grant_issued (new_grant ids c (ceiling_for l c bps)))
            × (l' ≡ granted ids l c bps now)
            × IsGrantable l c c24 c7)
  unfolding decide decide_contact
  decide_cases c24 c7 res l' e = ground arith

  pub prepared-IsConsistent : IsConsistent l → IsConsistent (prepared l c)
  prepared-IsConsistent v =
      let same = prepared-SameGrants l c in
      record {
        links = rw (same.same_records, same.same_refs, same.same_index) v.links;
        backed = simp same.same_records (
            IsBacked-eq _ _ _ _ _ (merchant_view-prepared l c) (customer_view-prepared l c)
              v.backed);
      }

  -- In a consistent ledger the contact counts are there.
  pub counts_total :
      IsConsistent l → (n : ℕ × ℕ) × (rolling_contact_counts l c.customer_id now ≡ ok n)
  unfolding rolling_contact_counts
  counts_total v =
      let (rs, e) =
        resolve-IsPresent l.grants_by_request_id (lookup_or [] c.customer_id l.grants_by_customer)
          (v.links.indexed c.customer_id) in
      (
        (
          tally (counts_within (24 * usec_per_hour) now) rs,
          tally (counts_within (7 * usec_per_day) now) rs,
        ),
        rw (e, records_for_customer) refl,
      )

  pub ceiling_for-le-merchant :
      leb_ℤ (remaining_of (merchant_view l c.window_id)) (pos 0) ≡ false
      → pos (ceiling_for l c bps) ≤ℤ remaining_of (merchant_view l c.window_id)
  unfolding ceiling_for
  ceiling_for-le-merchant h = downgrade_to_fit-le-merchant _ _ _ h

  pub ceiling_for-le-customer :
      leb_ℤ (remaining_of (customer_view l c.customer_id c.window_id)) (pos 0) ≡ false
      → pos (ceiling_for l c bps) ≤ℤ remaining_of (customer_view l c.customer_id c.window_id)
  unfolding ceiling_for
  ceiling_for-le-customer h = downgrade_to_fit-le-customer _ _ _ h

  merchant_view-write_grant :
      (w : Date)
      → merchant_view (write_grant ids (prepared l c) c (ceiling_for l c bps) now) w
        ≡ merchant_view l w
  unfolding merchant_view write_grant
  merchant_view-write_grant w = merchant_view-prepared l c w

  customer_view-write_grant :
      (d : ℕ) (w : Date)
      → customer_view (write_grant ids (prepared l c) c (ceiling_for l c bps) now) d w
        ≡ customer_view l d w
  unfolding customer_view write_grant
  customer_view-write_grant d w = customer_view-prepared l c d w

  pub merchant_view-granted :
      (w : Date)
      → merchant_view (granted ids l c bps now) w
        ≡ at_window (reserve (ceiling_for l c bps)) c.window_id (merchant_view l) w
  unfolding granted
  merchant_view-granted w =
      merchant_view-set_customer_pool _ c.customer_id c.window_id _ w
      ∙ merchant_view-set_merchant_pool _ c.window_id _ w
      ∙ rw (merchant_view-write_grant w)
          (at_window-eq (reserve (ceiling_for l c bps)) c.window_id (merchant_view l) w)

  pub customer_view-granted :
      (d : ℕ) (w : Date)
      → customer_view (granted ids l c bps now) d w
        ≡ at_customer
            (reserve (ceiling_for l c bps))
            c.customer_id
            c.window_id
            (customer_view l)
            d
            w
  unfolding granted
  customer_view-granted d w =
      customer_view-set_customer_pool _ c.customer_id c.window_id _ d w
      ∙ rw (customer_view-set_merchant_pool _ c.window_id _ d w, customer_view-write_grant d w)
          (at_customer-eq (reserve (ceiling_for l c bps)) c.customer_id c.window_id
            (customer_view l) d w)

  granted_links :
      IsConsistent l
      → IsLinked
          (granted ids l c bps now).grants_by_request_id
          (granted ids l c bps now).grants_by_grant_id
          (granted ids l c bps now).grants_by_customer
  unfolding granted set_merchant_pool set_customer_pool write_grant new_record
  granted_links v =
      let p = prepared l c in
      let r = new_record ids c (ceiling_for l c bps) in
      let records = insert c.request.request_id r p.grants_by_request_id in
      let here : IsPresent records c.request.request_id =
        (r, lookup-insert_self c.request.request_id r p.grants_by_request_id) in
      let stored : IsLinked records p.grants_by_grant_id p.grants_by_customer =
        IsLinked-store _ _ _ r (prepared-IsConsistent v).links in
      IsLinked-index records _ p.grants_by_customer c.customer_id c.request.request_id here (
        IsLinked-refer records _ _ (ids.grant_id_for c.request.request_id) c.request.request_id here
          stored)

  granted-IsBacked :
      IsConsistent l
      → lookup c.request.request_id l.grants_by_request_id ≡ none
      → leb_ℤ (remaining_of (merchant_view l c.window_id)) (pos 0) ≡ false
      → leb_ℤ (remaining_of (customer_view l c.customer_id c.window_id)) (pos 0) ≡ false
      → IsBacked
          (granted ids l c bps now).grants_by_request_id
          (merchant_view (granted ids l c bps now))
          (customer_view (granted ids l c bps now))
  unfolding granted set_merchant_pool set_customer_pool write_grant new_record new_grant
  granted-IsBacked v fresh hm hc =
      let same = prepared-SameGrants l c in
      let records = (prepared l c).grants_by_request_id in
      let before : IsBacked records (merchant_view l) (customer_view l) =
        rw same.same_records v.backed in
      let still_fresh : lookup c.request.request_id records ≡ none = rw same.same_records fresh in
      IsBacked-eq _ _ _ _ _ merchant_view-granted customer_view-granted (
        IsBacked-reserve records (merchant_view l) (customer_view l) c.request.request_id
          (new_record ids c (ceiling_for l c bps)) still_fresh refl (ceiling_for-le-merchant hm)
          (ceiling_for-le-customer hc) before)

  pub granted-IsConsistent :
      IsConsistent l
      → lookup c.request.request_id l.grants_by_request_id ≡ none
      → leb_ℤ (remaining_of (merchant_view l c.window_id)) (pos 0) ≡ false
      → leb_ℤ (remaining_of (customer_view l c.customer_id c.window_id)) (pos 0) ≡ false
      → IsConsistent (granted ids l c bps now)
  granted-IsConsistent v fresh hm hc = record {
    links = granted_links v;
    backed = granted-IsBacked v fresh hm hc;
  }

  -- What a call that returned has done.
  pub issue_grant_cases :
      (res : IssuanceResult) (l' : Ledger)
      → IsConsistent l
      → issue_grant ids l c bps now ≡ ok (res, l')
      → ((r : GrantRecord) × (lookup c.request.request_id l.grants_by_request_id ≡ some r)
          × (res ≡ grant_issued r.grant)
          × (l' ≡ l))
        ⊎ ((lookup c.request.request_id l.grants_by_request_id ≡ none)
            × (is_denied res ≡ true)
            × (l' ≡ prepared l c))
        ⊎ ((n : ℕ × ℕ) × (rolling_contact_counts l c.customer_id now ≡ ok n)
            × (lookup c.request.request_id l.grants_by_request_id ≡ none)
            × (res ≡ grant_issued (new_grant ids c (ceiling_for l c bps)))
            × (l' ≡ granted ids l c bps now)
            × IsGrantable l c n.0 n.1)
  issue_grant_cases res l' v e =
      elim (Option-cases (lookup c.request.request_id l.grants_by_request_id)) [
        | inr (r, known) ↦
            let same = sym (issue_grant_known ids l c bps now r known) ∙ e in
            inl (r, known, ground arith, ground arith)
        | inl fresh ↦
            let (n, counts) = counts_total v in
            let decided : decide ids l c bps now (ok n) ≡ ok (res, l') =
              rw (← counts) (sym (issue_grant_fresh ids l c bps now fresh) ∙ e) in
            elim (decide_cases n.0 n.1 res l' decided) [
              | inl (refused, same) ↦ inr (inl (fresh, refused, same))
              | inr (issued, after, grantable) ↦
                  inr (inr (n, counts, fresh, issued, after, grantable))
            ]
      ]
