-- ===== src/Mediation/Lifecycle/Consistency.antt =====
-- The lifecycle calls of sampark/mediation/lifecycle.py and the consistency of the ledger.
use sampark.Base.{
  ℕ, ◌≡◌, refl, true, false, ok, err, some, arith, nat_eq, Option-cases, Bool-cases, inl, inr, ◌⊎◌,
  unknown_grant, subst, sym, List, [], ◌∷◌, >>=-eq-ok,
}
use sampark.Base.Int.{ℤ, pos, ◌≤ℤ◌}
use sampark.Base.Dict.{insert}
use sampark.Contracts.{
  Instant, Date, Grant, GrantState, reserved, executing, confirmed, rolled_back, expired,
}
use sampark.Budget.Ledger.{PoolRecord, GrantRecord, Ledger, get_grant_by_grant_id}
use sampark.Budget.Pools.{change_pools, release, settle}
use sampark.Budget.Pools.View.{
  merchant_view, customer_view, merchant_view-change_pools, customer_view-change_pools,
}
use sampark.Budget.Claims.{set_grant_state}
use sampark.Budget.Contact.{state_eq}
use sampark.Budget.Backing.{
  holds_margin, IsBacked, IsBacked-keep, IsBacked-release, IsBacked-settle,
}
use sampark.Budget.Expiry.{find_expired_grant_ids}
use sampark.Budget.Consistency.{
  IsConsistent, IsLinked, IsLinked-store, IsBacked-eq, SameGrants-change_pools,
}
use sampark.Mediation.Lifecycle.{
  is_legal, require_grant, execute, confirm, end_unspent, expire_all, sweep_expired,
}
use sampark.Mediation.Lifecycle.Moves.{
  Holds, moved, closed, get_grant_by_grant_id-Holds, Holds-get, execute_lem, confirm_lem,
  end_unspent_lem,
}

-- Only a grant that holds its reservation may move.
is_legal-holds_margin : (from to : GrantState) → is_legal from to ≡ true → holds_margin from ≡ true
is_legal-holds_margin reserved to h = refl
is_legal-holds_margin executing to h = refl
is_legal-holds_margin confirmed to h = cc
is_legal-holds_margin rolled_back to h = cc
is_legal-holds_margin expired to h = cc

pub change_pools-IsConsistent :
    (l : Ledger) (c : ℕ) (w : Date) (f : PoolRecord → PoolRecord)
    → IsLinked l.grants_by_request_id l.grants_by_grant_id l.grants_by_customer
    → IsBacked l.grants_by_request_id
        (merchant_view (change_pools l c w f))
        (customer_view (change_pools l c w f))
    → IsConsistent (change_pools l c w f)
change_pools-IsConsistent l c w f links backed =
    let same = SameGrants-change_pools l c w f in
    record {
      links = rw (same.same_records, same.same_refs, same.same_index) links;
      backed = simp same.same_records backed;
    }

module _ (l : Ledger) (v : IsConsistent l) (g : ℕ) (r : GrantRecord) (h : Holds l g r) where
  links_after :
      (to : GrantState)
      → IsLinked
          (insert r.request_id (set_grant_state to r) l.grants_by_request_id)
          l.grants_by_grant_id
          l.grants_by_customer
  unfolding set_grant_state
  links_after to =
      IsLinked-store l.grants_by_request_id l.grants_by_grant_id l.grants_by_customer
        (set_grant_state to r) v.links

  moved-IsConsistent :
      (at : Instant) → r.grant.state ≡ reserved → IsConsistent (moved l g r executing at)
  unfolding moved set_grant_state merchant_view customer_view
  moved-IsConsistent at e = record {
    links = links_after executing;
    backed =
        IsBacked-keep l.grants_by_request_id (merchant_view l) (customer_view l) r.request_id r
          (set_grant_state executing r) h.stored refl refl (rw e refl) refl refl v.backed;
  }

  closed_unspent-IsConsistent :
      (to : GrantState) (at : Instant)
      → is_legal r.grant.state to ≡ true
      → holds_margin to ≡ false
      → IsConsistent (closed l g r to at (release r.grant.incentive_ceiling_paise))
  unfolding closed moved set_grant_state merchant_view customer_view
  closed_unspent-IsConsistent to at legal ended =
      change_pools-IsConsistent (moved l g r to at) r.customer_id r.window_id
        (release r.grant.incentive_ceiling_paise) (links_after to)
        (IsBacked-eq _ _ _ _ _
          (merchant_view-change_pools (moved l g r to at) r.customer_id r.window_id _)
          (customer_view-change_pools (moved l g r to at) r.customer_id r.window_id _)
          (IsBacked-release l.grants_by_request_id (merchant_view l) (customer_view l) r.request_id
            r (set_grant_state to r) h.stored refl refl
            (is_legal-holds_margin r.grant.state to legal) ended v.backed))

  closed_spent-IsConsistent :
      (at : Instant) (spend : ℤ)
      → r.grant.state ≡ executing
      → spend ≤ℤ pos r.grant.incentive_ceiling_paise
      → IsConsistent (closed l g r confirmed at (settle r.grant.incentive_ceiling_paise spend))
  unfolding closed moved set_grant_state merchant_view customer_view
  closed_spent-IsConsistent at spend e bound =
      change_pools-IsConsistent (moved l g r confirmed at) r.customer_id r.window_id
        (settle r.grant.incentive_ceiling_paise spend) (links_after confirmed)
        (IsBacked-eq _ _ _ _ _
          (merchant_view-change_pools (moved l g r confirmed at) r.customer_id r.window_id _)
          (customer_view-change_pools (moved l g r confirmed at) r.customer_id r.window_id _)
          (IsBacked-settle l.grants_by_request_id (merchant_view l) (customer_view l) r.request_id r
            (set_grant_state confirmed r) h.stored refl refl (rw e refl) spend bound refl v.backed))

-- The record that a successful call found.
found_record :
    (l : Ledger) (g : ℕ)
    → IsConsistent l
    → (require_grant l g ≡ err unknown_grant) ⊎ ((r : GrantRecord) × Holds l g r)
unfolding require_grant
found_record l g v = elim (Option-cases (get_grant_by_grant_id l g)) [
  | inl e ↦ inl (ground arith)
  | inr (r, e) ↦ inr (r, get_grant_by_grant_id-Holds l g r v e)
]

IsConsistent-eq : {l m : Ledger} → l ≡ m → IsConsistent m → IsConsistent l
IsConsistent-eq e v = subst IsConsistent (sym e) v

module _ (l l' : Ledger) (v : IsConsistent l) (g : ℕ) (at : Instant) (grant : Grant) where
  pub execute-IsConsistent : execute l g at ≡ ok (grant, l') → IsConsistent l'
  unfolding execute
  execute-IsConsistent e = elim (found_record l g v) [
    | inl unknown ↦ ground arith
    | inr (r, h) ↦ by_state r h r.grant.state refl
  ]
    where
      by_state :
          (r : GrantRecord) → Holds l g r → (s : GrantState) → r.grant.state ≡ s → IsConsistent l'
      by_state r h reserved es =
          IsConsistent-eq (ground (arith, execute_lem l g r h at))
            (moved-IsConsistent l v g r h at es)
      by_state r h executing es = IsConsistent-eq (ground (arith, execute_lem l g r h at)) v
      by_state r h confirmed es = ground (arith, execute_lem l g r h at)
      by_state r h rolled_back es = ground (arith, execute_lem l g r h at)
      by_state r h expired es = ground (arith, execute_lem l g r h at)

  pub confirm-IsConsistent :
      (spend : ℤ)
      → ((r : GrantRecord)
          → get_grant_by_grant_id l g ≡ some r
          → spend ≤ℤ pos r.grant.incentive_ceiling_paise)
      → confirm l g at spend ≡ ok (grant, l')
      → IsConsistent l'
  unfolding confirm
  confirm-IsConsistent spend bound e = elim (found_record l g v) [
    | inl unknown ↦ ground arith
    | inr (r, h) ↦ by_state r h (bound r (Holds-get l g r h)) r.grant.state refl
  ]
    where
      by_state :
          (r : GrantRecord)
          → Holds l g r
          → spend ≤ℤ pos r.grant.incentive_ceiling_paise
          → (s : GrantState) → r.grant.state ≡ s
          → IsConsistent l'
      by_state r h b reserved es = ground (arith, confirm_lem l g r h at spend)
      by_state r h b executing es =
          IsConsistent-eq (ground (arith, confirm_lem l g r h at spend))
            (closed_spent-IsConsistent l v g r h at spend es b)
      by_state r h b confirmed es = IsConsistent-eq (ground (arith, confirm_lem l g r h at spend)) v
      by_state r h b rolled_back es = ground (arith, confirm_lem l g r h at spend)
      by_state r h b expired es = ground (arith, confirm_lem l g r h at spend)

  pub end_unspent-IsConsistent :
      (to : GrantState)
      → holds_margin to ≡ false
      → end_unspent to l g at ≡ ok (grant, l')
      → IsConsistent l'
  unfolding end_unspent
  end_unspent-IsConsistent to ended e = elim (found_record l g v) [
    | inl unknown ↦ ground arith
    | inr (r, h) ↦ elim (Bool-cases (state_eq r.grant.state to)) [
      | inl done ↦ IsConsistent-eq (ground (arith, end_unspent_lem l g r h to at)) v
      | inr moves ↦ elim (Bool-cases (is_legal r.grant.state to)) [
        | inl legal ↦
            IsConsistent-eq (ground (arith, end_unspent_lem l g r h to at))
              (closed_unspent-IsConsistent l v g r h to at legal ended)
        | inr illegal ↦ ground (arith, end_unspent_lem l g r h to at)
      ]
    ]
  ]

pub expire_all-IsConsistent :
    (l l' : Ledger) (gs done : List ℕ) (now : Instant)
    → IsConsistent l
    → expire_all l gs now ≡ ok (done, l')
    → IsConsistent l'
unfolding expire_all
expire_all-IsConsistent l l' [] done now v e = IsConsistent-eq (ground arith) v
expire_all-IsConsistent l l' (g ∷ gs) done now v e =
    let ((grant, l1), first, more) = >>=-eq-ok (end_unspent expired l g now) _ e in
    let ((done', l2), rest, last) = >>=-eq-ok (expire_all l1 gs now) _ more in
    IsConsistent-eq (ground arith) (
      expire_all-IsConsistent l1 l2 gs done' now
        (end_unspent-IsConsistent l l1 v g now grant expired refl first) rest)

-- A sweep of the overdue grants that returns leaves a consistent ledger consistent.
pub sweep_expired-IsConsistent :
    (l l' : Ledger) (done : List ℕ) (now : Instant)
    → IsConsistent l
    → sweep_expired l now ≡ ok (done, l')
    → IsConsistent l'
unfolding sweep_expired
sweep_expired-IsConsistent l l' done now v e =
    let (gs, found, rest) = >>=-eq-ok (find_expired_grant_ids l now) _ e in
    expire_all-IsConsistent l l' gs done now v rest
