-- ===== src/Mediation/Lifecycle/History.antt =====
-- Any history of calls on a new ledger: issue_grant (sampark/budget/store.py), the lifecycle calls
-- and the sweep (sampark/mediation/lifecycle.py), terminal denials and margin previews.
use sampark.Base.{ℕ, ◌≡◌, refl, List, some, ok, nat_eq, subst, sym}
use sampark.Base.Int.{ℤ, pos, ◌≤ℤ◌}
use sampark.Base.Dict.{Dict, sum_of}
use sampark.Contracts.{Instant, Date, RiskItem, Grant, rolled_back, expired}
use sampark.Allocator.Candidate.{Candidate}
use sampark.Budget.Ledger.{
  GrantRecord, Ledger, new_ledger, mark_terminally_denied, get_grant_by_grant_id,
}
use sampark.Budget.Pools.{remaining_margin_paise}
use sampark.Budget.Pools.View.{
  merchant_view, customer_view, both_pools, merchant_view-both_pools, customer_view-both_pools,
}
use sampark.Budget.Backing.{Backs, held_in, held_for}
use sampark.Budget.Consistency.{
  IsConsistent, IsBacked-eq, SameGrants-both_pools, new_ledger-IsConsistent,
}
use sampark.Budget.Issuance.{IdScheme, IssuanceResult, issue_grant}
use sampark.Budget.Issuance.Safety.{issue_grant-IsConsistent}
use sampark.Mediation.Lifecycle.{execute, confirm, rollback, expire, sweep_expired}
use sampark.Mediation.Lifecycle.Consistency.{
  execute-IsConsistent, confirm-IsConsistent, end_unspent-IsConsistent, sweep_expired-IsConsistent,
}

-- A call that returned. A confirmation books at most the ceiling that was granted.
pub data Step (ids : IdScheme) (l l' : Ledger) : Type 0 where
  issues :
      (c : Candidate) (bps : ℕ) (now : Instant) (res : IssuanceResult)
      → issue_grant ids l c bps now ≡ ok (res, l')
      → Step ids l l'
  executes :
      (g : ℕ) (at : Instant) (grant : Grant) → execute l g at ≡ ok (grant, l') → Step ids l l'
  confirms :
      (g : ℕ) (at : Instant) (spend : ℤ) (grant : Grant)
      → ((r : GrantRecord)
          → get_grant_by_grant_id l g ≡ some r
          → spend ≤ℤ pos r.grant.incentive_ceiling_paise)
      → confirm l g at spend ≡ ok (grant, l')
      → Step ids l l'
  rolls_back :
      (g : ℕ) (at : Instant) (grant : Grant) → rollback l g at ≡ ok (grant, l') → Step ids l l'
  expires : (g : ℕ) (at : Instant) (grant : Grant) → expire l g at ≡ ok (grant, l') → Step ids l l'
  sweeps : (now : Instant) (done : List ℕ) → sweep_expired l now ≡ ok (done, l') → Step ids l l'
  denies : (risk_id : ℕ) → l' ≡ mark_terminally_denied l risk_id → Step ids l l'
  previews : (c : ℕ) (w : Date) → l' ≡ (remaining_margin_paise l c w).1 → Step ids l l'

pub data Reach (ids : IdScheme) (l : Ledger) : Ledger → Type 0 where
  here : Reach ids l l
  next : {m n : Ledger} → Reach ids l m → Step ids m n → Reach ids l n

mark_terminally_denied-IsConsistent :
    (l : Ledger) (risk_id : ℕ) → IsConsistent l → IsConsistent (mark_terminally_denied l risk_id)
unfolding mark_terminally_denied merchant_view customer_view
mark_terminally_denied-IsConsistent l risk_id v = record { links = v.links; backed = v.backed }

both_pools-IsConsistent :
    (l : Ledger) (c : ℕ) (w : Date) → IsConsistent l → IsConsistent (both_pools l c w)
both_pools-IsConsistent l c w v =
    let same = SameGrants-both_pools l c w in
    record {
      links = rw (same.same_records, same.same_refs, same.same_index) v.links;
      backed = simp same.same_records (
          IsBacked-eq _ _ _ _ _ (merchant_view-both_pools l c w) (customer_view-both_pools l c w)
            v.backed);
    }

remaining_margin_paise-both_pools :
    (l : Ledger) (c : ℕ) (w : Date) → (remaining_margin_paise l c w).1 ≡ both_pools l c w
unfolding remaining_margin_paise both_pools
remaining_margin_paise-both_pools l c w = refl

pub Step-IsConsistent :
    (ids : IdScheme) (l l' : Ledger) → Step ids l l' → IsConsistent l → IsConsistent l'
unfolding rollback expire
Step-IsConsistent ids l l' (issues c bps now res e) v =
    issue_grant-IsConsistent ids l c bps now res l' v e
Step-IsConsistent ids l l' (executes g at grant e) v = execute-IsConsistent l l' v g at grant e
Step-IsConsistent ids l l' (confirms g at spend grant bound e) v =
    confirm-IsConsistent l l' v g at grant spend bound e
Step-IsConsistent ids l l' (rolls_back g at grant e) v =
    end_unspent-IsConsistent l l' v g at grant rolled_back refl e
Step-IsConsistent ids l l' (expires g at grant e) v =
    end_unspent-IsConsistent l l' v g at grant expired refl e
Step-IsConsistent ids l l' (sweeps now done e) v = sweep_expired-IsConsistent l l' done now v e
Step-IsConsistent ids l l' (denies risk_id e) v =
    subst IsConsistent (sym e) (mark_terminally_denied-IsConsistent l risk_id v)
Step-IsConsistent ids l l' (previews c w e) v =
    rw (e, remaining_margin_paise-both_pools l c w) (both_pools-IsConsistent l c w v)

pub Reach-IsConsistent :
    (ids : IdScheme) (l l' : Ledger) → Reach ids l l' → IsConsistent l → IsConsistent l'
Reach-IsConsistent ids l l' here v = v
Reach-IsConsistent ids l l' (next {m = m} r s) v =
    Step-IsConsistent ids m l' s (Reach-IsConsistent ids l m r v)

-- After any history, a merchant pool and a customer pool have reserved exactly the ceilings of the
-- grants that still hold a reservation on them, and reserved plus spent is within the budget. The
-- history may hold issues, executions, confirmations of at most the ceiling, rollbacks, expiries,
-- sweeps, terminal denials and previews.
pub history_backed :
    (ids : IdScheme) (items : Dict ℕ (List RiskItem)) (merchant budget : ℕ) (l : Ledger)
    → Reach ids (new_ledger items merchant budget) l
    → ((w : Date) → Backs (sum_of (held_in w) l.grants_by_request_id) (merchant_view l w))
      × ((c : ℕ) (w : Date)
          → Backs (sum_of (held_for c w) l.grants_by_request_id) (customer_view l c w))
history_backed ids items merchant budget l r =
    let v = Reach-IsConsistent ids _ l r (new_ledger-IsConsistent items merchant budget) in
    (v.backed.merchant_backed, v.backed.customer_backed)
