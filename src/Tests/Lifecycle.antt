-- ===== src/Tests/Lifecycle.antt =====
-- sampark/mediation/lifecycle.py at concrete inputs.
use sampark.Budget.Margin.{customer_margin_budget_paise}
use sampark.Base.{some_injective, ℕ, arith, ◌≡◌, sym, subst, ◌∙◌, some, refl, ok, nat_eq, [], ◌∷◌}
use sampark.Base.Int.{pos, ◌≤ℤ◌, ◌-ℤ◌}
use sampark.Base.Dict.{sum_of}
use sampark.Contracts.{Instant, Date, Grant, executing, confirmed, expired}
use sampark.Budget.Ledger.{ClaimRecord, Ledger, GrantRecord, get_grant_by_grant_id, new_ledger}
use sampark.Budget.Pools.View.{merchant_view, customer_view}
use sampark.Budget.Backing.{Backs, held_in, held_for}
use sampark.Budget.Issuance.{grant_issued, issue_grant}
use sampark.Budget.Consistency.{IsConsistent}
use sampark.Mediation.Lifecycle.{execute, confirm, end_unspent, rollback, expire, sweep_expired}
use sampark.Budget.Claims.Search.{claim_for_grant}
use sampark.Mediation.Lifecycle.Moves.{Holds}
use sampark.Mediation.Lifecycle.Consistency.{sweep_expired-IsConsistent}
use sampark.Mediation.Lifecycle.Effects.{
  Closes, end_unspent-Closes, confirm-Closes, IsFrozen, terminal-IsFrozen,
}
use sampark.Mediation.Lifecycle.History.{
  issues, executes, confirms, Reach, here, next, history_backed,
}
use sampark.Tests.Data.{
  ids, items, candidate, empty_ledger, nine, ten, ledger_of, offer, offer_record,
}
use sampark.Tests.Budget.{granted_ledger, first_grant, granted_ledger-IsConsistent}

abbrev running : Grant
running = record offer { state = executing }

abbrev running_record : GrantRecord
running_record = record offer_record { grant = running }

abbrev done : Grant
done = record offer { state = confirmed }

abbrev done_record : GrantRecord
done_record = record offer_record { grant = done }

abbrev running_ledger : Ledger
running_ledger = ledger_of (execute granted_ledger 1_100 nine)

abbrev done_ledger : Ledger
done_ledger = ledger_of (confirm running_ledger 1_100 ten (pos 30_000))

runs : execute granted_ledger 1_100 nine ≡ ok (running, running_ledger)
unfolding execute issue_grant new_ledger ◌-ℤ◌ customer_margin_budget_paise
runs = refl

finishes : confirm running_ledger 1_100 ten (pos 30_000) ≡ ok (done, done_ledger)
unfolding confirm execute issue_grant new_ledger ◌-ℤ◌ customer_margin_budget_paise
finishes = refl

granted_holds : Holds granted_ledger 1_100 offer_record
unfolding confirm execute issue_grant new_ledger ◌-ℤ◌ customer_margin_budget_paise
    get_grant_by_grant_id sweep_expired expire
granted_holds = record { referred = refl; stored = refl }

running_holds : Holds running_ledger 1_100 running_record
unfolding confirm execute issue_grant new_ledger ◌-ℤ◌ customer_margin_budget_paise
    get_grant_by_grant_id sweep_expired expire
running_holds = record { referred = refl; stored = refl }

done_holds : Holds done_ledger 1_100 done_record
unfolding confirm execute issue_grant new_ledger ◌-ℤ◌ customer_margin_budget_paise
    get_grant_by_grant_id sweep_expired expire
done_holds = record { referred = refl; stored = refl }

its_claim : (c : ClaimRecord) × (claim_for_grant 1_100 running_ledger.claims ≡ some c)
unfolding confirm execute issue_grant new_ledger ◌-ℤ◌ customer_margin_budget_paise
    get_grant_by_grant_id sweep_expired expire
its_claim = (_, refl)

found : get_grant_by_grant_id running_ledger 1_100 ≡ some running_record
unfolding confirm execute issue_grant new_ledger ◌-ℤ◌ customer_margin_budget_paise
    get_grant_by_grant_id sweep_expired expire
found = refl

within :
    (r : GrantRecord)
    → get_grant_by_grant_id running_ledger 1_100 ≡ some r
    → pos 30_000 ≤ℤ pos r.grant.incentive_ceiling_paise
within r e =
    let same : running_record ≡ r = some_injective (sym found ∙ e) in
    subst (λ (q : GrantRecord). pos 30_000 ≤ℤ pos q.grant.incentive_ceiling_paise) same
      (omega arith)

history : Reach ids empty_ledger done_ledger
history =
    next
      (next (next here (issues candidate 500 nine (grant_issued offer) first_grant))
        (executes 1_100 nine running runs))
      (confirms 1_100 ten (pos 30_000) done within finishes)

history_backed_example :
    ((w : Date)
      → Backs (sum_of (held_in w) done_ledger.grants_by_request_id) (merchant_view done_ledger w))
    × ((c : ℕ) (w : Date)
        → Backs
            (sum_of (held_for c w) done_ledger.grants_by_request_id)
            (customer_view done_ledger c w))
history_backed_example = history_backed ids items 9 500_000 done_ledger history

end_unspent-Closes_example :
    (l' : Ledger) × (end_unspent expired granted_ledger 1_100 ten
      ≡ ok (record offer { state = expired }, l'))
    × Closes granted_ledger l' 1_100 offer_record expired (λ before. some ten) (pos 0)
end_unspent-Closes_example =
    end_unspent-Closes granted_ledger 1_100 offer_record granted_holds expired ten refl refl

confirm-Closes_example :
    (l' : Ledger) × (confirm running_ledger 1_100 ten (pos 30_000)
      ≡ ok (record running { state = confirmed }, l'))
    × Closes running_ledger l' 1_100 running_record confirmed (λ before. before) (pos 30_000)
confirm-Closes_example =
    confirm-Closes running_ledger 1_100 running_record running_holds ten (pos 30_000) refl

terminal-IsFrozen_example :
    IsFrozen done_ledger 1_100 done_record done_holds (execute done_ledger 1_100 ten)
    × IsFrozen done_ledger 1_100 done_record done_holds (confirm done_ledger 1_100 ten (pos 20_000))
    × IsFrozen done_ledger 1_100 done_record done_holds (rollback done_ledger 1_100 ten)
    × IsFrozen done_ledger 1_100 done_record done_holds (expire done_ledger 1_100 ten)
terminal-IsFrozen_example =
    terminal-IsFrozen done_ledger 1_100 done_record done_holds ten (pos 20_000) refl

-- Twelve hours later the reservation is overdue.
abbrev late : Instant
late = 1_728_059_400_000_000

abbrev swept_ledger : Ledger
swept_ledger = ledger_of (sweep_expired granted_ledger late)

sweeps_one : sweep_expired granted_ledger late ≡ ok (1_100 ∷ [], swept_ledger)
unfolding confirm execute issue_grant new_ledger ◌-ℤ◌ customer_margin_budget_paise
    get_grant_by_grant_id sweep_expired expire
sweeps_one = refl

sweep_expired-IsConsistent_example : IsConsistent swept_ledger
sweep_expired-IsConsistent_example =
    sweep_expired-IsConsistent granted_ledger swept_ledger (1_100 ∷ []) late
      granted_ledger-IsConsistent sweeps_one
