-- ===== src/Tests/Budget.antt =====
-- sampark/budget/ at concrete inputs.
use sampark.Budget.Margin.{customer_margin_budget_paise}
use sampark.Base.{
  ℕ, ◌≡◌, ◌≤◌, ◌<◌, ◌*◌, ◌/◌, true, false, none, some, refl, ok, nat_eq, pair_eq, ◌==◌,
  if◌then◌else◌,
}
use sampark.Base.Int.{pos, ◌≤ℤ◌, ◌-ℤ◌, ◌+ℤ◌}
use sampark.Base.Dict.{lookup}
use sampark.Contracts.{Instant, Date, customer_margin_exhausted}
use sampark.Budget.Windows.{is_quiet_hours, next_quiet_hours_boundary, next_window_start}
use sampark.Budget.Windows.Bounds.{IsBoundary, next_quiet_hours_boundary-IsBoundary}
use sampark.Budget.Ledger.{Ledger, rolling_contact_counts, has_active_claim, new_ledger}
use sampark.Budget.Pools.{remaining_of}
use sampark.Budget.Pools.View.{merchant_view, customer_view}
use sampark.Budget.Issuance.{IssuanceResult, grant_issued, budget_denial, issue_grant}
use sampark.Budget.Consistency.{IsConsistent, SameGrants, new_ledger-IsConsistent}
use sampark.Budget.Issuance.Branches.{first_stored}
use sampark.Budget.Issuance.Safety.{
  issue_grant-IsConsistent, issue_grant_total, issue_grant_twice, issue_grant_denied,
  issue_grant_ceiling,
}
use sampark.Budget.Issuance.Caps.{issue_grant_caps}
use sampark.Allocator.Candidate.{Candidate}
use sampark.Tests.Data.{ids, items, ask, candidate, empty_ledger, nine, ten, ledger_of, offer}

abbrev pub granted_ledger : Ledger
granted_ledger = ledger_of (issue_grant ids empty_ledger candidate 500 nine)

pub first_grant :
    issue_grant ids empty_ledger candidate 500 nine ≡ ok (grant_issued offer, granted_ledger)
unfolding issue_grant new_ledger ◌-ℤ◌ customer_margin_budget_paise
first_grant = refl

empty_ledger-IsConsistent : IsConsistent empty_ledger
empty_ledger-IsConsistent = new_ledger-IsConsistent items 9 500_000

nothing_known : lookup 100 empty_ledger.grants_by_request_id ≡ none
unfolding lookup new_ledger
nothing_known = refl

issue_grant_caps_example :
    (n n' : ℕ × ℕ) × (rolling_contact_counts empty_ledger 1 nine ≡ ok n)
    × (n.0 ≡ 0)
    × (n.1 < 2)
    × (has_active_claim empty_ledger 1 20_000 ≡ false)
    × (rolling_contact_counts granted_ledger 1 nine ≡ ok n')
    × (n'.0 ≤ 1)
    × (n'.1 ≤ 2)
    × (has_active_claim granted_ledger 1 20_000 ≡ true)
issue_grant_caps_example =
    issue_grant_caps ids empty_ledger candidate 500 nine offer granted_ledger
      empty_ledger-IsConsistent nothing_known first_grant

issue_grant_total_example :
    (r : IssuanceResult × Ledger) × (issue_grant ids empty_ledger candidate 500 nine ≡ ok r)
issue_grant_total_example =
    issue_grant_total ids empty_ledger candidate 500 nine empty_ledger-IsConsistent

issue_grant_twice_example :
    issue_grant ids granted_ledger candidate 300 ten ≡ ok (grant_issued offer, granted_ledger)
issue_grant_twice_example =
    issue_grant_twice ids empty_ledger candidate 500 nine offer granted_ledger 300 ten
      empty_ledger-IsConsistent first_grant

issue_grant_ceiling_example :
    (50_000 ≤ 1_000_000 * 500 / 10_000)
    × (pos 50_000 ≤ℤ remaining_of (merchant_view empty_ledger 20_000))
    × (pos 50_000 ≤ℤ remaining_of (customer_view empty_ledger 1 20_000))
issue_grant_ceiling_example =
    issue_grant_ceiling ids empty_ledger candidate 500 nine offer granted_ledger
      empty_ledger-IsConsistent nothing_known first_grant

-- A second request of the same customer, an hour later, after the first was granted.
abbrev again : Candidate
again = record candidate { request = record ask { request_id = 101 } }

abbrev denied_ledger : Ledger
denied_ledger = ledger_of (issue_grant ids granted_ledger again 500 ten)

abbrev refusal : IssuanceResult
refusal = budget_denial customer_margin_exhausted (some 1_728_099_000_000_000)

second_denied : issue_grant ids granted_ledger again 500 ten ≡ ok (refusal, denied_ledger)
unfolding lookup new_ledger issue_grant ◌-ℤ◌ customer_margin_budget_paise ◌+ℤ◌ next_window_start
second_denied = refl

pub granted_ledger-IsConsistent : IsConsistent granted_ledger
granted_ledger-IsConsistent =
    issue_grant-IsConsistent ids empty_ledger candidate 500 nine (grant_issued offer) granted_ledger
      empty_ledger-IsConsistent first_grant

issue_grant_denied_example :
    SameGrants granted_ledger denied_ledger
    × ((w : Date) → merchant_view denied_ledger w ≡ merchant_view granted_ledger w)
    × ((d : ℕ) (w : Date) → customer_view denied_ledger d w ≡ customer_view granted_ledger d w)
    × ((k : ℕ)
        → lookup k denied_ledger.grant_requests ≡ (
            if again.request.request_id == k
            then some (first_stored again.request (lookup k granted_ledger.grant_requests))
            else lookup k granted_ledger.grant_requests))
    × (lookup (granted_ledger.merchant_id, again.window_id) denied_ledger.merchant_pools
        ≡ some (merchant_view granted_ledger again.window_id))
    × (lookup (again.customer_id, again.window_id) denied_ledger.customer_pools
        ≡ some (customer_view granted_ledger again.customer_id again.window_id))
issue_grant_denied_example =
    issue_grant_denied ids granted_ledger again 500 ten refusal denied_ledger
      granted_ledger-IsConsistent second_denied refl

-- 22:00 on the day of the candidate.
abbrev late : Instant
late = 1_728_059_400_000_000

late_is_quiet : is_quiet_hours late ≡ true
unfolding is_quiet_hours
late_is_quiet = refl

next_quiet_hours_boundary-IsBoundary_example :
    (boundary : Instant) × (next_quiet_hours_boundary late ≡ ok boundary) × IsBoundary late boundary
next_quiet_hours_boundary-IsBoundary_example =
    next_quiet_hours_boundary-IsBoundary late late_is_quiet
