-- ===== src/Tests/Allocator.antt =====
-- sampark/allocator/ at concrete inputs, with numbers for the floats and a scorer that values a
-- candidate at its amount.
use sampark.Budget.Windows.{window_id_for}
use sampark.Base.Int.{◌-ℤ◌}
use sampark.Budget.Margin.{customer_margin_budget_paise}
use sampark.Base.{
  ◌||◌, ℕ, ◌+◌, ◌≡◌, ◌≤◌, ◌<◌, ◌⊎◌, false, ltb, ◌==◌, List, [], ◌∷◌, none, some, refl, ok, err,
  Result, length, tally, arith, contains, nat_eq,
}
use sampark.Contracts.{
  Instant, ReasonCode, lost_to_higher_expected_net, contact_cap_24h, deferral_exhausted,
}
use sampark.Allocator.Candidate.{Candidate, IsValid, build_candidate, build_candidate-IsValid}
use sampark.Allocator.Scoring.{Floats, Scorer}
use sampark.Allocator.Outcomes.{denied, AllocationOutcome, deferred, deferred_or_denied}
use sampark.Allocator.Outcomes.Aging.{
  IsPutOff, deferred_or_denied_cases, IsUngranted, put_off_for, put_off_for_bounded,
}
use sampark.Allocator.Greedy.{Settings}
use sampark.Allocator.Greedy.Window.{allocate_window}
use sampark.Allocator.Greedy.Exclusivity.{is_grant_for, allocate_window_exclusive}
use sampark.Budget.Ledger.{Ledger, contacts_made, new_ledger, open_candidates_for_customer}
use sampark.Budget.Issuance.{issue_grant}
use sampark.Tests.Data.{ids, ask, cart, candidate, empty_ledger, nine, ten, ledger_of}

abbrev naturals : Floats ℕ
naturals = record {
  of_int = λ n. n;
  add = λ a b. a + b;
  lt = ltb;
  eq = λ a b. a == b;
  is_nonpos = λ a. a == 0;
}

abbrev by_amount : Scorer ℕ
by_amount c bps n others = ok (record {
  p_hat = 1;
  gross_paise = c.risk_item.amount_paise;
  incentive_expected_paise = 0;
  channel_cost_paise = 0;
  fatigue_cost_paise = 0;
  expected_net_paise = c.risk_item.amount_paise;
})

abbrev pub settings : Settings ℕ
settings = record {
  floats = naturals;
  scorer = by_amount;
  issuer = issue_grant ids;
  decision_at = nine;
  aging_bonus_paise = 500;
  fifo_mode = false;
  gaps = [];
}

-- A larger claim of the same customer.
abbrev larger : Candidate
larger = record candidate {
  request = record ask { request_id = 101; risk_id = 11 };
  risk_item = record cart { risk_id = 11; amount_paise = 2_000_000 };
  requested_incentive_ceiling_paise = 100_000;
}

abbrev both : List Candidate
both = candidate ∷ larger ∷ []

abbrev pub outcomes_of : Result (List (AllocationOutcome ℕ) × Ledger) → List (AllocationOutcome ℕ)
outcomes_of (ok (os, l)) = os
outcomes_of (err e) = []

abbrev outcomes : List (AllocationOutcome ℕ)
outcomes = outcomes_of (allocate_window settings both empty_ledger)

abbrev window_ledger : Ledger
window_ledger = ledger_of (allocate_window settings both empty_ledger)

allocated : allocate_window settings both empty_ledger ≡ ok (outcomes, window_ledger)
unfolding allocate_window contacts_made new_ledger open_candidates_for_customer ◌-ℤ◌
    customer_margin_budget_paise issue_grant
allocated = refl

-- Both have an outcome, and the customer has one grant.
one_grant : tally (is_grant_for 1) outcomes ≡ 1
unfolding allocate_window is_grant_for contacts_made new_ledger open_candidates_for_customer ◌-ℤ◌
    customer_margin_budget_paise issue_grant
one_grant = refl

allocate_window_exclusive_example : tally (is_grant_for 1) outcomes ≤ 1
allocate_window_exclusive_example =
    allocate_window_exclusive settings 1 both empty_ledger window_ledger outcomes allocated

-- Another agent's candidate for the same risk item.
abbrev twin : Candidate
twin = record candidate { request = record ask { request_id = 101; agent_id = 8 } }

-- The loser of two candidates for one risk item has no outcome.
twin_without_outcome :
    length (outcomes_of (allocate_window settings (candidate ∷ twin ∷ []) empty_ledger)) ≡ 1
unfolding allocate_window contacts_made new_ledger open_candidates_for_customer ◌-ℤ◌
    customer_margin_budget_paise issue_grant
twin_without_outcome = refl

abbrev reasons : List (ReasonCode × Instant)
reasons = (contact_cap_24h, ten) ∷ (lost_to_higher_expected_net, ten) ∷ []

put_off_for_bounded_example :
    ((put_off_for ℕ candidate reasons empty_ledger ≡ none) × (7 ≤ 0 + length reasons))
    ⊎ ((r : Candidate) × (put_off_for ℕ candidate reasons empty_ledger ≡ some r)
        × (r.windows_deferred ≡ 0 + length reasons)
        × (r.windows_deferred ≤ 6))
put_off_for_bounded_example = put_off_for_bounded ℕ candidate reasons empty_ledger (omega arith)

abbrev off : AllocationOutcome ℕ × Ledger
off = deferred_or_denied ℕ candidate contact_cap_24h ten empty_ledger [] none

deferred_or_denied_cases_example :
    IsUngranted ℕ candidate contact_cap_24h ten empty_ledger [] none off.0
    × (((0 < 6)
          × (off.0.outcome_kind ≡ deferred)
          × (off.0.reason_code ≡ some contact_cap_24h)
          × (off.0.next_eligible_at ≡ some ten)
          × (off.1 ≡ empty_ledger)
          × (r : Candidate) × (off.0.rescheduled_candidate ≡ some r)
          × IsPutOff candidate r ten)
        ⊎ ((6 ≤ 0)
            × (off.0.outcome_kind ≡ denied)
            × (off.0.reason_code ≡ some deferral_exhausted)
            × (off.0.next_eligible_at ≡ none)
            × (off.0.rescheduled_candidate ≡ none)
            × (off.1 ≡ record empty_ledger {
              terminally_denied_risk_ids = off.1.terminally_denied_risk_ids;
            })
            × ((k : ℕ)
                → contains k off.1.terminally_denied_risk_ids
                  ≡ ((10 == k) || contains k empty_ledger.terminally_denied_risk_ids))))
deferred_or_denied_cases_example =
    deferred_or_denied_cases ℕ candidate contact_cap_24h ten empty_ledger [] none

built : build_candidate ask cart 1 nine ≡ ok candidate
unfolding build_candidate window_id_for
built = refl

build_candidate-IsValid_example : IsValid candidate
build_candidate-IsValid_example = build_candidate-IsValid ask cart 1 nine candidate built
