-- ===== src/Tests/Mediation.antt =====
-- sampark/mediation/hard_filter.py at a concrete input: the pipeline grants the candidate.
use sampark.Allocator.Greedy.Window.{allocate_window}
use sampark.Budget.Ledger.{contacts_made}
use sampark.Budget.Ledger.{open_candidates_for_customer}
use sampark.Base.Int.{◌-ℤ◌}
use sampark.Budget.Margin.{customer_margin_budget_paise}
use sampark.Budget.Issuance.{issue_grant}
use sampark.Budget.Windows.{next_window_start}
use sampark.Base.Int.{◌+ℤ◌}
use sampark.Policy.Hard.{
  opt_out, consent_scope, dlt_template, is_registered, evaluate_interlock, is_disputed,
  quiet_hours_rule, contact_cap,
}
use sampark.Budget.Windows.{is_quiet_hours}
use sampark.Base.{ℕ, ◌≡◌, List, [], ◌∷◌, All, tally, refl, ok}
use sampark.Allocator.Candidate.{Candidate}
use sampark.Allocator.Outcomes.{AllocationOutcome}
use sampark.Allocator.Greedy.Exclusivity.{is_grant_for}
use sampark.Allocator.Greedy.Grants.{GrantsOnly}
use sampark.Budget.Ledger.{
  Ledger, optouts_by_channel, risk_items_for_customer, new_ledger, has_active_claim,
  rolling_contact_counts,
}
use sampark.Policy.Verdict.{view_of}
use sampark.Policy.Hard.Admission.{IsAdmissible}
use sampark.Mediation.HardFilter.{Filtered, filter_candidates, filter_and_allocate}
use sampark.Mediation.HardFilter.Survivors.{filter_candidates_sound, filter_and_allocate_admissible}
use sampark.Tests.Data.{candidate, empty_ledger, nine, ledger_of}
use sampark.Tests.Allocator.{settings, outcomes_of}
use sampark.Base.{Result, err}

abbrev pub outcomes : List (AllocationOutcome ℕ)
outcomes = outcomes_of (filter_and_allocate settings (candidate ∷ []) empty_ledger)

abbrev pub final_ledger : Ledger
final_ledger = ledger_of (filter_and_allocate settings (candidate ∷ []) empty_ledger)

pub piped : filter_and_allocate settings (candidate ∷ []) empty_ledger ≡ ok (outcomes, final_ledger)
unfolding allocate_window contacts_made new_ledger open_candidates_for_customer ◌-ℤ◌
    customer_margin_budget_paise issue_grant filter_and_allocate filter_candidates opt_out
    optouts_by_channel consent_scope dlt_template is_registered evaluate_interlock is_disputed
    has_active_claim quiet_hours_rule is_quiet_hours contact_cap rolling_contact_counts
    risk_items_for_customer next_window_start ◌+ℤ◌
piped = refl

one_grant : tally (is_grant_for 1) outcomes ≡ 1
unfolding allocate_window contacts_made new_ledger open_candidates_for_customer ◌-ℤ◌
    customer_margin_budget_paise issue_grant filter_and_allocate filter_candidates opt_out
    optouts_by_channel consent_scope dlt_template is_registered evaluate_interlock is_disputed
    has_active_claim quiet_hours_rule is_quiet_hours contact_cap rolling_contact_counts
    risk_items_for_customer next_window_start ◌+ℤ◌ is_grant_for
one_grant = refl

filter_and_allocate_admissible_example :
    GrantsOnly
      (λ (c : Candidate).
        IsAdmissible c (record { ledger = view_of empty_ledger; decision_at = nine }))
      outcomes
filter_and_allocate_admissible_example =
    filter_and_allocate_admissible settings (candidate ∷ []) empty_ledger final_ledger outcomes
      piped

abbrev filtered_of : Result (Filtered ℕ) → Filtered ℕ
filtered_of (ok f) = f
filtered_of (err e) = record {
  ledger = empty_ledger;
  survivors = [];
  immediate_outcomes = [];
  fact_unavailable_by_risk_id = [];
}

abbrev filtered : Filtered ℕ
filtered = filtered_of (filter_candidates ℕ (candidate ∷ []) empty_ledger nine)

passes : filter_candidates ℕ (candidate ∷ []) empty_ledger nine ≡ ok filtered
unfolding allocate_window contacts_made new_ledger open_candidates_for_customer ◌-ℤ◌
    customer_margin_budget_paise issue_grant filter_and_allocate filter_candidates opt_out
    optouts_by_channel consent_scope dlt_template is_registered evaluate_interlock is_disputed
    has_active_claim quiet_hours_rule is_quiet_hours contact_cap rolling_contact_counts
    risk_items_for_customer next_window_start ◌+ℤ◌
passes = refl

filter_candidates_sound_example :
    All
      (λ (c : Candidate).
        IsAdmissible c (record { ledger = view_of empty_ledger; decision_at = nine }))
      filtered.survivors
filter_candidates_sound_example =
    filter_candidates_sound ℕ empty_ledger nine (candidate ∷ []) filtered passes
