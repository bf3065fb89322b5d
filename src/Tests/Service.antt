-- ===== src/Tests/Service.antt =====
-- sampark/mediation/service.py at a concrete input: a request that is granted and a forged one.
use sampark.Base.{
  ℕ, nat_eq, map, ◌+◌, ◌≡◌, ==_iff, List, [], ◌∷◌, All, Any, ◌⊎◌, refl, ok, err, arith, Result,
}
use sampark.Contracts.{Date, Instant, GrantRequest, GrantDecision, granted}
use sampark.Allocator.Candidate.{Candidate}
use sampark.Allocator.Greedy.Census.{census, has_risk_id}
use sampark.Allocator.Greedy.Window.{allocate_window}
use sampark.Budget.Ledger.{
  Ledger, contacts_made, open_candidates_for_customer, optouts_by_channel, risk_items_for_customer,
  new_ledger, has_active_claim, rolling_contact_counts,
}
use sampark.Base.Int.{◌-ℤ◌, ◌+ℤ◌}
use sampark.Budget.Margin.{customer_margin_budget_paise}
use sampark.Budget.Issuance.{issue_grant}
use sampark.Budget.Windows.{next_window_start, is_quiet_hours, window_id_for}
use sampark.Policy.Hard.{
  opt_out, consent_scope, dlt_template, is_registered, evaluate_interlock, is_disputed,
  quiet_hours_rule, contact_cap,
}
use sampark.Policy.Verdict.{view_of}
use sampark.Policy.Hard.Admission.{IsAdmissible}
use sampark.Mediation.HardFilter.Census.{filter_and_allocate_exact}
use sampark.Mediation.Service.{DecisionIds, MediationWindowResult, mediate_window}
use sampark.Base.Dict.{sum_of}
use sampark.Budget.Pools.View.{merchant_view, customer_view}
use sampark.Budget.Backing.{Backs, held_in, held_for}
use sampark.Mediation.Lifecycle.History.{here}
use sampark.Mediation.Service.History.{mediate_window_backed}
use sampark.Mediation.Service.Answers.{answered, mediate_window_answers}
use sampark.Mediation.Service.Origins.{IsBuiltFrom}
use sampark.Mediation.Service.Grants.{mediate_window_grants}
use sampark.Tests.Data.{ids, items, ask, candidate, empty_ledger, nine, ledger_of}
use sampark.Tests.Registry.{scheme, agents, risk_items}
use sampark.Tests.Allocator.{settings}
use sampark.Tests.Mediation.{outcomes, final_ledger, piped}

abbrev decision_ids : DecisionIds
decision_ids = record { decision_id_for = λ r w. r + w; scope_denial_id = λ n. n }

abbrev forged : GrantRequest
forged = record ask { request_id = 101; risk_id = 11; signature = "forged" }

abbrev new_requests : List (GrantRequest × Instant)
new_requests = (ask, nine) ∷ (forged, nine) ∷ []

abbrev no_result : MediationWindowResult
no_result = record {
  decisions = [];
  rescheduled_candidates = [];
  effective_incentive_bps_by_request_id = [];
}

abbrev result_of : Result (MediationWindowResult × Ledger) → MediationWindowResult
result_of (ok (r, l)) = r
result_of (err e) = no_result

abbrev result : MediationWindowResult
result =
    result_of
      (mediate_window decision_ids scheme agents risk_items settings new_requests [] empty_ledger)

abbrev after : Ledger
after =
    ledger_of
      (mediate_window decision_ids scheme agents risk_items settings new_requests [] empty_ledger)

mediated :
    mediate_window decision_ids scheme agents risk_items settings new_requests [] empty_ledger
    ≡ ok (result, after)
unfolding mediate_window allocate_window contacts_made new_ledger open_candidates_for_customer ◌-ℤ◌
    customer_margin_budget_paise issue_grant opt_out optouts_by_channel consent_scope dlt_template
    is_registered evaluate_interlock is_disputed has_active_claim quiet_hours_rule is_quiet_hours
    contact_cap rolling_contact_counts risk_items_for_customer next_window_start window_id_for ◌+ℤ◌
mediated = refl

-- The forged request is answered first.
in_order : map (λ (d : GrantDecision). d.request_id) result.decisions ≡ 101 ∷ 100 ∷ []
unfolding mediate_window allocate_window contacts_made new_ledger open_candidates_for_customer ◌-ℤ◌
    customer_margin_budget_paise issue_grant opt_out optouts_by_channel consent_scope dlt_template
    is_registered evaluate_interlock is_disputed has_active_claim quiet_hours_rule is_quiet_hours
    contact_cap rolling_contact_counts risk_items_for_customer next_window_start window_id_for ◌+ℤ◌
in_order = refl

mediate_window_answers_example : answered 101 result.decisions ≡ 1
mediate_window_answers_example =
    mediate_window_answers decision_ids scheme agents risk_items settings new_requests []
      empty_ledger after result (λ risk_id. ground (arith, ==_iff 10 risk_id, ==_iff 11 risk_id))
      mediated 101

mediate_window_grants_example :
    All
      (λ (d : GrantDecision).
        d.outcome ≡ granted
        → (c : Candidate) × (c.request.request_id ≡ d.request_id)
          × (decision_ids.decision_id_for c.request.request_id c.window_id ≡ d.decision_id)
          × (IsAdmissible c (record { ledger = view_of empty_ledger; decision_at = nine })
              × (Any (λ (k : Candidate). k ≡ c) []
                  ⊎ Any (IsBuiltFrom scheme agents risk_items c) new_requests)))
      result.decisions
mediate_window_grants_example =
    mediate_window_grants decision_ids scheme agents risk_items settings new_requests []
      empty_ledger after result mediated

filter_and_allocate_exact_example : census (has_risk_id 10) outcomes ≡ 1
filter_and_allocate_exact_example =
    filter_and_allocate_exact settings (has_risk_id 10) (candidate ∷ []) empty_ledger final_ledger
      outcomes (λ risk_id. ground (arith, ==_iff 10 risk_id)) piped

mediate_window_backed_example :
    ((w : Date) → Backs (sum_of (held_in w) after.grants_by_request_id) (merchant_view after w))
    × ((c : ℕ) (w : Date)
        → Backs (sum_of (held_for c w) after.grants_by_request_id) (customer_view after c w))
mediate_window_backed_example =
    mediate_window_backed ids decision_ids scheme agents risk_items settings new_requests [] items 9
      500_000 empty_ledger after result here mediated
