-- ===== src/Tests/Policy.antt =====
-- sampark/policy/hard/ at concrete inputs.
use sampark.Base.{◌≡◌, [], ◌∷◌, arith, refl, ok, inl, All}
use sampark.Contracts.{
  opt_out_active, fact_unavailable_consent_scope, fact_unavailable_refund_in_flight,
  fact_unavailable_fraud_review,
}
use sampark.Budget.Ledger.{
  optouts_by_channel, risk_items_for_customer, new_ledger, has_active_claim, rolling_contact_counts,
}
use sampark.Budget.Windows.{is_quiet_hours}
use sampark.Policy.Verdict.{admissible, deny, PolicyContext, view_of}
use sampark.Policy.Hard.{
  HardRule, HardFilterResult, opt_out, consent_scope, dlt_template, evaluate_all, run_rules,
  is_registered, is_disputed, evaluate_interlock, quiet_hours_rule, contact_cap,
}
use sampark.Policy.Hard.Chain.{Passes, run_rules_first}
use sampark.Policy.Hard.Admission.{IsAdmissible, evaluate_all_sound, evaluate_all_complete}
use sampark.Tests.Data.{candidate, empty_ledger, nine}

abbrev context : PolicyContext
context = record { ledger = view_of empty_ledger; decision_at = nine }

abbrev result_of : HardFilterResult
result_of = record {
  verdict = admissible;
  fact_unavailable_reason_codes =
      fact_unavailable_consent_scope ∷ fact_unavailable_refund_in_flight
      ∷ fact_unavailable_fraud_review ∷ [];
}

holds : IsAdmissible candidate context
unfolding view_of optouts_by_channel is_registered risk_items_for_customer new_ledger is_disputed
    has_active_claim is_quiet_hours rolling_contact_counts
holds = record {
  not_opted_out = refl;
  registered = refl;
  undisputed = refl;
  unclaimed = refl;
  awake = refl;
  under_caps = ((0, 0), refl, omega arith, omega arith);
}

admitted : evaluate_all candidate context ≡ ok result_of
unfolding evaluate_all opt_out view_of optouts_by_channel consent_scope dlt_template is_registered
    evaluate_interlock risk_items_for_customer new_ledger is_disputed has_active_claim
    quiet_hours_rule is_quiet_hours contact_cap rolling_contact_counts
admitted = refl

evaluate_all_sound_example : IsAdmissible candidate context
evaluate_all_sound_example = evaluate_all_sound candidate context result_of admitted refl

evaluate_all_complete_example :
    (res : HardFilterResult) × (evaluate_all candidate context ≡ ok res)
    × (res.verdict ≡ admissible)
evaluate_all_complete_example = evaluate_all_complete candidate context holds

-- A rule that has opted everybody out.
abbrev refuse : HardRule
refuse c ctx = ok (deny opt_out_active)

before_Passes : All (Passes candidate context) (dlt_template ∷ [])
unfolding dlt_template is_registered
before_Passes = (inl refl, tt)

run_rules_first_example :
    (res : HardFilterResult) × (run_rules
        (dlt_template ∷ refuse ∷ consent_scope ∷ [])
        candidate
        context
        []
      ≡ ok res)
    × (res.verdict ≡ deny opt_out_active)
run_rules_first_example =
    run_rules_first candidate context (dlt_template ∷ []) (consent_scope ∷ []) refuse
      (deny opt_out_active) [] before_Passes refl refl
