-- ===== src/Tests/Attribution.antt =====
-- sampark/attribution/ at a concrete input, with rates as whole basis points.
use sampark.Base.{
  ℕ, ◌*◌, ◌/◌, ◌≤◌, ◌≡◌, true, false, String, List, [], ◌∷◌, refl, ok, err, arith,
  insufficient_holdout,
}
use native.Mathlib.Nat.{div-le_of_le-mul}
use sampark.Base.Int.{pos, ◌+ℤ◌, ◌-ℤ◌, ◌≤ℤ◌}
use sampark.Attribution.Baseline.{
  NaturalOutcome, NaturalBaselineEstimator, estimator_of, held_out, build_baseline_estimator,
  rate_for,
}
use sampark.Attribution.Baseline.Agreement.{
  expected_rate, rate_for_agrees, build_baseline_estimator_blind,
}
use sampark.Attribution.Credit.{Credit, CreditScheme, compute_credit}
use sampark.Attribution.Credit.Bounds.{compute_credit_bounds}
use sampark.Tests.Data.{nine}

abbrev ratio : ℕ → ℕ → ℕ
ratio k n = k * 10_000 / n

abbrev scheme : CreditScheme ℕ
scheme = record { round_bps = λ bps. bps; credit_id_for = λ g. g }

abbrev recovered : NaturalOutcome
recovered = record {
  customer_id = 1;
  source = "mandate_failure";
  root_cause = "unknown";
  recovered = true;
}

abbrev lost : NaturalOutcome
lost = record recovered { customer_id = 2; recovered = false }

-- Not held out.
abbrev declined : NaturalOutcome
declined = record lost { customer_id = 3 }

abbrev observations : List NaturalOutcome
observations = recovered ∷ declined ∷ lost ∷ []

abbrev estimator : NaturalBaselineEstimator ℕ
estimator = estimator_of ratio (recovered ∷ lost ∷ [])

built : build_baseline_estimator ratio (1 ∷ 2 ∷ []) observations ≡ ok estimator
unfolding build_baseline_estimator
built = refl

-- One of two recovered.
half : (rate_for estimator "mandate_failure" "unknown").rate ≡ 5_000
unfolding rate_for estimator_of
half = refl

nobody : build_baseline_estimator ratio (4 ∷ []) observations ≡ err insufficient_holdout
unfolding build_baseline_estimator
nobody = refl

rate_for_agrees_example :
    (est : NaturalBaselineEstimator ℕ) × (build_baseline_estimator ratio (1 ∷ 2 ∷ []) observations
      ≡ ok est)
    × ((source root_cause : String)
        → rate_for est source root_cause
          ≡ expected_rate ratio (held_out (1 ∷ 2 ∷ []) observations) source root_cause)
rate_for_agrees_example = rate_for_agrees ratio (1 ∷ 2 ∷ []) observations (omega arith)

build_baseline_estimator_blind_example :
    build_baseline_estimator ratio (1 ∷ 2 ∷ []) observations
    ≡ build_baseline_estimator ratio (1 ∷ 2 ∷ []) (recovered ∷ lost ∷ [])
build_baseline_estimator_blind_example =
    build_baseline_estimator_blind ratio (1 ∷ 2 ∷ []) declined (recovered ∷ []) (lost ∷ []) refl

abbrev credit : Credit
credit =
    compute_credit scheme 1_100 0 1_000_000 (rate_for estimator "mandate_failure" "unknown") 1_000
      nine

rounds : (k n : ℕ) → k ≤ n → ratio k n ≤ 10_000
rounds k n h = div-le_of_le-mul n (omega (arith, h))

-- An item that did not recover costs what would have been expected without a contact.
negative : credit.credited_recovery_paise ≡ pos 0 -ℤ pos 500_000
unfolding compute_credit rate_for estimator_of
negative = refl

compute_credit_bounds_example :
    (credit.expected_natural_paise
      ≡ 1_000_000 * (rate_for estimator "mandate_failure" "unknown").rate / 10_000)
    × (credit.credited_recovery_paise +ℤ pos credit.expected_natural_paise ≡ pos 0)
    × (credit.expected_natural_paise ≤ 1_000_000)
    × (credit.credited_recovery_paise ≤ℤ pos 0)
    × (pos 0 -ℤ pos 1_000_000 ≤ℤ credit.credited_recovery_paise)
compute_credit_bounds_example =
    compute_credit_bounds ratio scheme 1_100 0 1_000_000 (1 ∷ 2 ∷ []) observations estimator
      "mandate_failure" "unknown" 1_000 nine rounds (omega arith) built
