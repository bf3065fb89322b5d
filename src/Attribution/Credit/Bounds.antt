-- ===== src/Attribution/Credit/Bounds.antt =====
-- How large a credit of sampark/attribution/credit.py can be.
use sampark.Base.{ℕ, ◌*◌, ◌/◌, ◌≤◌, ◌≡◌, ap, sym, ◌∙◌, String, List, [], ◌∷◌, ok, arith, refl}
use sampark.Base.Int.{pos, ◌+ℤ◌, ◌-ℤ◌, ◌≤ℤ◌, int_laws}
use sampark.Contracts.{Instant}
use sampark.Attribution.Baseline.{
  NaturalOutcome, NaturalBaselineEstimator, estimator_of, held_out, or_insufficient,
  build_baseline_estimator, rate_for,
}
use sampark.Attribution.Baseline.Agreement.{rate_for_quotient}
use sampark.Attribution.Credit.{CreditScheme, compute_credit}

module _ {F : Type 0} (ratio : ℕ → ℕ → F) (scheme : CreditScheme F) where
  or_insufficient_is :
      (control : List NaturalOutcome) (made est : NaturalBaselineEstimator F)
      → or_insufficient ratio control (ok made) ≡ ok est
      → made ≡ est
  or_insufficient_is [] made est e = absurd (ground arith)
  or_insufficient_is (o ∷ os) made est e = ground arith

  minus_plus : (a b : ℕ) → (pos a -ℤ pos b) +ℤ pos b ≡ pos a
  minus_plus a b = omega int_laws

  scaled_bound : (amount bps : ℕ) → bps ≤ 10_000 → amount * bps / 10_000 ≤ amount
  scaled_bound amount bps h = grind arith

  -- When the rounded quotient of a count and a count at least as large is at most 10,000 basis points
  -- and no more was recovered than the amount, the credit against a rate of an estimator that was
  -- built is exactly what was observed less the natural expectation, which is the rounded-down share
  -- of the amount at that rate and at most the amount. It is not clamped at zero. So the credit is
  -- never above what was observed and never below minus the amount.
  pub compute_credit_bounds :
      (grant_id observed amount_paise : ℕ) (held_out_customer_ids : List ℕ)
      (natural_outcomes : List NaturalOutcome) (est : NaturalBaselineEstimator F)
      (source root_cause : String) (holdout_fraction : F) (at : Instant)
      → ((k n : ℕ) → k ≤ n → scheme.round_bps (ratio k n) ≤ 10_000)
      → observed ≤ amount_paise
      → build_baseline_estimator ratio held_out_customer_ids natural_outcomes ≡ ok est
      → let credit =
          compute_credit scheme grant_id observed amount_paise
            (rate_for est source root_cause)
            holdout_fraction
            at in
        (credit.expected_natural_paise
          ≡ amount_paise * scheme.round_bps (rate_for est source root_cause).rate / 10_000)
        × (credit.credited_recovery_paise +ℤ pos credit.expected_natural_paise ≡ pos observed)
        × (credit.expected_natural_paise ≤ amount_paise)
        × (credit.credited_recovery_paise ≤ℤ pos observed)
        × (pos 0 -ℤ pos amount_paise ≤ℤ credit.credited_recovery_paise)
  unfolding build_baseline_estimator compute_credit ◌-ℤ◌
  compute_credit_bounds grant_id observed amount ids outcomes est source root_cause fraction at
        rounds within built =
      let control = held_out ids outcomes in
      let same = or_insufficient_is control (estimator_of ratio control) est built in
      let (k, n, le, quotient) = rate_for_quotient ratio control source root_cause in
      let its : (rate_for est source root_cause).rate ≡ ratio k n =
        ap (λ e. (rate_for e source root_cause).rate) (sym same) ∙ quotient in
      let bps = scheme.round_bps (rate_for est source root_cause).rate in
      let low : bps ≤ 10_000 = ground (arith, its, rounds k n le) in
      let small = scaled_bound amount bps low in
      let expected = amount * bps / 10_000 in
      (refl, minus_plus observed expected, small, ground (arith, small), ground (arith, small))
