-- ===== src/Attribution/Baseline/Agreement.antt =====
-- What the estimator of sampark/attribution/baseline.py answers, said without dicts.
use sampark.Base.{
  ℕ, ◌≡◌, refl, ap, inl, inr, Bool, false, ◌&&◌, List, [], ◌∷◌, ◌++◌, String, str_eq, contains,
  nat_eq, string_eq, string_pair_eq, select, tally, tally-length, length, ◌≤◌, leb, if◌then◌else◌,
  arith, Bool-cases, Result, ok,
}
use sampark.Base.Dict.{lookup, lookup_or}
use sampark.Attribution.Baseline.{
  NaturalOutcome, BaselineRate, NaturalBaselineEstimator, level_source_root_cause, level_source,
  level_global, source_root_cause_stratum, source_stratum, global_stratum, group_onto, rate_among,
  by_both, estimator_of, held_out, or_insufficient, build_baseline_estimator, rate_for,
}
use sampark.Attribution.Baseline.Grouping.{
  IsKeyed, group_onto_lem, group_onto-IsKeyed, rates_onto_lem,
}

module _ {F : Type 0} (ratio : ℕ → ℕ → F) where
  abbrev in_both : String → String → NaturalOutcome → Bool
  in_both source root_cause o = str_eq o.source source && str_eq o.root_cause root_cause

  abbrev in_source : String → NaturalOutcome → Bool
  in_source source o = str_eq o.source source

  -- The finest stratum with enough observations.
  abbrev pub expected_rate : List NaturalOutcome → String → String → BaselineRate F
  expected_rate control source root_cause =
      let both = select (in_both source root_cause) control in
      let one = select (in_source source) control in
      if leb 100 (length both)
      then rate_among ratio (source_root_cause_stratum source root_cause) level_source_root_cause
          both
      else if leb 30 (length one)
      then rate_among ratio (source_stratum source) level_source one
      else rate_among ratio global_stratum level_global control

  rate_for-estimator_of :
      (control : List NaturalOutcome) (source root_cause : String)
      → rate_for (estimator_of ratio control) source root_cause
        ≡ expected_rate control source root_cause
  unfolding rate_for estimator_of lookup lookup_or
  rate_for-estimator_of control source root_cause =
      let none_yet : IsKeyed {K = String × String} {V = List NaturalOutcome} [] =
        λ k. omega arith in
      let none_here : IsKeyed {K = String} {V = List NaturalOutcome} [] = λ k. omega arith in
      let pairs = group_onto_lem by_both (source, root_cause) [] control in
      let singles = group_onto_lem (λ (o : NaturalOutcome). o.source) source [] control in
      let by_pair =
        rates_onto_lem 100
          (λ (k : String × String) subset.
            rate_among ratio (source_root_cause_stratum k.0 k.1) level_source_root_cause subset)
          (source, root_cause) [] (group_onto by_both [] control)
          (group_onto-IsKeyed by_both [] control none_yet) (omega arith) in
      let by_source =
        rates_onto_lem 30
          (λ (k : String) subset. rate_among ratio (source_stratum k) level_source subset) source []
          (group_onto (λ (o : NaturalOutcome). o.source) [] control)
          (group_onto-IsKeyed (λ (o : NaturalOutcome). o.source) [] control none_here)
          (omega arith) in
      ground (arith, pairs, singles, by_pair, by_source)

  or_insufficient_some :
      (control : List NaturalOutcome) (next : Result (NaturalBaselineEstimator F))
      → 1 ≤ length control
      → or_insufficient ratio control next ≡ next
  or_insufficient_some [] next h = absurd (omega (arith, h))
  or_insufficient_some (o ∷ os) next h = refl

  -- When a held-out customer has an outcome, build_baseline_estimator returns an estimator, and
  -- rate_for answers for every source and root cause with the rate among the held-out outcomes of
  -- both when there are at least 100, else among those of the source when there are at least 30, and
  -- else among all held-out outcomes.
  pub rate_for_agrees :
      (held_out_customer_ids : List ℕ) (natural_outcomes : List NaturalOutcome)
      → 1 ≤ length (held_out held_out_customer_ids natural_outcomes)
      → (est : NaturalBaselineEstimator F) × (build_baseline_estimator ratio held_out_customer_ids
            natural_outcomes
          ≡ ok est)
        × ((source root_cause : String)
            → rate_for est source root_cause
              ≡ expected_rate (held_out held_out_customer_ids natural_outcomes) source root_cause)
  unfolding build_baseline_estimator
  rate_for_agrees ids outcomes some_ =
      let control = held_out ids outcomes in
      (
        estimator_of ratio control,
        or_insufficient_some control (ok (estimator_of ratio control)) some_,
        rate_for-estimator_of control,
      )

  held_out-append :
      (ids : List ℕ) (o : NaturalOutcome) (before after : List NaturalOutcome)
      → contains o.customer_id ids ≡ false
      → held_out ids (before ++ o ∷ after) ≡ held_out ids (before ++ after)
  held_out-append ids o [] after h = rw h refl
  held_out-append ids o (x ∷ before) after h = ground (arith, held_out-append ids o before after h)

  -- The outcome of a customer who is not held out never changes the estimator, nor whether there is
  -- one.
  pub build_baseline_estimator_blind :
      (held_out_customer_ids : List ℕ) (o : NaturalOutcome) (before after : List NaturalOutcome)
      → contains o.customer_id held_out_customer_ids ≡ false
      → build_baseline_estimator ratio held_out_customer_ids (before ++ o ∷ after)
        ≡ build_baseline_estimator ratio held_out_customer_ids (before ++ after)
  unfolding build_baseline_estimator
  build_baseline_estimator_blind ids o before after h =
      ap (λ control. or_insufficient ratio control (ok (estimator_of ratio control)))
        (held_out-append ids o before after h)

  -- Every rate is a quotient of a count and a count that is at least as large.
  pub rate_for_quotient :
      (control : List NaturalOutcome) (source root_cause : String)
      → (k : ℕ) × (n : ℕ) × (k ≤ n)
        × ((rate_for (estimator_of ratio control) source root_cause).rate ≡ ratio k n)
  rate_for_quotient control source root_cause =
      let both = select (in_both source root_cause) control in
      let one = select (in_source source) control in
      let agrees = rate_for-estimator_of control source root_cause in
      let recovered = λ (o : NaturalOutcome). o.recovered in
      elim (Bool-cases (leb 100 (length both))) [
        | inl large ↦ (
          tally recovered both,
          length both,
          tally-length recovered both,
          ground (arith, large, agrees),
        )
        | inr small ↦ elim (Bool-cases (leb 30 (length one))) [
          | inl enough ↦ (
            tally recovered one,
            length one,
            tally-length recovered one,
            ground (arith, small, enough, agrees),
          )
          | inr few ↦ (
            tally recovered control,
            length control,
            tally-length recovered control,
            ground (arith, small, few, agrees),
          )
        ]
      ]
