-- ===== src/Attribution/Baseline.antt =====
-- sampark/attribution/baseline.py: how often held-out customers recover without a contact. The
-- quotient of two counts, a float, is an argument.
pub mod Grouping
pub mod Agreement
use sampark.Base.{
  ℕ, Bool, List, [], ◌∷◌, ◌++◌, Option, none, some, String, Eq, nat_eq, string_eq, string_pair_eq,
  contains, select, tally, length, leb, if◌then◌else◌, Result, ok, err, insufficient_holdout,
}
use sampark.Base.Dict.{Dict, lookup, lookup_or, insert}
use sampark.Contracts.{Instant}

-- The fields of `sim.natural.NaturalOutcome` that the estimator reads.
pub record NaturalOutcome : Type 0 where
  pub customer_id : ℕ
  pub source : String
  pub root_cause : String
  pub recovered : Bool

pub data Level : Type 0 where
  level_source_root_cause level_source level_global : Level

-- The stratum, of which `stratum` is the name.
pub data Stratum : Type 0 where
  source_root_cause_stratum : String → String → Stratum
  source_stratum : String → Stratum
  global_stratum : Stratum

pub record BaselineRate (F : Type 0) : Type 0 where
  pub stratum : Stratum
  pub level : Level
  pub rate : F
  pub n : ℕ

abbrev pub source_root_cause_min_obs : ℕ
source_root_cause_min_obs = 100

abbrev pub source_min_obs : ℕ
source_min_obs = 30

pub record NaturalBaselineEstimator (F : Type 0) : Type 0 where
  pub rate_by_source_root_cause : Dict (String × String) (BaselineRate F)
  pub rate_by_source : Dict String (BaselineRate F)
  pub global_rate : BaselineRate F

-- `defaultdict(list)`, filled by `groups[key(o)].append(o)`.
module _ {K A : Type 0} ⦃e : Eq K⦄ (key : A → K) where
  unfoldable pub group_onto : Dict K (List A) → List A → Dict K (List A)
  unfolding insert lookup_or
  group_onto d [] = d
  group_onto d (x ∷ xs) = group_onto (insert (key x) (lookup_or [] (key x) d ++ x ∷ []) d) xs

-- The rates of the groups that are large enough.
module _ {K A R : Type 0} ⦃e : Eq K⦄ (min_obs : ℕ) (rate_of : K → List A → R) where
  unfoldable pub rates_onto : Dict K R → Dict K (List A) → Dict K R
  unfolding insert
  rates_onto rates [] = rates
  rates_onto rates ((k, subset) ∷ groups) =
      rates_onto (if leb min_obs (length subset) then insert k (rate_of k subset) rates else rates)
        groups

abbrev pub by_both : NaturalOutcome → String × String
by_both o = (o.source, o.root_cause)

abbrev pub held_out : List ℕ → List NaturalOutcome → List NaturalOutcome
held_out customer_ids outcomes = select (λ o. contains o.customer_id customer_ids) outcomes

-- `recovered / n if n else 0.0`, of two counts.
module _ {F : Type 0} (ratio : ℕ → ℕ → F) where
  abbrev pub rate_among : Stratum → Level → List NaturalOutcome → BaselineRate F
  rate_among stratum level subset = record {
    stratum = stratum;
    level = level;
    rate = ratio (tally (λ o. o.recovered) subset) (length subset);
    n = length subset;
  }

  -- The estimator of the outcomes that are left after the filter.
  unfoldable pub estimator_of : List NaturalOutcome → NaturalBaselineEstimator F
  unfolding group_onto rates_onto
  estimator_of control = record {
    rate_by_source_root_cause =
        rates_onto source_root_cause_min_obs
          (λ (k : String × String) subset.
            rate_among (source_root_cause_stratum k.0 k.1) level_source_root_cause subset)
          [] (group_onto by_both [] control);
    rate_by_source =
        rates_onto source_min_obs (λ k subset. rate_among (source_stratum k) level_source subset) []
          (group_onto (λ o. o.source) [] control);
    global_rate = rate_among global_stratum level_global control;
  }

  abbrev pub or_insufficient :
      List NaturalOutcome
      → Result (NaturalBaselineEstimator F)
      → Result (NaturalBaselineEstimator F)
  or_insufficient [] next = err insufficient_holdout
  or_insufficient (o ∷ os) next = next

  unfoldable pub build_baseline_estimator :
      List ℕ → List NaturalOutcome → Result (NaturalBaselineEstimator F)
  unfolding estimator_of
  build_baseline_estimator held_out_customer_ids natural_outcomes =
      let control = held_out held_out_customer_ids natural_outcomes in
      or_insufficient control (ok (estimator_of control))

-- `NaturalBaselineEstimator.rate_for`
unfoldable pub rate_for :
    {F : Type 0} → NaturalBaselineEstimator F → String → String → BaselineRate F
unfolding lookup
rate_for est source root_cause = elim (lookup (source, root_cause) est.rate_by_source_root_cause) [
  | some rate ↦ rate
  | none ↦ elim (lookup source est.rate_by_source) [ some rate ↦ rate | none ↦ est.global_rate ]
]
