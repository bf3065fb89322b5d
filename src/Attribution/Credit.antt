-- ===== src/Attribution/Credit.antt =====
-- sampark/attribution/credit.py. The rounding of a rate to basis points and `uuid5` are arguments.
pub mod Bounds
use sampark.Base.{ℕ, ◌*◌, ◌/◌}
use sampark.Base.Int.{ℤ, pos, ◌-ℤ◌}
use sampark.Contracts.{Instant}
use sampark.Attribution.Baseline.{BaselineRate, Stratum, Level}

-- `natural_model_version` is that of sim/natural.py.
abbrev pub natural_model_version_now : ℕ
natural_model_version_now = 1

pub record Credit : Type 0 where
  pub credit_id : ℕ
  pub grant_id : ℕ
  pub observed_recovered_paise : ℕ
  pub natural_rate_bps : ℕ
  pub expected_natural_paise : ℕ
  pub credited_recovery_paise : ℤ
  pub baseline_stratum : Stratum
  pub baseline_level : Level
  pub baseline_holdout_n : ℕ
  pub holdout_fraction_bps : ℕ
  pub natural_model_version : ℕ
  pub observed_at : Instant

-- `round(10_000 * rate)` of a rate that is not negative, and `uuid5(NS_ATTRIBUTION, str(grant_id))`.
pub record CreditScheme (F : Type 0) : Type 0 where
  pub round_bps : F → ℕ
  pub credit_id_for : ℕ → ℕ

unfoldable pub compute_credit :
    {F : Type 0} → CreditScheme F → ℕ → ℕ → ℕ → BaselineRate F → F → Instant → Credit
compute_credit scheme grant_id observed amount_paise baseline holdout_fraction observed_at =
    let natural_rate_bps = scheme.round_bps baseline.rate in
    let expected_natural_paise = amount_paise * natural_rate_bps / 10_000 in
    record {
      credit_id = scheme.credit_id_for grant_id;
      grant_id = grant_id;
      observed_recovered_paise = observed;
      natural_rate_bps = natural_rate_bps;
      expected_natural_paise = expected_natural_paise;
      credited_recovery_paise = pos observed -ℤ pos expected_natural_paise;
      baseline_stratum = baseline.stratum;
      baseline_level = baseline.level;
      baseline_holdout_n = baseline.n;
      holdout_fraction_bps = scheme.round_bps holdout_fraction;
      natural_model_version = natural_model_version_now;
      observed_at = observed_at;
    }
