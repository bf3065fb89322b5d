-- ===== src/Allocator/Outcomes.antt =====
-- sampark/allocator/outcomes.py: what becomes of a candidate in a window.
pub mod Aging
use sampark.Base.{ℕ, ◌+◌, Bool, true, false, List, [], Option, none, some, leb, if◌then◌else◌}
use sampark.Contracts.{Instant, Grant, ReasonCode, deferral_exhausted}
use sampark.Allocator.Candidate.{Candidate, aged, rescheduled}
use sampark.Allocator.Scoring.{ScoreBreakdown}
use sampark.Budget.Windows.{window_id_for}
use sampark.Budget.Ledger.{Ledger, mark_terminally_denied}

abbrev pub max_deferral_windows : ℕ
max_deferral_windows = 7

pub data OutcomeKind : Type 0 where
  granted denied deferred : OutcomeKind

pub record AllocationOutcome (F : Type 0) : Type 0 where
  pub candidate : Candidate
  pub outcome_kind : OutcomeKind
  pub reason_code : Option ReasonCode
  pub next_eligible_at : Option Instant
  pub grant : Option Grant
  pub fact_unavailable_reason_codes : List ReasonCode
  pub score : Option (ScoreBreakdown F)
  pub rescheduled_candidate : Option Candidate
  pub effective_incentive_bps : Option ℕ

-- A final denial, which leaves nothing to reschedule.
unfoldable pub denial :
    (F : Type 0)
    → Candidate
    → ReasonCode
    → List ReasonCode
    → Option (ScoreBreakdown F)
    → AllocationOutcome F
denial F candidate reason gaps score = record {
  candidate = candidate;
  outcome_kind = denied;
  reason_code = some reason;
  next_eligible_at = none;
  grant = none;
  fact_unavailable_reason_codes = gaps;
  score = score;
  rescheduled_candidate = none;
  effective_incentive_bps = none;
}

unfoldable pub deferred_or_denied :
    (F : Type 0)
    → Candidate
    → ReasonCode
    → Instant
    → Ledger
    → List ReasonCode
    → Option (ScoreBreakdown F)
    → AllocationOutcome F × Ledger
unfolding denial aged rescheduled mark_terminally_denied
deferred_or_denied F candidate reason next_eligible_at l gaps score =
    if leb max_deferral_windows (candidate.windows_deferred + 1)
    then (
      denial F candidate deferral_exhausted gaps score,
      mark_terminally_denied l candidate.risk_item.risk_id,
    )
    else (
      record {
        candidate = candidate;
        outcome_kind = deferred;
        reason_code = some reason;
        next_eligible_at = some next_eligible_at;
        grant = none;
        fact_unavailable_reason_codes = gaps;
        score = score;
        rescheduled_candidate =
            some (rescheduled (aged candidate) (window_id_for next_eligible_at) next_eligible_at);
        effective_incentive_bps = none;
      },
      l,
    )
