-- ===== src/Contracts/Decision.antt =====
-- sampark/contracts/grant_decision.py: the validator of a decision.
use sampark.Base.{Result, ok, err, value_error, Option, none, some}
use sampark.Contracts.{
  Grant, GrantDecision, DecisionOutcome, granted, denied, deferred, ReasonCode, Instant,
}

check_outcome :
    DecisionOutcome → Option ReasonCode → Option Instant → Option Grant → Result (Unit {0})
check_outcome granted none none (some g) = ok tt
check_outcome granted reason next grant = err value_error
check_outcome denied (some reason) next none = ok tt
check_outcome denied reason next grant = err value_error
check_outcome deferred (some reason) (some next) none = ok tt
check_outcome deferred reason next grant = err value_error

-- `GrantDecision(...)`: construction runs the validator.
unfoldable pub make_decision : GrantDecision → Result GrantDecision
unfolding check_outcome
make_decision d = elim (check_outcome d.outcome d.reason_code d.next_eligible_at d.grant) [
  | ok _ ↦ ok d
  | err e ↦ err e
]
