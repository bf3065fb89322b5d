-- ===== src/Mediation/Service.antt =====
-- sampark/mediation/service.py: from signed requests to decisions, for one window. The audit sink and
-- the observer, which never decide anything, are absent (`None`).
pub mod Answers
pub mod Origins
pub mod Grants
pub mod History
use sampark.Base.{
  ℕ, ◌+◌, List, [], ◌∷◌, ◌++◌, Option, none, some, Result, ok, err, assertion_error, runtime_error,
  or_raise, ◌>>=◌, nat_eq,
}
use sampark.Base.Dict.{Dict, insert}
use sampark.Contracts.{
  Instant, Date, GrantRequest, GrantDecision, DecisionOutcome, granted, denied, deferred,
}
use sampark.Contracts.Decision.{make_decision}
use sampark.Allocator.Candidate.{Candidate, build_candidate}
use sampark.Allocator.Outcomes.{AllocationOutcome, OutcomeKind}
use sampark.Allocator.Outcomes
use sampark.Allocator.Greedy.{Settings}
use sampark.Budget.Ledger.{Ledger}
use sampark.Registry.Store.{AgentRepository, RiskItemRepository, get_risk_item}
use sampark.Registry.Scope.{SignatureScheme, evaluate_scope}
use sampark.Mediation.HardFilter.{filter_and_allocate}

-- `uuid5(NS_DECISION, f"{request_id}:{window_id}")`, and the `uuid4()` that a scope denial of the
-- n-th new request draws.
pub record DecisionIds : Type 0 where
  pub decision_id_for : ℕ → Date → ℕ
  pub scope_denial_id : ℕ → ℕ

pub record MediationWindowResult : Type 0 where
  pub decisions : List GrantDecision
  pub rescheduled_candidates : List Candidate
  pub effective_incentive_bps_by_request_id : Dict ℕ ℕ

-- The decisions on scope, and the candidates.
pub record Intake : Type 0 where
  pub scope_decisions : List GrantDecision
  pub candidates : List Candidate

abbrev pub requeue : List Candidate → Option Candidate → List Candidate
requeue queue none = queue
requeue queue (some c) = queue ++ c ∷ []

-- Only a grant has an incentive that was reserved, and a grant must have one.
unfoldable pub effective_bps : {F : Type 0} → Dict ℕ ℕ → AllocationOutcome F → Result (Dict ℕ ℕ)
unfolding insert
effective_bps bps_by_id o = elim o.outcome_kind [
  | Outcomes.granted ↦ do
    bps ← or_raise o.effective_incentive_bps assertion_error
    ok (insert o.candidate.request.request_id bps bps_by_id)
  | Outcomes.denied ↦ ok bps_by_id
  | Outcomes.deferred ↦ ok bps_by_id
]

module _ (ids : DecisionIds) where
  unfoldable pub build_decision : {F : Type 0} → AllocationOutcome F → Result GrantDecision
  unfolding make_decision
  build_decision o =
      let did = ids.decision_id_for o.candidate.request.request_id o.candidate.window_id in
      elim o.outcome_kind [
        | Outcomes.granted ↦ make_decision (record {
          decision_id = did;
          request_id = o.candidate.request.request_id;
          outcome = granted;
          reason_code = none;
          next_eligible_at = none;
          grant = o.grant;
        })
        | Outcomes.denied ↦ make_decision (record {
          decision_id = did;
          request_id = o.candidate.request.request_id;
          outcome = denied;
          reason_code = o.reason_code;
          next_eligible_at = none;
          grant = none;
        })
        | Outcomes.deferred ↦ make_decision (record {
          decision_id = did;
          request_id = o.candidate.request.request_id;
          outcome = deferred;
          reason_code = o.reason_code;
          next_eligible_at = o.next_eligible_at;
          grant = none;
        })
      ]

  -- What one outcome adds to the result: the loop appends the decision first.
  unfoldable pub publish :
      {F : Type 0} → MediationWindowResult → AllocationOutcome F → Result MediationWindowResult
  unfolding build_decision effective_bps
  publish r o = do
    decision ← build_decision o
    bps_by_id ← effective_bps r.effective_incentive_bps_by_request_id o
    ok (record {
      decisions = r.decisions ++ decision ∷ [];
      rescheduled_candidates = requeue r.rescheduled_candidates o.rescheduled_candidate;
      effective_incentive_bps_by_request_id = bps_by_id;
    })

  unfoldable pub publish_all :
      {F : Type 0}
      → MediationWindowResult
      → List (AllocationOutcome F)
      → Result MediationWindowResult
  unfolding publish
  publish_all r [] = ok r
  publish_all r (o ∷ os) = do r' ← publish r o; publish_all r' os

  module _ (sig : SignatureScheme) (agents : AgentRepository) (items : RiskItemRepository) where
    -- A request that is denied on scope is answered, and one within scope becomes a candidate.
    unfoldable pub after_scope :
        Intake → GrantRequest × Instant → Option GrantDecision → Result Intake
    unfolding get_risk_item build_candidate
    after_scope i request (some decision) =
        ok (record i { scope_decisions = i.scope_decisions ++ decision ∷ [] })
    after_scope i (request, proposed_send_after) none = do
      item ← or_raise (get_risk_item items request.risk_id) runtime_error
      c ← build_candidate request item.risk_item item.customer_id proposed_send_after
      ok (record i { candidates = i.candidates ++ c ∷ [] })

    -- The n-th new request.
    unfoldable pub admit_request : ℕ → Intake → GrantRequest × Instant → Result Intake
    unfolding evaluate_scope after_scope
    admit_request n i (request, proposed_send_after) = do
      scope_decision ← evaluate_scope sig (ids.scope_denial_id n) request agents items
      after_scope i (request, proposed_send_after) scope_decision

    unfoldable pub admit_requests : ℕ → Intake → List (GrantRequest × Instant) → Result Intake
    unfolding admit_request
    admit_requests n i [] = ok i
    admit_requests n i (r ∷ rs) = do i' ← admit_request n i r; admit_requests (n + 1) i' rs

    unfoldable pub mediate_window :
        {F : Type 0}
        → Settings F
        → List (GrantRequest × Instant)
        → List Candidate
        → Ledger
        → Result (MediationWindowResult × Ledger)
    unfolding admit_requests filter_and_allocate publish_all
    mediate_window s new_requests carried_forward l = do
      i ←
          admit_requests 0 (record { scope_decisions = []; candidates = carried_forward })
            new_requests
      (outcomes, l') ← filter_and_allocate s i.candidates l
      r ←
          publish_all
            (record {
              decisions = i.scope_decisions;
              rescheduled_candidates = [];
              effective_incentive_bps_by_request_id = [];
            })
            outcomes
      ok (r, l')
