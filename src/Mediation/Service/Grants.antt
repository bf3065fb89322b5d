-- ===== src/Mediation/Service/Grants.antt =====
-- What the grants of `mediate_window` (sampark/mediation/service.py) rest on.
use sampark.Base.{
  ℕ, ◌+◌, ◌≡◌, refl, subst, List, [], ◌∷◌, All, All-append, Option, none, some, ok, arith,
  >>=-eq-ok, ok_first, ok_injective, or_raise, runtime_error, Any, ◌⊎◌,
}
use sampark.Contracts.{Instant, GrantRequest, GrantDecision, granted}
use sampark.Contracts.Decision.{make_decision}
use sampark.Allocator.Candidate.{Candidate, build_candidate}
use sampark.Allocator.Outcomes.{AllocationOutcome}
use sampark.Allocator.Outcomes
use sampark.Allocator.Greedy.{Settings}
use sampark.Allocator.Greedy.Grants.{GrantsOnly}
use sampark.Budget.Ledger.{Ledger}
use sampark.Policy.Verdict.{view_of}
use sampark.Policy.Hard.Admission.{IsAdmissible}
use sampark.Registry.Store.{AgentRepository, RiskItemRepository, get_risk_item}
use sampark.Registry.Scope.{SignatureScheme, evaluate_scope}
use sampark.Registry.Scope.Denials.{About, evaluate_scope-About}
use sampark.Mediation.HardFilter.{filter_and_allocate}
use sampark.Mediation.HardFilter.Kept.{filter_and_allocate-GrantsOnly}
use sampark.Mediation.Service.Origins.{IsBuiltFrom, Enters, admit_requests-Enters}
use sampark.Mediation.Service.{
  DecisionIds, MediationWindowResult, Intake, effective_bps, build_decision, publish, publish_all,
  after_scope, admit_request, admit_requests, mediate_window,
}

-- A grant is about a candidate with the property.
abbrev pub IsFor : DecisionIds → (Candidate → Type 0) → GrantDecision → Type 0
IsFor ids P d =
    d.outcome ≡ granted
    → (c : Candidate) × (c.request.request_id ≡ d.request_id)
      × (ids.decision_id_for c.request.request_id c.window_id ≡ d.decision_id)
      × P c

module _ (ids : DecisionIds) (P : Candidate → Type 0) where
  build_decision-IsFor :
      {F : Type 0} (o : AllocationOutcome F) (d : GrantDecision)
      → (o.outcome_kind ≡ Outcomes.granted → P o.candidate)
      → build_decision ids o ≡ ok d
      → IsFor ids P d
  unfolding build_decision make_decision
  build_decision-IsFor o d h e = λ won.
      let about : o.candidate.request.request_id ≡ d.request_id = ground arith in
      let own : ids.decision_id_for o.candidate.request.request_id o.candidate.window_id
          ≡ d.decision_id =
        ground arith in
      let kind : o.outcome_kind ≡ Outcomes.granted = ground arith in
      (o.candidate, about, own, h kind)

  publish_all-IsFor :
      {F : Type 0} (r r' : MediationWindowResult) (os : List (AllocationOutcome F))
      → GrantsOnly P os
      → All (IsFor ids P) r.decisions
      → publish_all ids r os ≡ ok r'
      → All (IsFor ids P) r'.decisions
  unfolding publish_all publish
  publish_all-IsFor r r' [] only before e =
      subst (λ (x : MediationWindowResult). All (IsFor ids P) x.decisions) (ok_injective e) before
  publish_all-IsFor r r' (o ∷ os) only before e =
      let (r1, published, rest) = >>=-eq-ok (publish ids r o) _ e in
      let (d, built, more) = >>=-eq-ok (build_decision ids o) _ published in
      let (bps, _, done) =
        >>=-eq-ok (effective_bps r.effective_incentive_bps_by_request_id o) _ more in
      let now =
        All-append (IsFor ids P) r.decisions (d ∷ []) before
          (build_decision-IsFor o d only.0 built, tt) in
      publish_all-IsFor r1 r' os only.1
        (subst (λ (x : MediationWindowResult). All (IsFor ids P) x.decisions) (ok_injective done)
          now)
        rest

  module _ (sig : SignatureScheme) (agents : AgentRepository) (items : RiskItemRepository) where
    after_scope-IsFor :
        (i i' : Intake) (x : GrantRequest × Instant) (answer : Option GrantDecision)
        → About x.0 answer
        → All (IsFor ids P) i.scope_decisions
        → after_scope ids sig agents items i x answer ≡ ok i'
        → All (IsFor ids P) i'.scope_decisions
    unfolding after_scope
    after_scope-IsFor i i' (request, at) (some d) about before e =
        let never : IsFor ids P d = λ won. absurd (ground (arith, about d refl)) in
        subst (λ (j : Intake). All (IsFor ids P) j.scope_decisions) (ok_injective e)
          (All-append (IsFor ids P) i.scope_decisions (d ∷ []) before (never, tt))
    after_scope-IsFor i i' (request, at) none about before e =
        let (item, _, rest) =
          >>=-eq-ok (or_raise (get_risk_item items request.risk_id) runtime_error) _ e in
        let (c, _, done) =
          >>=-eq-ok (build_candidate request item.risk_item item.customer_id at) _ rest in
        subst (λ (j : Intake). All (IsFor ids P) j.scope_decisions) (ok_injective done) before

    admit_requests-IsFor :
        (n : ℕ) (i i' : Intake) (xs : List (GrantRequest × Instant))
        → All (IsFor ids P) i.scope_decisions
        → admit_requests ids sig agents items n i xs ≡ ok i'
        → All (IsFor ids P) i'.scope_decisions
    unfolding admit_requests admit_request
    admit_requests-IsFor n i i' [] before e =
        subst (λ (j : Intake). All (IsFor ids P) j.scope_decisions) (ok_injective e) before
    admit_requests-IsFor n i i' (x ∷ xs) before e =
        let (j, admitted, rest) = >>=-eq-ok (admit_request ids sig agents items n i x) _ e in
        let (answer, scoped, after) =
          >>=-eq-ok (evaluate_scope sig (ids.scope_denial_id n) x.0 agents items) _ admitted in
        let about =
          evaluate_scope-About sig (ids.scope_denial_id n) x.0 agents items answer scoped in
        admit_requests-IsFor (n + 1) j i' xs (after_scope-IsFor i j x answer about before after)
          rest

-- Every decision that mediate_window returns with the outcome GRANTED carries the request id and
-- the decision id of a candidate of this very window, the latter made of its request and its window
-- id, and this candidate meets the six conditions of the hard policy, on the ledger as
-- it was before the window and at the time of the decision. The candidate is one that was carried
-- forward, or the one built from a new request within its agent's scope and the stored risk item
-- that the request names.
pub mediate_window_grants :
    {F : Type 0} (ids : DecisionIds) (sig : SignatureScheme) (agents : AgentRepository)
    (items : RiskItemRepository) (s : Settings F) (new_requests : List (GrantRequest × Instant))
    (carried_forward : List Candidate) (l l' : Ledger) (result : MediationWindowResult)
    → mediate_window ids sig agents items s new_requests carried_forward l ≡ ok (result, l')
    → All
        (λ (d : GrantDecision).
          d.outcome ≡ granted
          → (c : Candidate) × (c.request.request_id ≡ d.request_id)
            × (ids.decision_id_for c.request.request_id c.window_id ≡ d.decision_id)
            × (IsAdmissible c (record { ledger = view_of l; decision_at = s.decision_at })
                × (Any (λ (k : Candidate). k ≡ c) carried_forward
                    ⊎ Any (IsBuiltFrom sig agents items c) new_requests)))
        result.decisions
unfolding mediate_window
mediate_window_grants ids sig agents items s xs carried l l' result e =
    let P = λ (c : Candidate).
      IsAdmissible c (record { ledger = view_of l; decision_at = s.decision_at })
      × Enters sig agents items xs carried c in
    let start : Intake = record { scope_decisions = []; candidates = carried } in
    let (i, admitted, rest) = >>=-eq-ok (admit_requests ids sig agents items 0 start xs) _ e in
    let ((outcomes, m), allocated, tail) =
      >>=-eq-ok (filter_and_allocate s i.candidates l) _ rest in
    let before : MediationWindowResult = record {
      decisions = i.scope_decisions;
      rescheduled_candidates = [];
      effective_incentive_bps_by_request_id = [];
    } in
    let (r, published, done) = >>=-eq-ok (publish_all ids before outcomes) _ tail in
    let ours = admit_requests-Enters sig agents items ids xs carried i admitted in
    subst (λ (x : MediationWindowResult). All (IsFor ids P) x.decisions)
      (ok_first r result m l' done)
      (publish_all-IsFor ids P before r outcomes
        (filter_and_allocate-GrantsOnly s (Enters sig agents items xs carried) i.candidates l m
          outcomes ours allocated)
        (admit_requests-IsFor ids P sig agents items 0 start i xs tt admitted) published)
