-- ===== src/Mediation/Service/Origins.antt =====
-- Where the candidates of `mediate_window` (sampark/mediation/service.py) come from.
use sampark.Base.{
  ℕ, ◌+◌, ◌≡◌, subst, List, [], ◌∷◌, All, All-append, All-each, Any, this, among, Option, none,
  some, ok, >>=-eq-ok, ok_injective, or_raise, runtime_error, arith, ◌⊎◌, inl, inr,
}
use sampark.Contracts.{Instant, GrantRequest, GrantDecision}
use sampark.Allocator.Candidate.{Candidate, build_candidate}
use sampark.Registry.Store.{AgentRepository, RiskItemRepository, RiskItemRecord, get_risk_item}
use sampark.Registry.Scope.{SignatureScheme, evaluate_scope}
use sampark.Mediation.Service.{DecisionIds, Intake, after_scope, admit_request, admit_requests}

or_raise_found :
    {A : Type 0} (found : Option A) (a : A) → or_raise found runtime_error ≡ ok a → found ≡ some a
or_raise_found none a e = absurd (ground arith)
or_raise_found (some b) a e = ground arith

module _ (sig : SignatureScheme) (agents : AgentRepository) (items : RiskItemRepository) where
  -- The request is within its agent's scope, and the candidate is built from it, its time and the
  -- stored risk item that it names.
  pub record IsBuiltFrom (c : Candidate) (x : GrantRequest × Instant) : Type 0 where
    pub decision_id : ℕ
    pub item : RiskItemRecord
    pub in_scope : evaluate_scope sig decision_id x.0 agents items ≡ ok none
    pub stored : get_risk_item items x.0.risk_id ≡ some item
    pub built : build_candidate x.0 item.risk_item item.customer_id x.1 ≡ ok c

  -- A candidate of the window: one carried forward, or one built from a new request.
  abbrev pub Enters : List (GrantRequest × Instant) → List Candidate → Candidate → Type 0
  Enters new_requests carried_forward c =
      Any (λ (d : Candidate). d ≡ c) carried_forward ⊎ Any (IsBuiltFrom c) new_requests

  module _ (ids : DecisionIds) (Q : Candidate → Type 0) where
    after_scope-keeps :
        (n : ℕ) (i i' : Intake) (x : GrantRequest × Instant) (answer : Option GrantDecision)
        → ((c : Candidate) → IsBuiltFrom c x → Q c)
        → evaluate_scope sig n x.0 agents items ≡ ok answer
        → All Q i.candidates
        → after_scope ids sig agents items i x answer ≡ ok i'
        → All Q i'.candidates
    unfolding after_scope
    after_scope-keeps n i i' (request, at) (some d) new scoped before e =
        subst (λ (j : Intake). All Q j.candidates) (ok_injective e) before
    after_scope-keeps n i i' (request, at) none new scoped before e =
        let (item, known, rest) =
          >>=-eq-ok (or_raise (get_risk_item items request.risk_id) runtime_error) _ e in
        let (c, made, done) =
          >>=-eq-ok (build_candidate request item.risk_item item.customer_id at) _ rest in
        let origin : IsBuiltFrom c (request, at) = record {
          decision_id = n;
          item = item;
          in_scope = scoped;
          stored = or_raise_found (get_risk_item items request.risk_id) item known;
          built = made;
        } in
        subst (λ (j : Intake). All Q j.candidates) (ok_injective done)
          (All-append Q i.candidates (c ∷ []) before (new c origin, tt))

    admit_requests-keeps :
        (n : ℕ) (i i' : Intake) (xs : List (GrantRequest × Instant))
        → ((c : Candidate) → Any (IsBuiltFrom c) xs → Q c)
        → All Q i.candidates
        → admit_requests ids sig agents items n i xs ≡ ok i'
        → All Q i'.candidates
    unfolding admit_requests admit_request
    admit_requests-keeps n i i' [] new before e =
        subst (λ (j : Intake). All Q j.candidates) (ok_injective e) before
    admit_requests-keeps n i i' (x ∷ xs) new before e =
        let (j, admitted, rest) = >>=-eq-ok (admit_request ids sig agents items n i x) _ e in
        let (answer, scoped, after) =
          >>=-eq-ok (evaluate_scope sig (ids.scope_denial_id n) x.0 agents items) _ admitted in
        admit_requests-keeps (n + 1) j i' xs (λ c a. new c (among a))
          (after_scope-keeps (ids.scope_denial_id n) i j x answer (λ c b. new c (this b)) scoped
            before after)
          rest

  pub admit_requests-Enters :
      (ids : DecisionIds) (xs : List (GrantRequest × Instant)) (carried : List Candidate)
      (i : Intake)
      → admit_requests ids sig agents items 0
          (record { scope_decisions = []; candidates = carried })
          xs
        ≡ ok i
      → All (Enters xs carried) i.candidates
  admit_requests-Enters ids xs carried i e =
      admit_requests-keeps ids (Enters xs carried) 0 _ i xs (λ c a. inr a)
        (All-each (Enters xs carried) carried (λ c m. inl m)) e
