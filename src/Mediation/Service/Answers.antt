-- ===== src/Mediation/Service/Answers.antt =====
-- Which decisions `mediate_window` of sampark/mediation/service.py returns.
use sampark.Base.{
  ℕ, ◌+◌, ◌≤◌, ◌≡◌, refl, sym, ap, ◌∙◌, Bool, List, [], ◌∷◌, Option, none, some, tally,
  tally-append, ok, arith, runtime_error, or_raise, >>=-eq-ok, ◌==◌, if◌then◌else◌, ok_first,
  ok_injective,
}
use sampark.Contracts.{Instant, GrantRequest, GrantDecision}
use sampark.Contracts.Decision.{make_decision}
use sampark.Allocator.Candidate.{Candidate, build_candidate}
use sampark.Allocator.Outcomes.{AllocationOutcome}
use sampark.Allocator.Greedy.{Settings}
use sampark.Allocator.Greedy.Census.{census, has_risk_id}
use sampark.Allocator.Greedy.Census.Exact.{HasDistinctRisks}
use sampark.Budget.Ledger.{Ledger}
use sampark.Registry.Store.{AgentRepository, RiskItemRepository, get_risk_item}
use sampark.Registry.Scope.{SignatureScheme, evaluate_scope}
use sampark.Registry.Scope.Denials.{About, evaluate_scope-About}
use sampark.Mediation.HardFilter.{filter_and_allocate}
use sampark.Mediation.HardFilter.Census.{filter_and_allocate_exact}
use sampark.Mediation.Service.{
  DecisionIds, MediationWindowResult, Intake, effective_bps, build_decision, publish, publish_all,
  after_scope, admit_request, admit_requests, mediate_window,
}

abbrev asks : ℕ → Candidate → Bool
asks id c = c.request.request_id == id

abbrev pub answers : ℕ → GrantDecision → Bool
answers id d = d.request_id == id

abbrev pub answered : ℕ → List GrantDecision → ℕ
answered id ds = tally (answers id) ds

make_decision_same : (d d' : GrantDecision) → make_decision d ≡ ok d' → d ≡ d'
unfolding make_decision
make_decision_same d d' e = ground arith

build_candidate-request :
    (request : GrantRequest) (at : Instant) (customer_id : ℕ) (c : Candidate) (item : _)
    → build_candidate request item customer_id at ≡ ok c
    → (c.request ≡ request) × (c.risk_item.risk_id ≡ request.risk_id)
unfolding build_candidate
build_candidate-request request at customer_id c item e = ground arith

module _ (ids : DecisionIds) where
  build_decision-request :
      {F : Type 0} (o : AllocationOutcome F) (d : GrantDecision)
      → build_decision ids o ≡ ok d
      → d.request_id ≡ o.candidate.request.request_id
  unfolding build_decision make_decision
  build_decision-request o d e = ground arith

  answered-publish_all :
      {F : Type 0} (id : ℕ) (r r' : MediationWindowResult) (os : List (AllocationOutcome F))
      → publish_all ids r os ≡ ok r'
      → answered id r'.decisions ≡ census (asks id) os + answered id r.decisions
  unfolding publish_all publish
  answered-publish_all id r r' [] e =
      omega (arith, ap (λ (x : MediationWindowResult). answered id x.decisions) (ok_injective e))
  answered-publish_all id r r' (o ∷ os) e =
      let (r1, published, rest) = >>=-eq-ok (publish ids r o) _ e in
      let (d, built, more) = >>=-eq-ok (build_decision ids o) _ published in
      let (bps, _, done) =
        >>=-eq-ok (effective_bps r.effective_incentive_bps_by_request_id o) _ more in
      omega (
        arith,
        answered-publish_all id r1 r' os rest,
        ap (λ (x : MediationWindowResult). answered id x.decisions) (ok_injective done),
        tally-append (answers id) r.decisions (d ∷ []),
        ap {B = ℕ} (λ n. if n == id then 1 else 0) (build_decision-request o d built),
      )

module _ (ids : DecisionIds) (sig : SignatureScheme) (agents : AgentRepository)
    (items : RiskItemRepository) where
  -- The decisions and the candidates that are about a request.
  abbrev pending : ℕ → Intake → ℕ
  pending id i = answered id i.scope_decisions + tally (asks id) i.candidates

  abbrev asks_first : ℕ → GrantRequest × Instant → Bool
  asks_first id x = x.0.request_id == id

  abbrev names_first : ℕ → GrantRequest × Instant → Bool
  names_first risk_id x = x.0.risk_id == risk_id

  -- An intake after one more request.
  abbrev Grows : Intake → Intake → GrantRequest × Instant → Type 0
  Grows i i' x =
      ((id : ℕ) → pending id i' ≡ (if asks_first id x then 1 else 0) + pending id i)
      × ((risk_id : ℕ)
          → tally (has_risk_id risk_id) i'.candidates
            ≤ (if names_first risk_id x then 1 else 0) + tally (has_risk_id risk_id) i.candidates)

  after_scope-Grows :
      (i i' : Intake) (x : GrantRequest × Instant) (answer : Option GrantDecision)
      → About x.0 answer
      → after_scope ids sig agents items i x answer ≡ ok i'
      → Grows i i' x
  unfolding after_scope
  after_scope-Grows i i' (request, at) (some d) about e =
      let grown = ok_injective e in
      (
        λ id. omega (
          arith,
          ap (pending id) grown,
          tally-append (answers id) i.scope_decisions (d ∷ []),
          ap {B = ℕ} (λ n. if n == id then 1 else 0) (about d refl).0,
        ),
        λ risk_id.
            omega (arith, ap (λ (j : Intake). tally (has_risk_id risk_id) j.candidates) grown),
      )
  after_scope-Grows i i' (request, at) none about e =
      let (item, _, rest) =
        >>=-eq-ok (or_raise (get_risk_item items request.risk_id) runtime_error) _ e in
      let (c, built, done) =
        >>=-eq-ok (build_candidate request item.risk_item item.customer_id at) _ rest in
      let (same_request, same_risk) =
        build_candidate-request request at item.customer_id c item.risk_item built in
      let grown = ok_injective done in
      (
        λ id. omega (
          arith,
          ap (pending id) grown,
          tally-append (asks id) i.candidates (c ∷ []),
          ap {B = ℕ} (λ (q : GrantRequest). if q.request_id == id then 1 else 0) same_request,
        ),
        λ risk_id. omega (
          arith,
          ap (λ (j : Intake). tally (has_risk_id risk_id) j.candidates) grown,
          tally-append (has_risk_id risk_id) i.candidates (c ∷ []),
          ap {B = ℕ} (λ n. if n == risk_id then 1 else 0) same_risk,
        ),
      )

  admit_requests-counts :
      (n : ℕ) (i i' : Intake) (xs : List (GrantRequest × Instant))
      → admit_requests ids sig agents items n i xs ≡ ok i'
      → ((id : ℕ) → pending id i' ≡ tally (asks_first id) xs + pending id i)
        × ((risk_id : ℕ)
            → tally (has_risk_id risk_id) i'.candidates
              ≤ tally (names_first risk_id) xs + tally (has_risk_id risk_id) i.candidates)
  unfolding admit_requests admit_request
  admit_requests-counts n i i' [] e =
      let same = ok_injective e in
      (
        λ id. omega (arith, ap (pending id) same),
        λ risk_id.
            omega (arith, ap (λ (j : Intake). tally (has_risk_id risk_id) j.candidates) same),
      )
  admit_requests-counts n i i' (x ∷ xs) e =
      let (j, admitted, rest) = >>=-eq-ok (admit_request ids sig agents items n i x) _ e in
      let (answer, scoped, after) =
        >>=-eq-ok (evaluate_scope sig (ids.scope_denial_id n) x.0 agents items) _ admitted in
      let one =
        after_scope-Grows i j x answer
          (evaluate_scope-About sig (ids.scope_denial_id n) x.0 agents items answer scoped) after in
      let later = admit_requests-counts (n + 1) j i' xs rest in
      (
        λ id. omega (arith, one.0 id, later.0 id),
        λ risk_id. omega (arith, one.1 risk_id, later.1 risk_id),
      )

  -- When no two of the new requests and the candidates carried forward are about one risk item and
  -- mediate_window returns, it returns one decision for each: for every request id, as many decisions
  -- carry it as there are new requests and carried-forward candidates with that id.
  pub mediate_window_answers :
      {F : Type 0} (s : Settings F) (new_requests : List (GrantRequest × Instant))
      (carried_forward : List Candidate) (l l' : Ledger) (result : MediationWindowResult)
      → ((risk_id : ℕ)
          → tally (λ (x : GrantRequest × Instant). x.0.risk_id == risk_id) new_requests
              + tally (has_risk_id risk_id) carried_forward
            ≤ 1)
      → mediate_window ids sig agents items s new_requests carried_forward l ≡ ok (result, l')
      → (id : ℕ)
      → answered id result.decisions
        ≡ tally (λ (x : GrantRequest × Instant). x.0.request_id == id) new_requests
          + tally (λ (c : Candidate). c.request.request_id == id) carried_forward
  unfolding mediate_window
  mediate_window_answers {F} s xs carried l l' result distinct e id =
      let start : Intake = record { scope_decisions = []; candidates = carried } in
      let (i, admitted, rest) = >>=-eq-ok (admit_requests ids sig agents items 0 start xs) _ e in
      let ((outcomes, m), allocated, tail) =
        >>=-eq-ok (filter_and_allocate s i.candidates l) _ rest in
      let before : MediationWindowResult = record {
        decisions = i.scope_decisions;
        rescheduled_candidates = [];
        effective_incentive_bps_by_request_id = [];
      } in
      let (r, published, done) = >>=-eq-ok (publish_all ids before outcomes) _ tail in
      let counts = admit_requests-counts 0 start i xs admitted in
      let unique : HasDistinctRisks i.candidates =
        λ risk_id. omega (arith, counts.1 risk_id, distinct risk_id) in
      ap (λ (x : MediationWindowResult). answered id x.decisions)
        (sym (ok_first r result m l' done))
      ∙ omega (
        arith,
        answered-publish_all ids id before r outcomes published,
        filter_and_allocate_exact s (asks id) i.candidates l m outcomes unique allocated,
        counts.0 id,
      )
