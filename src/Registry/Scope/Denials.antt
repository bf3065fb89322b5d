-- ===== src/Registry/Scope/Denials.antt =====
-- What the decisions of sampark/registry/scope.py say of the request that was asked about.
use sampark.Base.{ℕ, ◌≡◌, ◌∙◌, inl, inr, Option, none, some, ok, arith, Bool-cases, ok_injective}
use sampark.Contracts.{
  Agent, CapabilityScope, GrantRequest, GrantDecision, denied, ReasonCode, invalid_signature,
  agent_revoked, canonical_payload,
}
use sampark.Registry.Store.{
  AgentRepository, RiskItemRepository, RiskItemRecord, get_agent, get_capability_scope,
  get_risk_item,
}
use sampark.Registry.Scope.{
  SignatureScheme, evaluate_scope, check_agent, check_scope, check_risk, check_item, is_active,
  deny,
}

abbrev pub About : GrantRequest → Option GrantDecision → Type 0
About request answer =
    (d : GrantDecision)
    → answer ≡ some d
    → (d.request_id ≡ request.request_id) × (d.outcome ≡ denied)

deny-About :
    (request : GrantRequest) (new_id : ℕ) (reason : ReasonCode)
    → About request (deny new_id request.request_id reason)
unfolding deny
deny-About request new_id reason = λ d e. ground arith

check_item-About :
    (new_id : ℕ) (request : GrantRequest) (scope : CapabilityScope) (item : RiskItemRecord)
    → About request (check_item new_id request scope item)
unfolding check_item deny
check_item-About new_id request scope item = λ d e. ground arith

check_risk-About :
    (new_id : ℕ) (request : GrantRequest) (scope : CapabilityScope) (item : Option RiskItemRecord)
    → About request (check_risk new_id request scope item)
unfolding check_risk
check_risk-About new_id request scope none = deny-About request new_id _
check_risk-About new_id request scope (some item) = check_item-About new_id request scope item

check_scope-About :
    (new_id : ℕ) (request : GrantRequest) (items : RiskItemRepository)
    (scope : Option CapabilityScope) (answer : Option GrantDecision)
    → check_scope new_id request items scope ≡ ok answer
    → About request answer
unfolding check_scope
check_scope-About new_id request items none answer e = absurd (ground arith)
check_scope-About new_id request items (some scope) answer e = λ d given.
    check_risk-About new_id request scope (get_risk_item items request.risk_id) d
      (ok_injective e ∙ given)

module _ (sig : SignatureScheme) (new_id : ℕ) (request : GrantRequest) (agents : AgentRepository)
    (items : RiskItemRepository) where
  check_agent-About :
      (agent : Option Agent) (answer : Option GrantDecision)
      → check_agent sig new_id request agents items agent ≡ ok answer
      → About request answer
  unfolding check_agent
  check_agent-About none answer =
      λ e d given. deny-About request new_id _ d (ok_injective e ∙ given)
  check_agent-About (some agent) answer =
      let signed =
        sig.verify agent.public_key (sig.encode (canonical_payload request)) request.signature in
      let denied_here =
        λ (reason : ReasonCode) (e : ok (deny new_id request.request_id reason) ≡ ok answer)
            (d : GrantDecision) (given : answer ≡ some d).
          deny-About request new_id reason d (ok_injective e ∙ given) in
      elim (Bool-cases signed) [
        | inr forged ↦ rw forged (denied_here invalid_signature)
        | inl genuine ↦ elim (Bool-cases (is_active agent.state)) [
          | inr gone ↦ rw genuine (rw gone (denied_here agent_revoked))
          | inl live ↦
              let scope = get_capability_scope agents agent.agent_id in
              rw genuine (rw live (check_scope-About new_id request items scope answer))
        ]
      ]

  pub evaluate_scope-About :
      (answer : Option GrantDecision)
      → evaluate_scope sig new_id request agents items ≡ ok answer
      → About request answer
  unfolding evaluate_scope
  evaluate_scope-About answer e = check_agent-About (get_agent agents request.agent_id) answer e
