-- ===== src/Registry/Scope/Admission.antt =====
-- Which requests sampark/registry/scope.py lets through.
use sampark.Base.{
  ℕ, ◌≡◌, ◌≢◌, ◌≤◌, inl, inr, true, none, some, ok, contains, string_eq, arith, nat_eq,
  Option-cases,
}
use sampark.Contracts.{active, revoked, Agent, CapabilityScope, GrantRequest, canonical_payload}
use sampark.Registry.Store.{
  AgentRepository, RiskItemRepository, RiskItemRecord, get_agent, get_capability_scope,
  get_risk_item,
}
use sampark.Registry.Scope.{SignatureScheme, evaluate_scope, check_item}

-- What an admitted request satisfies.
pub record IsAdmitted (sig : SignatureScheme) (request : GrantRequest) (agent : Agent)
    (scope : CapabilityScope) (item : RiskItemRecord) : Type 0 where
  pub signed :
      sig.verify agent.public_key (sig.encode (canonical_payload request)) request.signature ≡ true
  pub is_live : agent.state ≡ active
  pub owner : item.customer_id ≡ request.customer_id
  pub channel : contains request.requested_channel scope.allowed_channels ≡ true
  pub intent : contains request.intent scope.allowed_intents ≡ true
  pub source : contains item.risk_item.source scope.allowed_risk_sources ≡ true
  pub ceiling : request.requested_max_incentive_bps ≤ scope.max_incentive_bps

module _ (sig : SignatureScheme) (new_id : ℕ) (request : GrantRequest) (agents : AgentRepository)
    (items : RiskItemRepository) where
  check_item-IsAdmitted :
      (agent : Agent) (scope : CapabilityScope) (item : RiskItemRecord)
      → sig.verify agent.public_key (sig.encode (canonical_payload request)) request.signature
        ≡ true
      → agent.state ≡ active
      → check_item new_id request scope item ≡ none
      → IsAdmitted sig request agent scope item
  unfolding check_item
  check_item-IsAdmitted agent scope item signed live e = ground arith

  -- A request is let through only if a registered, active agent signed it, the agent's scope and
  -- the risk item exist, the customer owns the item, and the channel, the intent, the item's source
  -- and the incentive are within the scope.
  pub evaluate_scope_sound :
      evaluate_scope sig new_id request agents items ≡ ok none
      → (agent : Agent) × (scope : CapabilityScope) × (item : RiskItemRecord) × (get_agent agents
            request.agent_id
          ≡ some agent)
        × (get_capability_scope agents agent.agent_id ≡ some scope)
        × (get_risk_item items request.risk_id ≡ some item)
        × IsAdmitted sig request agent scope item
  unfolding evaluate_scope
  evaluate_scope_sound e = elim (Option-cases (get_agent agents request.agent_id)) [
    | inl unknown ↦ absurd (ground arith)
    | inr (agent, found) ↦ elim (Option-cases (get_capability_scope agents agent.agent_id)) [
      | inl unscoped ↦ absurd (ground arith)
      | inr (scope, scoped) ↦ elim (Option-cases (get_risk_item items request.risk_id)) [
        | inl missing ↦ absurd (ground arith)
        | inr (item, owned) ↦
            let signed : sig.verify agent.public_key (sig.encode (canonical_payload request))
                  request.signature
                ≡ true =
              ground arith in
            let live : agent.state ≡ active = ground arith in
            let rest : check_item new_id request scope item ≡ none = ground arith in
            (
              agent,
              scope,
              item,
              found,
              scoped,
              owned,
              check_item-IsAdmitted agent scope item signed live rest,
            )
      ]
    ]
  ]

  -- A request is let through if a registered, active agent signed it, the agent's scope and the risk
  -- item exist, the customer owns the item, and the channel, the intent, the item's source and the
  -- incentive are within the scope.
  pub evaluate_scope_complete :
      (agent : Agent) (scope : CapabilityScope) (item : RiskItemRecord)
      → get_agent agents request.agent_id ≡ some agent
      → get_capability_scope agents agent.agent_id ≡ some scope
      → get_risk_item items request.risk_id ≡ some item
      → IsAdmitted sig request agent scope item
      → evaluate_scope sig new_id request agents items ≡ ok none
  unfolding evaluate_scope
  evaluate_scope_complete agent scope item found scoped owned a = ground arith

  -- A revoked agent's request is never let through, whatever it asks.
  pub evaluate_scope_revoked :
      (agent : Agent)
      → get_agent agents request.agent_id ≡ some agent
      → agent.state ≡ revoked
      → evaluate_scope sig new_id request agents items ≢ ok none
  unfolding evaluate_scope
  evaluate_scope_revoked agent found gone = ground arith
