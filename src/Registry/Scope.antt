-- ===== src/Registry/Scope.antt =====
-- sampark/registry/scope.py: is a request within the declared capability of its agent?
--
-- The signature check (sampark/registry/signing.py, over PyNaCl's Ed25519 and base64) and the JSON
-- encoding of the signed fields are functions of the model. `uuid4()` is an argument.
pub mod Admission
pub mod Denials
use sampark.Base.{
  ℕ, ◌≡◌, Bool, true, false, not, List, Option, none, some, Result, ok, err, runtime_error, String,
  contains, string_eq, leb, ltb, ◌==◌, if◌then◌else◌,
}
use sampark.Contracts.{
  AgentState, active, revoked, Agent, CapabilityScope, GrantRequest, GrantDecision, SignedPayload,
  canonical_payload, ReasonCode, denied, unknown_agent, invalid_signature, agent_revoked,
  unknown_risk_item, customer_risk_item_mismatch, channel_not_allowed, intent_not_allowed,
  risk_source_not_allowed, incentive_ceiling_exceeded,
}
use sampark.Registry.Store.{
  AgentRepository, RiskItemRepository, RiskItemRecord, get_agent, get_capability_scope,
  get_risk_item,
}

-- `verify public_key message signature`, and the bytes of the signed fields.
pub record SignatureScheme : Type 0 where
  pub encode : SignedPayload → List ℕ
  pub verify : String → List ℕ → String → Bool

unfoldable pub deny : ℕ → ℕ → ReasonCode → Option GrantDecision
deny decision_id request_id reason = some (record {
  decision_id = decision_id;
  request_id = request_id;
  outcome = denied;
  reason_code = some reason;
  next_eligible_at = none;
  grant = none;
})

abbrev pub is_active : AgentState → Bool
is_active active = true
is_active revoked = false

-- Steps 6 to 10, with the scope and the risk item at hand.
unfoldable pub check_item :
    ℕ → GrantRequest → CapabilityScope → RiskItemRecord → Option GrantDecision
unfolding deny
check_item new_id request scope item =
    if not (item.customer_id == request.customer_id)
    then deny new_id request.request_id customer_risk_item_mismatch
    else if not (contains request.requested_channel scope.allowed_channels)
    then deny new_id request.request_id channel_not_allowed
    else if not (contains request.intent scope.allowed_intents)
    then deny new_id request.request_id intent_not_allowed
    else if not (contains item.risk_item.source scope.allowed_risk_sources)
    then deny new_id request.request_id risk_source_not_allowed
    else if ltb scope.max_incentive_bps request.requested_max_incentive_bps
    then deny new_id request.request_id incentive_ceiling_exceeded
    else none

-- Step 5.
unfoldable pub check_risk :
    ℕ → GrantRequest → CapabilityScope → Option RiskItemRecord → Option GrantDecision
unfolding check_item deny
check_risk new_id request scope none = deny new_id request.request_id unknown_risk_item
check_risk new_id request scope (some item) = check_item new_id request scope item

-- Step 4: an active agent without a scope is corrupt registry data.
unfoldable pub check_scope :
    ℕ → GrantRequest → RiskItemRepository → Option CapabilityScope → Result (Option GrantDecision)
unfolding check_risk get_risk_item
check_scope new_id request items none = err runtime_error
check_scope new_id request items (some scope) =
    ok (check_risk new_id request scope (get_risk_item items request.risk_id))

module _ (sig : SignatureScheme) where
  -- Steps 2 and 3.
  unfoldable pub check_agent :
      ℕ
      → GrantRequest
      → AgentRepository
      → RiskItemRepository
      → Option Agent
      → Result (Option GrantDecision)
  unfolding check_scope deny get_capability_scope
  check_agent new_id request agents items none = ok (deny new_id request.request_id unknown_agent)
  check_agent new_id request agents items (some agent) =
      if not
        (sig.verify agent.public_key (sig.encode (canonical_payload request)) request.signature)
      then ok (deny new_id request.request_id invalid_signature)
      else if not (is_active agent.state)
      then ok (deny new_id request.request_id agent_revoked)
      else check_scope new_id request items (get_capability_scope agents agent.agent_id)

  -- Step 1 and the rest: `none` means that the request is within scope.
  unfoldable pub evaluate_scope :
      ℕ → GrantRequest → AgentRepository → RiskItemRepository → Result (Option GrantDecision)
  unfolding check_agent get_agent
  evaluate_scope new_id request agents items =
      check_agent new_id request agents items (get_agent agents request.agent_id)
