-- ===== src/Tests/Registry.antt =====
-- sampark/registry/ at concrete inputs, with a scheme under which "signed" is every signature.
use sampark.Base.{
  ℕ, ◌≡◌, ◌≢◌, ◌↔◌, ◌==◌, arith, [], ◌∷◌, none, some, refl, ok, str_eq, if◌then◌else◌, nat_eq,
}
use sampark.Base.Dict.{lookup}
use sampark.Contracts.{
  Agent, CapabilityScope, active, revoked, channel_not_allowed, invalid_signature,
  intent_not_allowed, risk_source_not_allowed, incentive_ceiling_exceeded,
}
use sampark.Registry.Store.{
  AgentRepository, RiskItemRepository, RiskItemRecord, get_agent, get_capability_scope,
  get_risk_item, register,
}
use sampark.Registry.Store.Laws.{register_fresh}
use sampark.Registry.Scope.{SignatureScheme, evaluate_scope}
use sampark.Registry.Scope.Admission.{IsAdmitted, evaluate_scope_sound, evaluate_scope_complete}
use sampark.Registry.Strikes.{record_scope_denial}
use sampark.Registry.Strikes.Revocation.{record_scope_denial_strikes, record_scope_denial_spares}
use sampark.Tests.Data.{ask, cart}

abbrev pub scheme : SignatureScheme
scheme = record {
  encode = λ payload. payload.request_id ∷ [];
  verify = λ key message sig. str_eq sig "signed";
}

abbrev agent : Agent
agent = record {
  agent_id = 7;
  public_key = "key";
  publisher = "publisher";
  state = active;
  strike_count = 2;
}

abbrev scope : CapabilityScope
scope = record {
  allowed_channels = "sms" ∷ "whatsapp" ∷ [];
  allowed_intents = "payment_retry" ∷ [];
  allowed_risk_sources = "abandoned_cart" ∷ [];
  max_incentive_bps = 500;
  max_requests_per_hour = 60;
}

abbrev stored_cart : RiskItemRecord
stored_cart = record { risk_item = cart; customer_id = 1 }

abbrev pub agents : AgentRepository
agents = record { agents = (7, agent) ∷ []; scopes = (7, scope) ∷ [] }

abbrev pub risk_items : RiskItemRepository
risk_items = (10, stored_cart) ∷ []

in_scope : evaluate_scope scheme 1 ask agents risk_items ≡ ok none
unfolding evaluate_scope
in_scope = refl

found : get_agent agents 7 ≡ some agent
unfolding get_agent
found = refl

scoped : get_capability_scope agents 7 ≡ some scope
unfolding get_capability_scope
scoped = refl

owned : get_risk_item risk_items 10 ≡ some stored_cart
unfolding get_risk_item
owned = refl

ask-IsAdmitted : IsAdmitted scheme ask agent scope stored_cart
ask-IsAdmitted = record {
  signed = refl;
  is_live = refl;
  owner = refl;
  channel = refl;
  intent = refl;
  source = refl;
  ceiling = omega arith;
}

evaluate_scope_sound_example :
    (a : Agent) × (s : CapabilityScope) × (item : RiskItemRecord) × (get_agent agents 7 ≡ some a)
    × (get_capability_scope agents a.agent_id ≡ some s)
    × (get_risk_item risk_items 10 ≡ some item)
    × IsAdmitted scheme ask a s item
evaluate_scope_sound_example = evaluate_scope_sound scheme 1 ask agents risk_items in_scope

evaluate_scope_complete_example : evaluate_scope scheme 1 ask agents risk_items ≡ ok none
evaluate_scope_complete_example =
    evaluate_scope_complete scheme 1 ask agents risk_items agent scope stored_cart found scoped
      owned ask-IsAdmitted

-- The third strike.
record_scope_denial_strikes_example :
    (updated : Agent) × (repo' : AgentRepository) × (record_scope_denial agents agent
        (some channel_not_allowed)
      ≡ ok (updated, repo'))
    × (updated.strike_count ≡ 3)
    × ((updated.state ≡ revoked) ↔ (updated.strike_count ≡ 3))
    × (get_agent repo' 7 ≡ some updated)
    × ((k : ℕ) → 7 ≢ k → get_agent repo' k ≡ get_agent agents k)
    × (repo'.scopes ≡ agents.scopes)
record_scope_denial_strikes_example =
    record_scope_denial_strikes agents agent agent (some channel_not_allowed) refl refl
      (omega arith) found

record_scope_denial_spares_example :
    (record_scope_denial agents agent (some invalid_signature) ≡ ok (agent, agents)) ↔ (
      (some invalid_signature ≢ some channel_not_allowed)
      × (some invalid_signature ≢ some intent_not_allowed)
      × (some invalid_signature ≢ some risk_source_not_allowed)
      × (some invalid_signature ≢ some incentive_ceiling_exceeded))
record_scope_denial_spares_example =
    record_scope_denial_spares agents agent (some invalid_signature)

abbrev no_agents : AgentRepository
no_agents = record { agents = []; scopes = [] }

unregistered : lookup 7 no_agents.agents ≡ none
unfolding lookup
unregistered = refl

register_fresh_example :
    (after : AgentRepository) × (register no_agents agent scope ≡ ok after)
    × ((k : ℕ) → lookup k after.agents ≡ (if 7 == k then some agent else lookup k no_agents.agents))
    × ((k : ℕ) → lookup k after.scopes ≡ (if 7 == k then some scope else lookup k no_agents.scopes))
    × (register after agent scope ≡ ok after)
register_fresh_example = register_fresh no_agents agent scope unregistered
