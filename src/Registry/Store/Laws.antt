-- ===== src/Registry/Store/Laws.antt =====
-- Registration in sampark/registry/store.py.
use sampark.Base.{
  ℕ, ◌≡◌, refl, true, List, [], ◌∷◌, none, some, ok, String, str_eq_iff, arith, nat_eq, ◌==◌,
  if◌then◌else◌,
}
use sampark.Base.Dict.{lookup, insert, lookup-insert}
use sampark.Contracts.{Agent, AgentState, CapabilityScope}
use sampark.Registry.Store.{AgentRepository, register, agent_eq, scope_eq, words_eq, agent_state_eq}

words_eq_refl : (xs : List String) → words_eq xs xs ≡ true
words_eq_refl [] = refl
words_eq_refl (x ∷ xs) = ground (arith, str_eq_iff x x, words_eq_refl xs)

agent_state_eq_refl : (s : AgentState) → agent_state_eq s s ≡ true
agent_state_eq_refl s = ground arith

agent_eq_refl : (a : Agent) → agent_eq a a ≡ true
unfolding agent_eq
agent_eq_refl a = ground (
  arith,
  str_eq_iff a.public_key a.public_key,
  str_eq_iff a.publisher a.publisher,
  agent_state_eq_refl a.state,
)

scope_eq_refl : (s : CapabilityScope) → scope_eq s s ≡ true
unfolding scope_eq
scope_eq_refl s = ground (
  arith,
  words_eq_refl s.allowed_channels,
  words_eq_refl s.allowed_intents,
  words_eq_refl s.allowed_risk_sources,
)

-- A new agent is stored with its scope, every other agent and scope is left as it was, and
-- registering the same agent and scope again changes nothing.
pub register_fresh :
    (repo : AgentRepository) (agent : Agent) (scope : CapabilityScope)
    → lookup agent.agent_id repo.agents ≡ none
    → (after : AgentRepository) × (register repo agent scope ≡ ok after)
      × ((k : ℕ)
          → lookup k after.agents
            ≡ (if agent.agent_id == k then some agent else lookup k repo.agents))
      × ((k : ℕ)
          → lookup k after.scopes
            ≡ (if agent.agent_id == k then some scope else lookup k repo.scopes))
      × (register after agent scope ≡ ok after)
unfolding register
register_fresh repo agent scope fresh =
    let after : AgentRepository = record {
      agents = insert agent.agent_id agent repo.agents;
      scopes = insert agent.agent_id scope repo.scopes;
    } in
    (
      after,
      rw (fresh, register) refl,
      λ k. lookup-insert k agent.agent_id agent repo.agents,
      λ k. lookup-insert k agent.agent_id scope repo.scopes,
      ground (
        arith,
        lookup-insert agent.agent_id agent.agent_id agent repo.agents,
        lookup-insert agent.agent_id agent.agent_id scope repo.scopes,
        agent_eq_refl agent,
        scope_eq_refl scope,
      ),
    )

-- A registration that returns for a known agent has changed nothing.
pub register_known :
    (repo after : AgentRepository) (agent old : Agent) (scope : CapabilityScope)
    → lookup agent.agent_id repo.agents ≡ some old
    → register repo agent scope ≡ ok after
    → after ≡ repo
unfolding register
register_known repo after agent old scope known e = ground arith
