-- ===== src/Registry/Strikes/Revocation.antt =====
-- When sampark/registry/strikes.py revokes an agent.
use sampark.Base.{
  ℕ, ◌+◌, ◌<◌, ◌≡◌, ◌≢◌, ◌↔◌, leb, refl, true, false, Option, some, ok, arith, nat_eq,
  if◌then◌else◌, Bool-cases, inl, inr,
}
use sampark.Base.Dict.{insert, lookup-insert, has_key}
use sampark.Contracts.{
  Agent, active, revoked, ReasonCode, channel_not_allowed, intent_not_allowed,
  risk_source_not_allowed, incentive_ceiling_exceeded,
}
use sampark.Registry.Store.{AgentRepository, get_agent}
use sampark.Registry.Strikes.{is_strike_worthy, record_scope_denial}

-- A scope violation of a stored, active agent with fewer than three strikes adds a strike, revokes
-- the agent exactly at the third, and stores it, leaving every other agent and all scopes alone.
pub record_scope_denial_strikes :
    (repo : AgentRepository) (agent stored : Agent) (reason : Option ReasonCode)
    → is_strike_worthy reason ≡ true
    → agent.state ≡ active
    → agent.strike_count < 3
    → get_agent repo agent.agent_id ≡ some stored
    → (updated : Agent) × (repo' : AgentRepository) × (record_scope_denial repo agent reason
        ≡ ok (updated, repo'))
      × (updated.strike_count ≡ agent.strike_count + 1)
      × ((updated.state ≡ revoked) ↔ (updated.strike_count ≡ 3))
      × (get_agent repo' agent.agent_id ≡ some updated)
      × ((k : ℕ) → agent.agent_id ≢ k → get_agent repo' k ≡ get_agent repo k)
      × (repo'.scopes ≡ repo.scopes)
unfolding record_scope_denial get_agent has_key
record_scope_denial_strikes repo agent stored reason worthy live few found =
    let updated : Agent = record agent {
      strike_count = agent.strike_count + 1;
      state = if leb 3 (agent.strike_count + 1) then revoked else active;
    } in
    (
      updated,
      record repo { agents = insert agent.agent_id updated repo.agents },
      ground arith,
      refl,
      ground arith,
      ground (arith, lookup-insert agent.agent_id agent.agent_id updated repo.agents),
      λ k other. ground (arith, lookup-insert k agent.agent_id updated repo.agents),
      refl,
    )

-- A strike that goes through leaves another strike count.
strike_shows :
    (repo : AgentRepository) (agent : Agent) (reason : Option ReasonCode)
    → is_strike_worthy reason ≡ true
    → record_scope_denial repo agent reason ≢ ok (agent, repo)
unfolding record_scope_denial
strike_shows repo agent reason worthy e = elim (Bool-cases (has_key agent.agent_id repo.agents)) [
  | inl k ↦ ground arith
  | inr k ↦ ground arith
]

mild :
    (reason : Option ReasonCode)
    → reason ≢ some channel_not_allowed
    → reason ≢ some intent_not_allowed
    → reason ≢ some risk_source_not_allowed
    → reason ≢ some incentive_ceiling_exceeded
    → is_strike_worthy reason ≡ false
mild reason a b c d = ground arith

-- record_scope_denial leaves agent and repository as they are exactly when the reason is none of a
-- channel, an intent, a risk source or an incentive ceiling out of scope, whatever the agent's state:
-- for those four it changes something or raises, and a forged signature, an unknown or revoked
-- agent, an unknown risk item or another customer's risk item strikes nobody.
pub record_scope_denial_spares :
    (repo : AgentRepository) (agent : Agent) (reason : Option ReasonCode)
    → (record_scope_denial repo agent reason ≡ ok (agent, repo)) ↔ (
        (reason ≢ some channel_not_allowed)
        × (reason ≢ some intent_not_allowed)
        × (reason ≢ some risk_source_not_allowed)
        × (reason ≢ some incentive_ceiling_exceeded))
unfolding record_scope_denial
record_scope_denial_spares repo agent reason = (
  λ same. (
    λ e. strike_shows repo agent reason (rw e refl) same,
    λ e. strike_shows repo agent reason (rw e refl) same,
    λ e. strike_shows repo agent reason (rw e refl) same,
    λ e. strike_shows repo agent reason (rw e refl) same,
  ),
  λ other. rw (mild reason other.0 other.1 other.2 other.3) refl,
)
