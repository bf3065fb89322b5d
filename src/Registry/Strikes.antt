-- ===== src/Registry/Strikes.antt =====
-- sampark/registry/strikes.py: strikes and revocation.
pub mod Revocation
use sampark.Base.{
  ℕ, ◌+◌, Bool, true, false, not, Option, none, some, Result, ok, err, value_error, leb,
  if◌then◌else◌, ◌>>=◌, raise_if, ◌>>◌,
}
use sampark.Contracts.{
  Agent, AgentState, active, revoked, ReasonCode, channel_not_allowed, intent_not_allowed,
  risk_source_not_allowed, incentive_ceiling_exceeded,
}
use sampark.Registry.Store.{AgentRepository, save_agent}
use sampark.Registry.Scope.{is_active}

abbrev pub strike_threshold : ℕ
strike_threshold = 3

-- Membership in STRIKE_WORTHY_REASON_CODES; `None` is no member.
abbrev pub is_strike_worthy : Option ReasonCode → Bool
is_strike_worthy (some channel_not_allowed) = true
is_strike_worthy (some intent_not_allowed) = true
is_strike_worthy (some risk_source_not_allowed) = true
is_strike_worthy (some incentive_ceiling_exceeded) = true
is_strike_worthy _ = false

unfoldable pub apply_strike : Agent → Result Agent
apply_strike agent = do
  raise_if (not (is_active agent.state)) value_error
  let new_strike_count = agent.strike_count + 1
  ok (record agent {
    strike_count = new_strike_count;
    state = if leb strike_threshold new_strike_count then revoked else active;
  })

unfoldable pub revoke : Agent → Agent
revoke agent = record agent { state = revoked }

-- Returns the agent as it is now, and the repository.
unfoldable pub record_scope_denial :
    AgentRepository → Agent → Option ReasonCode → Result (Agent × AgentRepository)
unfolding apply_strike save_agent
record_scope_denial repo agent reason_code =
    if not (is_strike_worthy reason_code)
    then ok (agent, repo)
    else (do updated ← apply_strike agent; repo' ← save_agent repo updated; ok (updated, repo'))
