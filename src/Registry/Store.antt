-- ===== src/Registry/Store.antt =====
-- sampark/registry/store.py: the in-memory repositories of agents and of risk items.
pub mod Laws
use sampark.Base.{
  ℕ, Bool, true, false, not, ◌&&◌, List, [], ◌∷◌, Option, none, some, Result, ok, err, key_error,
  registration_conflict, or_raise, raise_if, String, str_eq, ◌==◌, if◌then◌else◌, ◌>>=◌, ◌>>◌,
  nat_eq,
}
use sampark.Base.Dict.{Dict, lookup, insert, has_key}
use sampark.Contracts.{Agent, AgentState, active, revoked, CapabilityScope, RiskItem}

pub record RiskItemRecord : Type 0 where
  pub risk_item : RiskItem
  pub customer_id : ℕ

pub record AgentRepository : Type 0 where
  pub agents : Dict ℕ Agent
  pub scopes : Dict ℕ CapabilityScope

abbrev pub RiskItemRepository : Type 0
RiskItemRepository = Dict ℕ RiskItemRecord

unfoldable pub get_agent : AgentRepository → ℕ → Option Agent
unfolding lookup
get_agent repo agent_id = lookup agent_id repo.agents

unfoldable pub get_capability_scope : AgentRepository → ℕ → Option CapabilityScope
unfolding lookup
get_capability_scope repo agent_id = lookup agent_id repo.scopes

abbrev agent_state_eq : AgentState → AgentState → Bool
agent_state_eq active active = true
agent_state_eq revoked revoked = true
agent_state_eq _ _ = false

abbrev words_eq : List String → List String → Bool
words_eq [] [] = true
words_eq (x ∷ xs) (y ∷ ys) = str_eq x y && words_eq xs ys
words_eq _ _ = false

-- `==` on the two models compares their fields.
unfoldable pub agent_eq : Agent → Agent → Bool
agent_eq a b =
    a.agent_id == b.agent_id
    && str_eq a.public_key b.public_key
    && str_eq a.publisher b.publisher
    && agent_state_eq a.state b.state
    && a.strike_count == b.strike_count

unfoldable pub scope_eq : CapabilityScope → CapabilityScope → Bool
scope_eq s t =
    words_eq s.allowed_channels t.allowed_channels
    && words_eq s.allowed_intents t.allowed_intents
    && words_eq s.allowed_risk_sources t.allowed_risk_sources
    && s.max_incentive_bps == t.max_incentive_bps
    && s.max_requests_per_hour == t.max_requests_per_hour

unfoldable pub register : AgentRepository → Agent → CapabilityScope → Result AgentRepository
unfolding lookup insert agent_eq scope_eq
register repo agent scope = elim (lookup agent.agent_id repo.agents) [
  | some existing_agent ↦ do
    existing_scope ← or_raise (lookup agent.agent_id repo.scopes) key_error
    if agent_eq existing_agent agent && scope_eq existing_scope scope
        then ok repo
        else err registration_conflict
  | none ↦ ok (record {
    agents = insert agent.agent_id agent repo.agents;
    scopes = insert agent.agent_id scope repo.scopes;
  })
]

unfoldable pub save_agent : AgentRepository → Agent → Result AgentRepository
unfolding has_key insert
save_agent repo agent = do
  raise_if (not (has_key agent.agent_id repo.agents)) key_error
  ok (record repo { agents = insert agent.agent_id agent repo.agents })

-- `InMemoryRiskItemRepository.add` and `get_risk_item`.
unfoldable pub add_risk_item : RiskItemRepository → RiskItem → ℕ → RiskItemRepository
unfolding insert
add_risk_item repo risk_item customer_id =
    insert risk_item.risk_id (record { risk_item = risk_item; customer_id = customer_id }) repo

unfoldable pub get_risk_item : RiskItemRepository → ℕ → Option RiskItemRecord
unfolding lookup
get_risk_item repo risk_id = lookup risk_id repo
