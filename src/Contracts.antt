-- ===== src/Contracts.antt =====
-- The data contracts: sampark/contracts/*.py and the reason-code vocabularies of
-- sampark/allocator/reason_codes.py and sampark/registry/reason_codes.py.
--
-- Identifiers (UUIDs, customer, agent and risk ids) are only compared for equality and order, so
-- they are numbers. Words with a fixed vocabulary elsewhere (channel, intent, source, root cause)
-- are strings. An instant is a number of microseconds since 1970-01-01T00:00:00Z, a date the number
-- of days since 1970-01-01.
pub mod Decision
use sampark.Base.{ℕ, String, Option, List, Bool}

abbrev pub Instant : Type 0
Instant = ℕ

abbrev pub Date : Type 0
Date = ℕ

pub data AgentState : Type 0 where
  active revoked : AgentState

pub data GrantState : Type 0 where
  reserved executing confirmed rolled_back expired : GrantState

pub data DecisionOutcome : Type 0 where
  granted denied deferred : DecisionOutcome

pub data ReasonCode : Type 0 where
  opt_out_active consent_scope_missing consent_scope_expired quiet_hours : ReasonCode
  dlt_template_unavailable : ReasonCode
  contact_cap_24h contact_cap_7d contact_slot_taken : ReasonCode
  merchant_margin_exhausted customer_margin_exhausted : ReasonCode
  interlock_dispute_open interlock_active_grant_in_window : ReasonCode
  negative_expected_net lost_to_higher_expected_net deferral_exhausted : ReasonCode
  fact_unavailable_consent_scope fact_unavailable_rto_flag : ReasonCode
  fact_unavailable_refund_in_flight fact_unavailable_fraud_review : ReasonCode
  fact_unavailable_mandate_cancellation : ReasonCode
  unknown_agent invalid_signature agent_revoked unknown_risk_item : ReasonCode
  customer_risk_item_mismatch channel_not_allowed intent_not_allowed : ReasonCode
  risk_source_not_allowed incentive_ceiling_exceeded : ReasonCode
  -- The empty string, which stands for "never reported" in the interlock matrix.
  empty_reason : ReasonCode
  -- `f"compiled.{rule_id}"`
  compiled : String → ReasonCode

pub record RiskItem : Type 0 where
  pub risk_id : ℕ
  pub source : String
  pub amount_paise : ℕ
  pub root_cause : String
  pub detected_at : Instant

pub record GrantRequest : Type 0 where
  pub request_id : ℕ
  pub agent_id : ℕ
  pub customer_id : ℕ
  pub risk_id : ℕ
  pub intent : String
  pub requested_channel : String
  pub requested_max_incentive_bps : ℕ
  pub issued_at : Instant
  pub signature : String

-- `canonical_payload`: the fields that the signature covers.
pub record SignedPayload : Type 0 where
  pub request_id : ℕ
  pub agent_id : ℕ
  pub customer_id : ℕ
  pub risk_id : ℕ
  pub intent : String
  pub requested_channel : String
  pub requested_max_incentive_bps : ℕ
  pub issued_at : Instant

unfoldable pub canonical_payload : GrantRequest → SignedPayload
canonical_payload r = record {
  request_id = r.request_id;
  agent_id = r.agent_id;
  customer_id = r.customer_id;
  risk_id = r.risk_id;
  intent = r.intent;
  requested_channel = r.requested_channel;
  requested_max_incentive_bps = r.requested_max_incentive_bps;
  issued_at = r.issued_at;
}

pub record Grant : Type 0 where
  pub grant_id : ℕ
  pub channel : String
  pub incentive_ceiling_paise : ℕ
  pub send_after : Instant
  pub expires_at : Instant
  pub state : GrantState

pub record Agent : Type 0 where
  pub agent_id : ℕ
  pub public_key : String
  pub publisher : String
  pub state : AgentState
  pub strike_count : ℕ

pub record CapabilityScope : Type 0 where
  pub allowed_channels : List String
  pub allowed_intents : List String
  pub allowed_risk_sources : List String
  pub max_incentive_bps : ℕ
  pub max_requests_per_hour : ℕ

pub record GrantDecision : Type 0 where
  pub decision_id : ℕ
  pub request_id : ℕ
  pub outcome : DecisionOutcome
  pub reason_code : Option ReasonCode
  pub next_eligible_at : Option Instant
  pub grant : Option Grant
