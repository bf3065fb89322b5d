-- ===== src/Policy/Hard.antt =====
-- sampark/policy/hard/*.py: the eleven rules and the chain that runs them in order.
pub mod Chain
pub mod Admission
use sampark.Base.{
  ℕ, Bool, true, false, ◌&&◌, ◌||◌, List, [], ◌∷◌, ◌++◌, Option, none, some, Result, ok, err,
  assertion_error, String, contains, any, str_eq, string_eq, leb, ltb, if◌then◌else◌, ◌>>=◌,
}
use sampark.Contracts.{
  Instant, Date, RiskItem, ReasonCode, opt_out_active, quiet_hours, dlt_template_unavailable,
  contact_cap_24h, contact_cap_7d, interlock_dispute_open, interlock_active_grant_in_window,
  fact_unavailable_consent_scope, fact_unavailable_rto_flag, fact_unavailable_refund_in_flight,
  fact_unavailable_fraud_review, fact_unavailable_mandate_cancellation, empty_reason,
}
use sampark.Allocator.Candidate.{Candidate}
use sampark.Budget.Windows.{is_quiet_hours, next_quiet_hours_boundary, next_window_start}
use sampark.Budget.Issuance.{contact_cap_24h_limit, contact_cap_7d_limit}
use sampark.Policy.Verdict.{HardVerdict, admissible, deny, defer, fact_unavailable, PolicyContext}

abbrev pub HardRule : Type 0
HardRule = Candidate → PolicyContext → Result HardVerdict

unfoldable pub opt_out : HardRule
opt_out c ctx = ok (
    if contains c.request.requested_channel (ctx.ledger.optouts c.customer_id)
    then deny opt_out_active
    else admissible)

unfoldable pub consent_scope : HardRule
consent_scope c ctx = ok (fact_unavailable fact_unavailable_consent_scope)

-- The keys of REGISTERED_TEMPLATES.
unfoldable pub is_registered : String → String → Bool
is_registered intent channel =
    (str_eq intent "payment_retry" && str_eq channel "sms")
    || (str_eq intent "cart_recovery" && str_eq channel "whatsapp")
    || (str_eq intent "mandate_retry" && str_eq channel "whatsapp")
    || (str_eq intent "receivables_followup" && str_eq channel "voice")

unfoldable pub dlt_template : HardRule
dlt_template c ctx = ok (
    if is_registered c.request.intent c.request.requested_channel
    then admissible
    else deny dlt_template_unavailable)

-- A row of the conflict matrix. A condition of `none` is an unavailable fact.
pub record Interlock : Type 0 where
  pub reason_code : ReasonCode
  pub defers : Bool
  pub applies_to : Candidate → Bool
  pub condition : Candidate → PolicyContext → Option Bool
  pub unavailable_reason_code : Option ReasonCode

unfoldable pub is_disputed : RiskItem → Bool
is_disputed item = str_eq item.root_cause "disputed"

abbrev pub unavailable : Candidate → PolicyContext → Option Bool
unavailable c ctx = none

abbrev pub dispute_open : Interlock
dispute_open = record {
  reason_code = interlock_dispute_open;
  defers = false;
  applies_to = λ c. ltb 0 c.request.requested_max_incentive_bps;
  condition = λ c ctx. some (any is_disputed (ctx.ledger.risk_items c.customer_id));
  unavailable_reason_code = none;
}

abbrev pub rto_flag : Interlock
rto_flag = record {
  reason_code = empty_reason;
  defers = false;
  applies_to = λ c. str_eq c.request.intent "cart_recovery";
  condition = unavailable;
  unavailable_reason_code = some fact_unavailable_rto_flag;
}

abbrev pub refund_in_flight : Interlock
refund_in_flight = record {
  reason_code = empty_reason;
  defers = false;
  applies_to =
      λ c. str_eq c.request.intent "payment_retry" || str_eq c.request.intent "mandate_retry";
  condition = unavailable;
  unavailable_reason_code = some fact_unavailable_refund_in_flight;
}

abbrev pub fraud_review : Interlock
fraud_review = record {
  reason_code = empty_reason;
  defers = false;
  applies_to = λ c. ltb 0 c.request.requested_max_incentive_bps;
  condition = unavailable;
  unavailable_reason_code = some fact_unavailable_fraud_review;
}

abbrev pub mandate_cancellation : Interlock
mandate_cancellation = record {
  reason_code = empty_reason;
  defers = false;
  applies_to = λ c. str_eq c.request.intent "mandate_retry";
  condition = unavailable;
  unavailable_reason_code = some fact_unavailable_mandate_cancellation;
}

abbrev pub active_grant_in_window : Interlock
active_grant_in_window = record {
  reason_code = interlock_active_grant_in_window;
  defers = true;
  applies_to = λ c. true;
  condition = λ c ctx. some (ctx.ledger.active_claim c.customer_id c.window_id);
  unavailable_reason_code = none;
}

-- An unavailable fact must have its reason: the code asserts it.
unfoldable pub judge : Interlock → Candidate → Option Bool → Result HardVerdict
judge i c none = elim i.unavailable_reason_code [
  | none ↦ err assertion_error
  | some reason ↦ ok (fact_unavailable reason)
]
judge i c (some false) = ok admissible
judge i c (some true) =
    ok
      (if i.defers then defer i.reason_code (next_window_start c.window_id) else deny i.reason_code)

-- `_make_evaluator`
unfoldable pub evaluate_interlock : Interlock → HardRule
unfolding judge
evaluate_interlock i c ctx = if i.applies_to c then judge i c (i.condition c ctx) else ok admissible

-- sampark/policy/hard/quiet_hours.py
unfoldable pub quiet_hours_rule : HardRule
quiet_hours_rule c ctx =
    if is_quiet_hours c.proposed_send_after
    then (do
      next_eligible ← next_quiet_hours_boundary c.proposed_send_after
      ok (defer quiet_hours next_eligible))
    else ok admissible

unfoldable pub contact_cap : HardRule
contact_cap c ctx = do
  (c24, c7) ← ctx.ledger.contact_counts c.customer_id ctx.decision_at
  let next_eligible = next_window_start c.window_id
  ok (
      if leb contact_cap_24h_limit c24
      then defer contact_cap_24h next_eligible
      else if leb contact_cap_7d_limit c7
      then defer contact_cap_7d next_eligible
      else admissible)

unfoldable pub hard_rules : List HardRule
hard_rules =
    opt_out
    ∷ consent_scope
    ∷ dlt_template
    ∷ evaluate_interlock dispute_open
    ∷ evaluate_interlock rto_flag
    ∷ evaluate_interlock refund_in_flight
    ∷ evaluate_interlock fraud_review
    ∷ evaluate_interlock mandate_cancellation
    ∷ evaluate_interlock active_grant_in_window
    ∷ quiet_hours_rule
    ∷ contact_cap
    ∷ []

pub record HardFilterResult : Type 0 where
  pub verdict : HardVerdict
  pub fact_unavailable_reason_codes : List ReasonCode

-- What the loop does with a rule's verdict: `rest` runs the remaining rules.
abbrev pub continue_with :
    (List ReasonCode → Result HardFilterResult)
    → List ReasonCode
    → HardVerdict
    → Result HardFilterResult
continue_with rest gaps admissible = rest gaps
continue_with rest gaps (fact_unavailable reason) = rest (gaps ++ reason ∷ [])
continue_with rest gaps (deny reason) =
    ok (record { verdict = deny reason; fact_unavailable_reason_codes = gaps })
continue_with rest gaps (defer reason next) =
    ok (record { verdict = defer reason next; fact_unavailable_reason_codes = gaps })

-- The loop of `evaluate_all`, with the gaps recorded so far.
unfoldable pub run_rules :
    List HardRule → Candidate → PolicyContext → List ReasonCode → Result HardFilterResult
run_rules [] c ctx gaps = ok (record { verdict = admissible; fact_unavailable_reason_codes = gaps })
run_rules (rule ∷ rules) c ctx gaps = rule c ctx >>= continue_with (run_rules rules c ctx) gaps

unfoldable pub evaluate_all : Candidate → PolicyContext → Result HardFilterResult
unfolding run_rules hard_rules
evaluate_all c ctx = run_rules hard_rules c ctx []
