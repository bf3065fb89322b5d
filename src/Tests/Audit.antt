-- ===== src/Tests/Audit.antt =====
-- sampark/audit/chain.py at concrete inputs, with a small hash.
use sampark.Base.{ℕ, ◌+◌, ◌≡◌, ◌==◌, true, [], ◌∷◌, none, some, refl, ok}
use sampark.Audit.Chain.{
  AuditEvent, HashScheme, AuditStore, appended, append, verify_chain, VerificationReport,
}
use sampark.Audit.Chain.Linkage.{IsIntact, append-IsIntact, verify_chain_unique}
use sampark.Tests.Data.{nine, ten}

abbrev scheme : HashScheme ℕ
scheme = record {
  hash_event = λ e. e.event_id + 1_000;
  genesis_hash = 0;
  pending_prev_hash = 1;
  names_grant = λ payload g. payload == g;
}

abbrev reserved_event : AuditEvent ℕ
reserved_event = record {
  event_id = 5;
  event_type = "grant.reserved";
  occurred_at = nine;
  prev_hash = 0;
  agent_signature = none;
  reason_code = none;
  payload = 1_100;
}

abbrev executed_event : AuditEvent ℕ
executed_event = record reserved_event {
  event_id = 6;
  event_type = "grant.executed";
  occurred_at = ten;
  prev_hash = 1;
}

abbrev log : AuditStore ℕ
log = record {
  has_seq_column = true;
  audit_events = reserved_event ∷ [];
  grants = 1_100 ∷ [];
  attribution_credits = none;
}

abbrev chained_event : AuditEvent ℕ
chained_event = record executed_event { prev_hash = 1_005 }

abbrev longer_log : AuditStore ℕ
longer_log = record log { audit_events = reserved_event ∷ chained_event ∷ [] }

appends : append scheme log executed_event ≡ ok (appended chained_event 1_006, longer_log)
unfolding append
appends = refl

abbrev report : VerificationReport
report = record {
  event_count = 1;
  genesis_ok = true;
  linkage_ok = true;
  first_divergence = none;
  head_hash = some 1_005;
  missing_grant_reservations = [];
  missing_credit_reconciliations = [];
}

verifies : verify_chain scheme log ≡ ok report
unfolding verify_chain
verifies = refl

append-IsIntact_example : IsIntact scheme (verify_chain scheme longer_log)
append-IsIntact_example =
    append-IsIntact scheme log longer_log executed_event (appended chained_event 1_006)
      (report, verifies, refl, refl, refl) appends

verify_chain_unique_example : reserved_event ∷ [] ≡ reserved_event ∷ []
verify_chain_unique_example =
    verify_chain_unique scheme log log report report (((λ same. refl), tt), tt) verifies verifies
      refl refl refl refl
