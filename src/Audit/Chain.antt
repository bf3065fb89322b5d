-- ===== src/Audit/Chain.antt =====
-- sampark/audit/chain.py: the append-only, hash-chained log. The table `audit_events` is the list of
-- its rows by `seq`, and a transaction under the advisory lock is one step.
pub mod Linkage
use sampark.Base.{
  ℕ, ◌+◌, Bool, true, false, not, ◌&&◌, List, [], ◌∷◌, ◌++◌, Option, none, some, Result, ok, err,
  value_error, missing_migration, chain_fork, String, str_eq, raise_if, any, select, length,
  if◌then◌else◌, ◌==◌, ◌>>=◌, ◌>>◌,
}
use sampark.Contracts.{Instant}

-- A payload is only hashed, and searched for a grant id by the reconciliation queries.
pub record AuditEvent (P : Type 0) : Type 0 where
  pub event_id : ℕ
  pub event_type : String
  pub occurred_at : Instant
  pub prev_hash : ℕ
  pub agent_signature : Option String
  pub reason_code : Option String
  pub payload : P

-- `hash_event`, SHA-256 of the canonical bytes; the two constants that stand where a hash stands;
-- and `payload ->> 'grant_id'`, compared with a grant id.
pub record HashScheme (P : Type 0) : Type 0 where
  pub hash_event : AuditEvent P → ℕ
  pub genesis_hash : ℕ
  pub pending_prev_hash : ℕ
  pub names_grant : P → ℕ → Bool

-- The tables that this module reads. `attribution_credits` may not exist.
pub record AuditStore (P : Type 0) : Type 0 where
  pub has_seq_column : Bool
  pub audit_events : List (AuditEvent P)
  pub grants : List ℕ
  pub attribution_credits : Option (List ℕ)

pub data AppendResult (P : Type 0) : Type 0 where
  appended : AuditEvent P → ℕ → AppendResult P
  already_appended : AuditEvent P → AppendResult P

abbrev pub require_migration : {P : Type 0} → AuditStore P → Result (Unit {0})
require_migration db = raise_if (not db.has_seq_column) missing_migration

abbrev pub last : {P : Type 0} → List (AuditEvent P) → Option (AuditEvent P)
last [] = none
last (e ∷ []) = some e
last (e ∷ f ∷ es) = last (f ∷ es)

unfoldable pub head : {P : Type 0} → AuditStore P → Result (Option (AuditEvent P))
head db = do require_migration db; ok (last db.audit_events)

abbrev pub probe : {P : Type 0} → ℕ → List (AuditEvent P) → Option (AuditEvent P)
probe event_id [] = none
probe event_id (e ∷ es) =
    let rest = probe event_id es in if e.event_id == event_id then some e else rest

pub record Divergence : Type 0 where
  pub seq_index : ℕ
  pub event_id : ℕ
  pub expected_prev_hash : ℕ
  pub actual_prev_hash : ℕ

pub record VerificationReport : Type 0 where
  pub event_count : ℕ
  pub genesis_ok : Bool
  pub linkage_ok : Bool
  pub first_divergence : Option Divergence
  pub head_hash : Option ℕ
  pub missing_grant_reservations : List ℕ
  pub missing_credit_reconciliations : List ℕ

abbrev pub is_empty : List ℕ → Bool
is_empty [] = true
is_empty (x ∷ xs) = false

-- `VerificationReport.ok`
unfoldable pub is_ok : VerificationReport → Bool
is_ok r =
    r.linkage_ok
    && r.genesis_ok
    && is_empty r.missing_grant_reservations
    && is_empty r.missing_credit_reconciliations

-- The state of the loop of `verify_chain`.
pub record Walk : Type 0 where
  pub index : ℕ
  pub genesis_ok : Bool
  pub linkage_ok : Bool
  pub first_divergence : Option Divergence
  pub expected_prev : ℕ
  pub last_hash : Option ℕ

abbrev pub or_first : Option Divergence → Divergence → Option Divergence
or_first none d = some d
or_first (some first) d = some first

module _ {P : Type 0} (h : HashScheme P) where
  unfoldable pub prev_hash_after : Option (AuditEvent P) → ℕ
  prev_hash_after none = h.genesis_hash
  prev_hash_after (some e) = h.hash_event e

  -- The part of `append` after the probe.
  unfoldable pub insert_event : AuditStore P → AuditEvent P → Result (AppendResult P × AuditStore P)
  unfolding head prev_hash_after
  insert_event db event = do
    head_event ← head db
    let prev_hash = prev_hash_after head_event
    raise_if (any (λ e. e.prev_hash == prev_hash) db.audit_events) chain_fork
    let final_event = record event { prev_hash = prev_hash }
    ok (
      appended final_event (h.hash_event final_event),
      record db { audit_events = db.audit_events ++ final_event ∷ [] },
    )

  unfoldable pub append : AuditStore P → AuditEvent P → Result (AppendResult P × AuditStore P)
  unfolding insert_event
  append db event = do
    raise_if (not (event.prev_hash == h.pending_prev_hash)) value_error
    require_migration db
    elim (probe event.event_id db.audit_events) [
      | some existing ↦ ok (already_appended existing, db)
      | none ↦ insert_event db event
    ]

  unfoldable pub visit : Walk → AuditEvent P → Walk
  visit w e =
      let linked = e.prev_hash == w.expected_prev in
      record {
        index = w.index + 1;
        genesis_ok = w.genesis_ok && not (w.index == 0 && not (e.prev_hash == h.genesis_hash));
        linkage_ok = w.linkage_ok && linked;
        first_divergence =
            if linked
            then w.first_divergence
            else or_first w.first_divergence (record {
              seq_index = w.index;
              event_id = e.event_id;
              expected_prev_hash = w.expected_prev;
              actual_prev_hash = e.prev_hash;
            });
        expected_prev = h.hash_event e;
        last_hash = some (h.hash_event e);
      }

  unfoldable pub walk : Walk → List (AuditEvent P) → Walk
  unfolding visit
  walk w [] = w
  walk w (e ∷ es) = walk (visit w e) es

  abbrev pub begin : Walk
  begin = record {
    index = 0;
    genesis_ok = true;
    linkage_ok = true;
    first_divergence = none;
    expected_prev = h.genesis_hash;
    last_hash = none;
  }

  -- The grants of a table without an event of the type that names them.
  unfoldable pub unexplained : String → List (AuditEvent P) → List ℕ → List ℕ
  unexplained event_type es grants =
      select (λ g. not (any (λ e. str_eq e.event_type event_type && h.names_grant e.payload g) es))
        grants

  unfoldable pub missing_credits : AuditStore P → List ℕ
  unfolding unexplained
  missing_credits db = elim db.attribution_credits [
    | none ↦ []
    | some credits ↦ unexplained "recovery.credited" db.audit_events credits
  ]

  unfoldable pub report_of : AuditStore P → VerificationReport
  unfolding walk unexplained missing_credits
  report_of db =
      let w = walk begin db.audit_events in
      record {
        event_count = length db.audit_events;
        genesis_ok = w.genesis_ok;
        linkage_ok = w.linkage_ok;
        first_divergence = w.first_divergence;
        head_hash = w.last_hash;
        missing_grant_reservations = unexplained "grant.reserved" db.audit_events db.grants;
        missing_credit_reconciliations = missing_credits db;
      }

  unfoldable pub verify_chain : AuditStore P → Result VerificationReport
  unfolding report_of
  verify_chain db = do require_migration db; ok (report_of db)
