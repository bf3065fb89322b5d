-- ===== src/Policy/Verdict.antt =====
-- sampark/policy/types.py: verdicts, and the read-only view of a ledger that the rules read.
use sampark.Base.{ℕ, Bool, true, false, List, String, Result}
use sampark.Contracts.{Instant, Date, RiskItem, ReasonCode}
use sampark.Budget.Ledger.{
  Ledger, optouts_by_channel, risk_items_for_customer, rolling_contact_counts, has_active_claim,
}

-- The four class methods of HardVerdict, which are the only ways in which one is built.
pub data HardVerdict : Type 0 where
  admissible : HardVerdict
  deny : ReasonCode → HardVerdict
  defer : ReasonCode → Instant → HardVerdict
  fact_unavailable : ReasonCode → HardVerdict

abbrev pub is_deny : HardVerdict → Bool
is_deny (deny reason) = true
is_deny _ = false

abbrev pub is_defer : HardVerdict → Bool
is_defer (defer reason next) = true
is_defer _ = false

-- What the rules read. `consent_scopes` is read and never interpreted, so it is left out.
pub record MediationLedgerView : Type 0 where
  pub optouts : ℕ → List String
  pub risk_items : ℕ → List RiskItem
  pub contact_counts : ℕ → Instant → Result (ℕ × ℕ)
  pub active_claim : ℕ → Date → Bool

pub record PolicyContext : Type 0 where
  pub ledger : MediationLedgerView
  pub decision_at : Instant

-- The in-memory ledger as such a view.
unfoldable pub view_of : Ledger → MediationLedgerView
view_of l = record {
  optouts = optouts_by_channel l;
  risk_items = risk_items_for_customer l;
  contact_counts = rolling_contact_counts l;
  active_claim = has_active_claim l;
}
