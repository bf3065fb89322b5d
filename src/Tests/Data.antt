-- ===== src/Tests/Data.antt =====
-- One customer with one risk item, one candidate for it, and the ledger of a merchant with a budget
-- of 5,000 rupees a window. Shaped like the fixtures of the tests under tests/.
use sampark.Base.{ℕ, ◌+◌, List, [], ◌∷◌, Result, ok, err}
use sampark.Base.Dict.{Dict}
use sampark.Contracts.{Instant, RiskItem, GrantRequest, Grant, reserved}
use sampark.Allocator.Candidate.{Candidate}
use sampark.Budget.Ledger.{Ledger, GrantRecord, new_ledger}
use sampark.Budget.Issuance.{IdScheme}

-- 2024-10-04 in Kolkata, at 09:00 and at 10:00.
abbrev pub nine : Instant
nine = 1_728_012_600_000_000

abbrev pub ten : Instant
ten = 1_728_016_200_000_000

abbrev pub ids : IdScheme
ids = record { grant_id_for = λ r. r + 1_000; claim_id_for = λ r. r + 2_000 }

abbrev pub cart : RiskItem
cart = record {
  risk_id = 10;
  source = "abandoned_cart";
  amount_paise = 1_000_000;
  root_cause = "price_sensitivity";
  detected_at = 1_728_000_000_000_000;
}

abbrev pub items : Dict ℕ (List RiskItem)
items = (1, cart ∷ []) ∷ []

abbrev pub ask : GrantRequest
ask = record {
  request_id = 100;
  agent_id = 7;
  customer_id = 1;
  risk_id = 10;
  intent = "payment_retry";
  requested_channel = "sms";
  requested_max_incentive_bps = 500;
  issued_at = 1_728_012_000_000_000;
  signature = "signed";
}

abbrev pub candidate : Candidate
candidate = record {
  request = ask;
  risk_item = cart;
  customer_id = 1;
  window_id = 20_000;
  proposed_send_after = nine;
  requested_incentive_ceiling_paise = 50_000;
  windows_deferred = 0;
}

abbrev pub empty_ledger : Ledger
empty_ledger = new_ledger items 9 500_000

abbrev pub ledger_of : {A : Type 0} → Result (A × Ledger) → Ledger
ledger_of (ok (a, l)) = l
ledger_of (err e) = empty_ledger

abbrev pub offer : Grant
offer = record {
  grant_id = 1_100;
  channel = "sms";
  incentive_ceiling_paise = 50_000;
  send_after = nine;
  expires_at = 1_728_019_800_000_000;
  state = reserved;
}

abbrev pub offer_record : GrantRecord
offer_record = record {
  grant = offer;
  request_id = 100;
  customer_id = 1;
  window_id = 20_000;
  claim_id = 2_100;
}
