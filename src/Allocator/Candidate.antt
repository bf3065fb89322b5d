-- ===== src/Allocator/Candidate.antt =====
-- sampark/allocator/candidate.py.
use sampark.Base.{
  ℕ, ◌+◌, ◌*◌, ◌/◌, ◌<◌, ◌≡◌, not, Result, ok, value_error, raise_if, leb, arith, ◌==◌, ◌>>◌,
}
use sampark.Contracts.{Instant, Date, GrantRequest, RiskItem}
use sampark.Budget.Windows.{window_id_for}

pub record Candidate : Type 0 where
  pub request : GrantRequest
  pub risk_item : RiskItem
  pub customer_id : ℕ
  pub window_id : Date
  pub proposed_send_after : Instant
  pub requested_incentive_ceiling_paise : ℕ
  pub windows_deferred : ℕ

-- `Candidate.__post_init__`
unfoldable pub check_candidate : Candidate → Result Candidate
check_candidate c = do
  raise_if (not (c.risk_item.risk_id == c.request.risk_id)) value_error
  raise_if (leb 10_000 c.request.requested_max_incentive_bps) value_error
  ok c

-- `dataclasses.replace` runs `__post_init__` again, on the two fields that it leaves alone.
unfoldable pub aged : Candidate → Candidate
aged c = record c { windows_deferred = c.windows_deferred + 1 }

unfoldable pub rescheduled : Candidate → Date → Instant → Candidate
rescheduled c window_id send_after = record c {
  window_id = window_id;
  proposed_send_after = send_after;
}

unfoldable pub build_candidate : GrantRequest → RiskItem → ℕ → Instant → Result Candidate
unfolding check_candidate
build_candidate request risk_item customer_id proposed_send_after = check_candidate (record {
  request = request;
  risk_item = risk_item;
  customer_id = customer_id;
  window_id = window_id_for proposed_send_after;
  proposed_send_after = proposed_send_after;
  requested_incentive_ceiling_paise =
      risk_item.amount_paise * request.requested_max_incentive_bps / 10_000;
  windows_deferred = 0;
})

-- What `__post_init__` guarantees of every candidate.
pub record IsValid (c : Candidate) : Type 0 where
  pub matching : c.risk_item.risk_id ≡ c.request.risk_id
  pub below_full : c.request.requested_max_incentive_bps < 10_000

pub aged-IsValid : (c : Candidate) → IsValid c → IsValid (aged c)
unfolding aged
aged-IsValid c v = ground arith

pub rescheduled-IsValid :
    (c : Candidate) (w : Date) (t : Instant) → IsValid c → IsValid (rescheduled c w t)
unfolding rescheduled
rescheduled-IsValid c w t v = ground arith

-- A candidate that is built without an error has a risk item that its request names and asks less
-- than the full amount as an incentive.
pub build_candidate-IsValid :
    (request : GrantRequest) (item : RiskItem) (customer_id : ℕ) (at : Instant) (c : Candidate)
    → build_candidate request item customer_id at ≡ ok c
    → IsValid c
unfolding build_candidate
build_candidate-IsValid request item customer_id at c e = ground arith
