-- ===== src/Budget/Margin.antt =====
-- sampark/budget/margin.py. Budgets, reservations and what remains are Python integers: what
-- remains may be negative.
pub mod Bounds
use sampark.Base.{ℕ, ◌*◌, ◌/◌}
use sampark.Base.Int.{ℤ, pos, ◌-ℤ◌, pos_part, min_ℤ}

abbrev pub customer_margin_bps : ℕ
customer_margin_bps = 500

unfoldable pub incentive_ceiling_paise : ℕ → ℕ → ℕ
incentive_ceiling_paise amount_paise incentive_bps = amount_paise * incentive_bps / 10_000

unfoldable pub customer_margin_budget_paise : ℕ → ℕ
customer_margin_budget_paise customer_open_at_risk_paise =
    customer_open_at_risk_paise * customer_margin_bps / 10_000

unfoldable pub remaining_paise : ℕ → ℤ → ℤ → ℤ
remaining_paise budget_paise reserved_paise spent_paise =
    pos budget_paise -ℤ reserved_paise -ℤ spent_paise

-- `max(fitted, 0)` is the positive part.
unfoldable pub downgrade_to_fit : ℕ → ℤ → ℤ → ℕ
downgrade_to_fit requested_ceiling_paise merchant_remaining_paise customer_remaining_paise =
    pos_part (
      min_ℤ (min_ℤ (pos requested_ceiling_paise) merchant_remaining_paise) customer_remaining_paise)
