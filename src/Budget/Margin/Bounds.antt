-- ===== src/Budget/Margin/Bounds.antt =====
-- Bounds on the margin arithmetic of sampark/budget/margin.py.
use sampark.Base.{ℕ, ◌≤◌, ◌<◌, ◌≡◌, arith, false}
use sampark.Base.Int.{ℤ, pos, ◌≤ℤ◌, leb_ℤ}
use sampark.Budget.Margin.{downgrade_to_fit, incentive_ceiling_paise}

-- What is granted is never more than was asked for.
pub downgrade_to_fit-le-requested : (q : ℕ) (m c : ℤ) → downgrade_to_fit q m c ≤ q
unfolding downgrade_to_fit
downgrade_to_fit-le-requested q m c = ground arith

pub downgrade_to_fit-le-merchant :
    (q : ℕ) (m c : ℤ) → leb_ℤ m (pos 0) ≡ false → pos (downgrade_to_fit q m c) ≤ℤ m
unfolding downgrade_to_fit
downgrade_to_fit-le-merchant q m c h = ground arith

pub downgrade_to_fit-le-customer :
    (q : ℕ) (m c : ℤ) → leb_ℤ c (pos 0) ≡ false → pos (downgrade_to_fit q m c) ≤ℤ c
unfolding downgrade_to_fit
downgrade_to_fit-le-customer q m c h = ground arith

-- An incentive below 100% costs less than the amount at risk.
pub incentive_ceiling_paise-lt :
    (amount bps : ℕ) → 0 < amount → bps < 10_000 → incentive_ceiling_paise amount bps < amount
unfolding incentive_ceiling_paise
incentive_ceiling_paise-lt amount bps h k = grind arith
