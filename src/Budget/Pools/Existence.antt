-- ===== src/Budget/Pools/Existence.antt =====
-- sampark/budget/store.py: the pools that `_merchant_pool` and `_customer_pool` leave in the dicts.
use sampark.Base.{ℕ, ◌≡◌, ◌∙◌, ap, Option-cases, some, arith, nat_eq, pair_eq, inl, inr}
use sampark.Base.Dict.{lookup, lookup-insert_self}
use sampark.Contracts.{Date}
use sampark.Budget.Margin.{customer_margin_budget_paise}
use sampark.Budget.Ledger.{Ledger, risk_items_for_customer}
use sampark.Budget.Pools.{
  new_pool, total_at_risk, merchant_pool, customer_pool, set_merchant_pool, set_customer_pool,
}
use sampark.Budget.Pools.View.{
  merchant_view, customer_view, both_pools, customer_view-merchant_pool,
}

pub lookup-merchant_pool :
    (l : Ledger) (w : Date)
    → lookup (l.merchant_id, w) (merchant_pool l w).1.merchant_pools ≡ some (merchant_view l w)
unfolding merchant_pool merchant_view set_merchant_pool
lookup-merchant_pool l w = elim (Option-cases (lookup (l.merchant_id, w) l.merchant_pools)) [
  | inl e ↦ ground (
    arith,
    lookup-insert_self (l.merchant_id, w) (new_pool l.merchant_budget_paise_per_window)
        l.merchant_pools,
  )
  | inr (p, e) ↦ ground arith
]

pub lookup-customer_pool :
    (l : Ledger) (c : ℕ) (w : Date)
    → lookup (c, w) (customer_pool l c w).1.customer_pools ≡ some (customer_view l c w)
unfolding customer_pool customer_view set_customer_pool
lookup-customer_pool l c w = elim (Option-cases (lookup (c, w) l.customer_pools)) [
  | inl e ↦
      let fresh =
        new_pool (customer_margin_budget_paise (total_at_risk (risk_items_for_customer l c))) in
      ground (arith, lookup-insert_self (c, w) fresh l.customer_pools)
  | inr (p, e) ↦ ground arith
]

customer_pool-keeps :
    (l : Ledger) (c : ℕ) (w : Date) (j : ℕ × Date)
    → lookup j (customer_pool l c w).1.merchant_pools ≡ lookup j l.merchant_pools
unfolding customer_pool set_customer_pool
customer_pool-keeps l c w j = ground arith

-- Both pools exist afterwards, as they were seen before.
pub both_pools_exist :
    (l : Ledger) (c : ℕ) (w : Date)
    → (lookup (l.merchant_id, w) (both_pools l c w).merchant_pools ≡ some (merchant_view l w))
      × (lookup (c, w) (both_pools l c w).customer_pools ≡ some (customer_view l c w))
unfolding both_pools
both_pools_exist l c w = (
  customer_pool-keeps (merchant_pool l w).1 c w (l.merchant_id, w) ∙ lookup-merchant_pool l w,
  lookup-customer_pool (merchant_pool l w).1 c w ∙ ap some (customer_view-merchant_pool l w c w),
)

pub grant_requests-both_pools :
    (l : Ledger) (c : ℕ) (w : Date) → (both_pools l c w).grant_requests ≡ l.grant_requests
unfolding both_pools merchant_pool customer_pool set_merchant_pool set_customer_pool
grant_requests-both_pools l c w = ground arith
