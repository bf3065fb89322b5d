-- ===== src/Budget/Pools.antt =====
-- sampark/budget/store.py: the margin pools of InMemoryMediationLedger, created when first read,
-- and the two ways in which a reservation ends.
pub mod View
pub mod Existence
use sampark.Base.{
  ℕ, ◌+◌, Bool, Option, none, some, List, [], ◌∷◌, Result, ok, err, key_error, or_raise, ◌>>=◌,
  nat_eq, pair_eq,
}
use sampark.Base.Int.{ℤ, pos, ◌+ℤ◌, ◌-ℤ◌}
use sampark.Base.Dict.{Dict, lookup, insert}
use sampark.Contracts.{Date, RiskItem, Grant}
use sampark.Budget.Margin.{customer_margin_budget_paise, remaining_paise}
use sampark.Budget.Ledger.{PoolRecord, GrantRecord, Ledger, risk_items_for_customer}

-- `_PoolRecord(budget_paise=…)`
unfoldable pub new_pool : ℕ → PoolRecord
new_pool budget_paise = record {
  budget_paise = budget_paise;
  reserved_paise = pos 0;
  spent_paise = pos 0;
}

unfoldable pub total_at_risk : List RiskItem → ℕ
total_at_risk [] = 0
total_at_risk (item ∷ items) = item.amount_paise + total_at_risk items

unfoldable pub set_merchant_pool : Ledger → Date → PoolRecord → Ledger
unfolding insert
set_merchant_pool l window_id pool = record l {
  merchant_pools = insert (l.merchant_id, window_id) pool l.merchant_pools;
}

unfoldable pub set_customer_pool : Ledger → ℕ → Date → PoolRecord → Ledger
unfolding insert
set_customer_pool l customer_id window_id pool = record l {
  customer_pools = insert (customer_id, window_id) pool l.customer_pools;
}

-- `_merchant_pool`: the pool, and the ledger in which it exists.
unfoldable pub merchant_pool : Ledger → Date → PoolRecord × Ledger
unfolding lookup new_pool set_merchant_pool
merchant_pool l window_id = elim (lookup (l.merchant_id, window_id) l.merchant_pools) [
  | some pool ↦ (pool, l)
  | none ↦
      let pool = new_pool l.merchant_budget_paise_per_window in
      (pool, set_merchant_pool l window_id pool)
]

-- `_customer_pool`
unfoldable pub customer_pool : Ledger → ℕ → Date → PoolRecord × Ledger
unfolding lookup new_pool set_customer_pool total_at_risk risk_items_for_customer
customer_pool l customer_id window_id = elim (lookup (customer_id, window_id) l.customer_pools) [
  | some pool ↦ (pool, l)
  | none ↦
      let pool =
        new_pool
          (customer_margin_budget_paise (total_at_risk (risk_items_for_customer l customer_id))) in
      (pool, set_customer_pool l customer_id window_id pool)
]

unfoldable pub remaining_of : PoolRecord → ℤ
unfolding remaining_paise
remaining_of pool = remaining_paise pool.budget_paise pool.reserved_paise pool.spent_paise

-- The amounts left in the merchant's and in the customer's pool.
unfoldable pub remaining_margin_paise : Ledger → ℕ → Date → (ℤ × ℤ) × Ledger
unfolding merchant_pool customer_pool remaining_of
remaining_margin_paise l customer_id window_id =
    let (merchant, l') = merchant_pool l window_id in
    let (customer, l'') = customer_pool l' customer_id window_id in
    ((remaining_of merchant, remaining_of customer), l'')

unfoldable pub reserve : ℕ → PoolRecord → PoolRecord
reserve ceiling pool = record pool { reserved_paise = pool.reserved_paise +ℤ pos ceiling }

unfoldable pub release : ℕ → PoolRecord → PoolRecord
release ceiling pool = record pool { reserved_paise = pool.reserved_paise -ℤ pos ceiling }

unfoldable pub settle : ℕ → ℤ → PoolRecord → PoolRecord
settle ceiling actual_spend_paise pool = record pool {
  reserved_paise = pool.reserved_paise -ℤ pos ceiling;
  spent_paise = pool.spent_paise +ℤ actual_spend_paise;
}

-- Fetches both pools, merchant first, and changes each in place.
unfoldable pub change_pools : Ledger → ℕ → Date → (PoolRecord → PoolRecord) → Ledger
unfolding merchant_pool customer_pool set_merchant_pool set_customer_pool
change_pools l customer_id window_id change =
    let (merchant, l') = merchant_pool l window_id in
    let (customer, l'') = customer_pool l' customer_id window_id in
    set_customer_pool (set_merchant_pool l'' window_id (change merchant)) customer_id window_id
      (change customer)

unfoldable pub release_margin : Ledger → ℕ → Result Ledger
unfolding change_pools release lookup
release_margin l request_id = do
  r ← or_raise (lookup request_id l.grants_by_request_id) key_error
  ok (change_pools l r.customer_id r.window_id (release r.grant.incentive_ceiling_paise))

unfoldable pub settle_margin : Ledger → ℕ → ℤ → Result Ledger
unfolding change_pools settle lookup
settle_margin l request_id actual_spend_paise = do
  r ← or_raise (lookup request_id l.grants_by_request_id) key_error
  ok (
      change_pools l r.customer_id r.window_id
        (settle r.grant.incentive_ceiling_paise actual_spend_paise))
