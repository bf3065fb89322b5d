-- ===== src/Budget/Pools/View.antt =====
-- The pools of a ledger (sampark/budget/store.py), whether or not they exist yet.
use sampark.Base.{
  ℕ, ◌≡◌, refl, ◌∙◌, Option, none, some, arith, ◌==◌, if◌then◌else◌, pair_beq, nat_eq, pair_eq,
  Option-cases, inl, inr, pair_beq_iff,
}
use sampark.Base.Dict.{lookup, lookup-insert}
use sampark.Contracts.{Date}
use sampark.Budget.Margin.{customer_margin_budget_paise}
use sampark.Budget.Ledger.{PoolRecord, Ledger, risk_items_for_customer}
use sampark.Budget.Pools.{
  new_pool, total_at_risk, merchant_pool, customer_pool, set_merchant_pool, set_customer_pool,
  change_pools,
}

abbrev pool_or : PoolRecord → Option PoolRecord → PoolRecord
pool_or fresh none = fresh
pool_or fresh (some pool) = pool

unfoldable pub merchant_view : Ledger → Date → PoolRecord
merchant_view l w =
    pool_or (new_pool l.merchant_budget_paise_per_window)
      (lookup (l.merchant_id, w) l.merchant_pools)

unfoldable pub customer_view : Ledger → ℕ → Date → PoolRecord
unfolding risk_items_for_customer
customer_view l c w =
    pool_or (new_pool (customer_margin_budget_paise (total_at_risk (risk_items_for_customer l c))))
      (lookup (c, w) l.customer_pools)

pub merchant_pool-view : (l : Ledger) (w : Date) → (merchant_pool l w).0 ≡ merchant_view l w
unfolding merchant_pool merchant_view
merchant_pool-view l w = ground arith

pub customer_pool-view :
    (l : Ledger) (c : ℕ) (w : Date) → (customer_pool l c w).0 ≡ customer_view l c w
unfolding customer_pool customer_view
customer_pool-view l c w = ground arith

pub merchant_view-merchant_pool :
    (l : Ledger) (w v : Date) → merchant_view (merchant_pool l w).1 v ≡ merchant_view l v
unfolding merchant_pool merchant_view set_merchant_pool
merchant_view-merchant_pool l w v =
    elim (Option-cases (lookup (l.merchant_id, w) l.merchant_pools)) [
      | inl e ↦ ground (
        arith,
        lookup-insert (l.merchant_id, v) (l.merchant_id, w)
            (new_pool l.merchant_budget_paise_per_window) l.merchant_pools,
      )
      | inr (p, e) ↦ ground arith
    ]

pub customer_view-merchant_pool :
    (l : Ledger) (w : Date) (c : ℕ) (v : Date)
    → customer_view (merchant_pool l w).1 c v ≡ customer_view l c v
unfolding merchant_pool customer_view
customer_view-merchant_pool l w c v = ground arith

pub merchant_view-customer_pool :
    (l : Ledger) (c : ℕ) (w v : Date) → merchant_view (customer_pool l c w).1 v ≡ merchant_view l v
unfolding customer_pool merchant_view
merchant_view-customer_pool l c w v = ground arith

pub customer_view-customer_pool :
    (l : Ledger) (c : ℕ) (w : Date) (d : ℕ) (v : Date)
    → customer_view (customer_pool l c w).1 d v ≡ customer_view l d v
unfolding customer_pool customer_view set_customer_pool
customer_view-customer_pool l c w d v = elim (Option-cases (lookup (c, w) l.customer_pools)) [
  | inl e ↦
      let fresh =
        new_pool (customer_margin_budget_paise (total_at_risk (risk_items_for_customer l c))) in
      ground (arith, lookup-insert (d, v) (c, w) fresh l.customer_pools, pair_beq_iff (c, w) (d, v))
  | inr (p, e) ↦ ground arith
]

-- A pool function changed at one place.
abbrev pub at_window : (PoolRecord → PoolRecord) → Date → (Date → PoolRecord) → Date → PoolRecord
at_window f w view v = if w == v then f (view v) else view v

abbrev pub at_customer :
    (PoolRecord → PoolRecord) → ℕ → Date → (ℕ → Date → PoolRecord) → ℕ → Date → PoolRecord
at_customer f c w view d v = if pair_beq (c, w) (d, v) then f (view d v) else view d v

pub at_window-eq :
    (f : PoolRecord → PoolRecord) (w : Date) (view : Date → PoolRecord) (v : Date)
    → (if w == v then f (view w) else view v) ≡ at_window f w view v
at_window-eq f w view v = ground arith

pub at_customer-eq :
    (f : PoolRecord → PoolRecord) (c : ℕ) (w : Date) (view : ℕ → Date → PoolRecord) (d : ℕ)
    (v : Date)
    → (if pair_beq (c, w) (d, v) then f (view c w) else view d v) ≡ at_customer f c w view d v
at_customer-eq f c w view d v = ground arith

pub merchant_view-set_merchant_pool :
    (l : Ledger) (w : Date) (p : PoolRecord) (v : Date)
    → merchant_view (set_merchant_pool l w p) v ≡ (if w == v then p else merchant_view l v)
unfolding merchant_view set_merchant_pool
merchant_view-set_merchant_pool l w p v =
    ground (arith, lookup-insert (l.merchant_id, v) (l.merchant_id, w) p l.merchant_pools)

pub customer_view-set_customer_pool :
    (l : Ledger) (c : ℕ) (w : Date) (p : PoolRecord) (d : ℕ) (v : Date)
    → customer_view (set_customer_pool l c w p) d v
      ≡ (if pair_beq (c, w) (d, v) then p else customer_view l d v)
unfolding customer_view set_customer_pool
customer_view-set_customer_pool l c w p d v =
    ground (arith, lookup-insert (d, v) (c, w) p l.customer_pools)

pub customer_view-set_merchant_pool :
    (l : Ledger) (w : Date) (p : PoolRecord) (d : ℕ) (v : Date)
    → customer_view (set_merchant_pool l w p) d v ≡ customer_view l d v
unfolding customer_view set_merchant_pool
customer_view-set_merchant_pool l w p d v = refl

pub merchant_view-set_customer_pool :
    (l : Ledger) (c : ℕ) (w : Date) (p : PoolRecord) (v : Date)
    → merchant_view (set_customer_pool l c w p) v ≡ merchant_view l v
unfolding merchant_view set_customer_pool
merchant_view-set_customer_pool l c w p v = refl

-- The two pools that every operation fetches: their values, and the ledger with both in it.
unfoldable pub both_pools : Ledger → ℕ → Date → Ledger
both_pools l c w = (customer_pool (merchant_pool l w).1 c w).1

pub merchant_view-both_pools :
    (l : Ledger) (c : ℕ) (w v : Date) → merchant_view (both_pools l c w) v ≡ merchant_view l v
unfolding both_pools
merchant_view-both_pools l c w v =
    merchant_view-customer_pool (merchant_pool l w).1 c w v ∙ merchant_view-merchant_pool l w v

pub customer_view-both_pools :
    (l : Ledger) (c : ℕ) (w : Date) (d : ℕ) (v : Date)
    → customer_view (both_pools l c w) d v ≡ customer_view l d v
unfolding both_pools
customer_view-both_pools l c w d v =
    customer_view-customer_pool (merchant_pool l w).1 c w d v ∙ customer_view-merchant_pool l w d v

pub second_pool-view :
    (l : Ledger) (c : ℕ) (w : Date)
    → (customer_pool (merchant_pool l w).1 c w).0 ≡ customer_view l c w
second_pool-view l c w =
    customer_pool-view (merchant_pool l w).1 c w ∙ customer_view-merchant_pool l w c w

pub merchant_view-change_pools :
    (l : Ledger) (c : ℕ) (w : Date) (f : PoolRecord → PoolRecord) (v : Date)
    → merchant_view (change_pools l c w f) v ≡ at_window f w (merchant_view l) v
unfolding change_pools both_pools
merchant_view-change_pools l c w f v =
    merchant_view-set_customer_pool _ c w _ v
    ∙ merchant_view-set_merchant_pool (both_pools l c w) w _ v
    ∙ rw (merchant_pool-view l w, merchant_view-both_pools l c w v)
        (at_window-eq f w (merchant_view l) v)

pub customer_view-change_pools :
    (l : Ledger) (c : ℕ) (w : Date) (f : PoolRecord → PoolRecord) (d : ℕ) (v : Date)
    → customer_view (change_pools l c w f) d v ≡ at_customer f c w (customer_view l) d v
unfolding change_pools both_pools
customer_view-change_pools l c w f d v =
    customer_view-set_customer_pool _ c w _ d v
    ∙ rw
        (
          second_pool-view l c w,
          customer_view-set_merchant_pool (both_pools l c w) w _ d v,
          customer_view-both_pools l c w d v,
        )
        (at_customer-eq f c w (customer_view l) d v)
