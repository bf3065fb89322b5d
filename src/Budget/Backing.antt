-- ===== src/Budget/Backing.antt =====
-- The invariant of the margin pools of sampark/budget/store.py: what a pool has reserved is the sum
-- of the ceilings of the grants that still hold a reservation on it, and a pool is never overdrawn.
use sampark.Base.{
  ℕ, ◌+◌, ◌≡◌, refl, ap, ◌∙◌, Bool, true, false, none, some, arith, ◌==◌, if◌then◌else◌, pair_beq,
  nat_eq, pair_beq_iff, ==_iff,
}
use sampark.Base.Int.{ℤ, pos, ◌+ℤ◌, ◌≤ℤ◌, int_laws}
use sampark.Base.Dict.{Dict, lookup, insert, sum_of, sum_of-insert_new, sum_of-insert}
use sampark.Contracts.{Date, GrantState, reserved, executing, confirmed, rolled_back, expired}
use sampark.Budget.Margin.{remaining_paise}
use sampark.Budget.Ledger.{PoolRecord, GrantRecord}
use sampark.Budget.Pools.{remaining_of, reserve, release, settle}
use sampark.Budget.Pools.View.{at_window, at_customer}

-- A grant holds its reservation until it is confirmed, rolled back or expired.
abbrev pub holds_margin : GrantState → Bool
holds_margin reserved = true
holds_margin executing = true
holds_margin confirmed = false
holds_margin rolled_back = false
holds_margin expired = false

abbrev pub held : GrantRecord → ℕ
held r = if holds_margin r.grant.state then r.grant.incentive_ceiling_paise else 0

abbrev pub held_in : Date → GrantRecord → ℕ
held_in w r = if r.window_id == w then held r else 0

abbrev pub held_for : ℕ → Date → GrantRecord → ℕ
held_for c w r = if pair_beq (r.customer_id, r.window_id) (c, w) then held r else 0

-- The pool has reserved exactly `total`, and what it has reserved and spent is within its budget.
pub record Backs (total : ℕ) (pool : PoolRecord) : Type 0 where
  pub exact : pool.reserved_paise ≡ pos total
  pub within : pool.reserved_paise +ℤ pool.spent_paise ≤ℤ pos pool.budget_paise

pub reserve-Backs :
    (total ceiling : ℕ) (pool : PoolRecord)
    → pos ceiling ≤ℤ remaining_of pool
    → Backs total pool
    → Backs (total + ceiling) (reserve ceiling pool)
unfolding remaining_of remaining_paise reserve
reserve-Backs total ceiling pool h b = record {
  exact = rw b.exact (omega int_laws);
  within = omega (int_laws, b.within);
}

pub release-Backs :
    (total ceiling : ℕ) (pool : PoolRecord)
    → Backs (total + ceiling) pool
    → Backs total (release ceiling pool)
unfolding release
release-Backs total ceiling pool b = record {
  exact = rw b.exact (omega int_laws);
  within = omega (int_laws, b.within);
}

pub settle-Backs :
    (total ceiling : ℕ) (spend : ℤ) (pool : PoolRecord)
    → spend ≤ℤ pos ceiling
    → Backs (total + ceiling) pool
    → Backs total (settle ceiling spend pool)
unfolding settle
settle-Backs total ceiling spend pool h b = record {
  exact = rw b.exact (omega int_laws);
  within = omega (int_laws, b.within);
}

-- Every pool is backed by the records.
pub record IsBacked (records : Dict ℕ GrantRecord) (merchant : Date → PoolRecord)
    (customer : ℕ → Date → PoolRecord) : Type 0 where
  pub merchant_backed : (w : Date) → Backs (sum_of (held_in w) records) (merchant w)
  pub customer_backed : (c : ℕ) (w : Date) → Backs (sum_of (held_for c w) records) (customer c w)

-- One pool of a family of totals: the share of a record is what it holds in the pools that it is in.
reserve_one :
    (total total' ceiling : ℕ) (hit : Bool) (pool : PoolRecord)
    → total' ≡ total + (if hit then ceiling else 0)
    → (hit ≡ true → pos ceiling ≤ℤ remaining_of pool)
    → Backs total pool
    → Backs total' (if hit then reserve ceiling pool else pool)
reserve_one total total' ceiling true pool e h b =
    rw e (reserve-Backs total ceiling pool (h refl) b)
reserve_one total total' ceiling false pool e h b =
    let same : total' ≡ total = omega arith in rw same b

release_one :
    (total total' ceiling : ℕ) (hit : Bool) (pool : PoolRecord)
    → total' + (if hit then ceiling else 0) ≡ total
    → Backs total pool
    → Backs total' (if hit then release ceiling pool else pool)
release_one total total' ceiling true pool e b = release-Backs total' ceiling pool (rw e b)
release_one total total' ceiling false pool e b =
    let same : total' ≡ total = omega arith in rw same b

settle_one :
    (total total' ceiling : ℕ) (spend : ℤ) (hit : Bool) (pool : PoolRecord)
    → spend ≤ℤ pos ceiling
    → total' + (if hit then ceiling else 0) ≡ total
    → Backs total pool
    → Backs total' (if hit then settle ceiling spend pool else pool)
settle_one total total' ceiling spend true pool h e b =
    settle-Backs total' ceiling spend pool h (rw e b)
settle_one total total' ceiling spend false pool h e b =
    let same : total' ≡ total = omega arith in rw same b

module _ (records : Dict ℕ GrantRecord) (merchant : Date → PoolRecord)
    (customer : ℕ → Date → PoolRecord) (k : ℕ) where
  -- A fresh record that holds its ceiling, with the ceiling reserved in its two pools.
  pub IsBacked-reserve :
      (r : GrantRecord)
      → lookup k records ≡ none
      → holds_margin r.grant.state ≡ true
      → pos r.grant.incentive_ceiling_paise ≤ℤ remaining_of (merchant r.window_id)
      → pos r.grant.incentive_ceiling_paise ≤ℤ remaining_of (customer r.customer_id r.window_id)
      → IsBacked records merchant customer
      → IsBacked
          (insert k r records)
          (at_window (reserve r.grant.incentive_ceiling_paise) r.window_id merchant)
          (at_customer (reserve r.grant.incentive_ceiling_paise) r.customer_id r.window_id customer)
  IsBacked-reserve r fresh holds hm hc b = record {
    merchant_backed = λ w.
        reserve_one _ _ r.grant.incentive_ceiling_paise (r.window_id == w) (merchant w)
          (sum_of-insert_new (held_in w) k r records fresh
            ∙ ap (◌+◌ (sum_of (held_in w) records)) (rw holds refl))
          (λ hit. rw (← (==_iff r.window_id w).0 hit) hm) (b.merchant_backed w);
    customer_backed = λ c w.
        reserve_one _ _ r.grant.incentive_ceiling_paise
          (pair_beq (r.customer_id, r.window_id) (c, w)) (customer c w)
          (sum_of-insert_new (held_for c w) k r records fresh
            ∙ ap (◌+◌ (sum_of (held_for c w) records)) (rw holds refl))
          (λ hit. ground (arith, pair_beq_iff (r.customer_id, r.window_id) (c, w)))
          (b.customer_backed c w);
  }

  module _ (old new : GrantRecord) (found : lookup k records ≡ some old)
      (same_window : new.window_id ≡ old.window_id)
      (same_customer : new.customer_id ≡ old.customer_id)
      (held_before : holds_margin old.grant.state ≡ true) where
    sum_in :
        holds_margin new.grant.state ≡ false
        → (w : Date)
        → sum_of (held_in w) (insert k new records)
            + (if old.window_id == w then old.grant.incentive_ceiling_paise else 0)
          ≡ sum_of (held_in w) records
    sum_in ended w = ground (arith, sum_of-insert (held_in w) k new old records found)

    sum_for :
        holds_margin new.grant.state ≡ false
        → (c : ℕ) (w : Date)
        → sum_of (held_for c w) (insert k new records)
            + (if pair_beq (old.customer_id, old.window_id) (c, w)
                then old.grant.incentive_ceiling_paise
                else 0)
          ≡ sum_of (held_for c w) records
    sum_for ended c w = ground (arith, sum_of-insert (held_for c w) k new old records found)

    -- The reservation ends unspent.
    pub IsBacked-release :
        holds_margin new.grant.state ≡ false
        → IsBacked records merchant customer
        → IsBacked
            (insert k new records)
            (at_window (release old.grant.incentive_ceiling_paise) old.window_id merchant)
            (at_customer
              (release old.grant.incentive_ceiling_paise)
              old.customer_id
              old.window_id
              customer)
    IsBacked-release ended b = record {
      merchant_backed = λ w.
          release_one _ _ old.grant.incentive_ceiling_paise (old.window_id == w) (merchant w)
            (sum_in ended w) (b.merchant_backed w);
      customer_backed = λ c w.
          release_one _ _ old.grant.incentive_ceiling_paise
            (pair_beq (old.customer_id, old.window_id) (c, w)) (customer c w) (sum_for ended c w)
            (b.customer_backed c w);
    }

    -- The reservation ends with a spend of at most its ceiling.
    pub IsBacked-settle :
        (spend : ℤ)
        → spend ≤ℤ pos old.grant.incentive_ceiling_paise
        → holds_margin new.grant.state ≡ false
        → IsBacked records merchant customer
        → IsBacked
            (insert k new records)
            (at_window (settle old.grant.incentive_ceiling_paise spend) old.window_id merchant)
            (at_customer
              (settle old.grant.incentive_ceiling_paise spend)
              old.customer_id
              old.window_id
              customer)
    IsBacked-settle spend bound ended b = record {
      merchant_backed = λ w.
          settle_one _ _ old.grant.incentive_ceiling_paise spend (old.window_id == w) (merchant w)
            bound (sum_in ended w) (b.merchant_backed w);
      customer_backed = λ c w.
          settle_one _ _ old.grant.incentive_ceiling_paise spend
            (pair_beq (old.customer_id, old.window_id) (c, w)) (customer c w) bound
            (sum_for ended c w) (b.customer_backed c w);
    }

    -- A change of state that keeps the reservation.
    pub IsBacked-keep :
        holds_margin new.grant.state ≡ true
        → new.grant.incentive_ceiling_paise ≡ old.grant.incentive_ceiling_paise
        → IsBacked records merchant customer
        → IsBacked (insert k new records) merchant customer
    IsBacked-keep held_after same_ceiling b = record {
      merchant_backed = λ w.
          release_one _ _ 0 false (merchant w)
            (ground (arith, sum_of-insert (held_in w) k new old records found))
            (b.merchant_backed w);
      customer_backed = λ c w.
          release_one _ _ 0 false (customer c w)
            (ground (arith, sum_of-insert (held_for c w) k new old records found))
            (b.customer_backed c w);
    }
