-- ===== src/Budget/Consistency.antt =====
-- The invariant of InMemoryMediationLedger (sampark/budget/store.py): its dicts refer to records
-- that exist, each record stands under its own request id, and the pools are backed.
pub mod Resolve
use sampark.Base.{
  ℕ, ◌≡◌, refl, ap, ◌∙◌, sym, Bool, true, false, Option, none, some, List, [], ◌∷◌, ◌++◌, All,
  All-map, All-append, Result, ok, err, nat_eq, arith, ◌==◌, if◌then◌else◌, Bool-cases, inl, inr,
}
use sampark.Base.Int.{pos, ◌+ℤ◌}
use sampark.Base.Dict.{
  Dict, lookup, lookup_or, insert, values, lookup-insert, lookup_or-insert, All-values-insert,
  sum_of,
}
use sampark.Contracts.{Date, RiskItem}
use sampark.Budget.Ledger.{PoolRecord, GrantRecord, Ledger, new_ledger, resolve}
use sampark.Budget.Pools.{
  new_pool, change_pools, merchant_pool, customer_pool, set_merchant_pool, set_customer_pool,
}
use sampark.Budget.Pools.View.{merchant_view, customer_view, both_pools}
use sampark.Budget.Backing.{IsBacked, Backs}

abbrev pub IsPresent : Dict ℕ GrantRecord → ℕ → Type 0
IsPresent records k = (r : GrantRecord) × (lookup k records ≡ some r)

pub record IsLinked (records : Dict ℕ GrantRecord) (refs : Dict ℕ ℕ) (index : Dict ℕ (List ℕ))
    : Type 0 where
  pub keyed : (k : ℕ) (r : GrantRecord) → lookup k records ≡ some r → r.request_id ≡ k
  pub linked : All (IsPresent records) (values refs)
  pub indexed : (c : ℕ) → All (IsPresent records) (lookup_or [] c index)

pub record IsConsistent (l : Ledger) : Type 0 where
  pub links : IsLinked l.grants_by_request_id l.grants_by_grant_id l.grants_by_customer
  pub backed : IsBacked l.grants_by_request_id (merchant_view l) (customer_view l)

pub IsPresent-insert :
    (k : ℕ) (r : GrantRecord) (records : Dict ℕ GrantRecord) (j : ℕ)
    → IsPresent records j
    → IsPresent (insert k r records) j
IsPresent-insert k r records j (s, e) = elim (Bool-cases (k == j)) [
  | inl same ↦ (r, lookup-insert j k r records ∙ rw same refl)
  | inr other ↦ (s, lookup-insert j k r records ∙ rw other e)
]

-- Storing a record under its own id, new or known, keeps the links.
pub IsLinked-store :
    (records : Dict ℕ GrantRecord) (refs : Dict ℕ ℕ) (index : Dict ℕ (List ℕ)) (r : GrantRecord)
    → IsLinked records refs index
    → IsLinked (insert r.request_id r records) refs index
IsLinked-store records refs index r v = record {
  keyed = λ k s e. ground (arith, lookup-insert k r.request_id r records, v.keyed k s);
  linked = All-map (values refs) (IsPresent-insert r.request_id r records) v.linked;
  indexed = λ c. All-map _ (IsPresent-insert r.request_id r records) (v.indexed c);
}

pub IsLinked-refer :
    (records : Dict ℕ GrantRecord) (refs : Dict ℕ ℕ) (index : Dict ℕ (List ℕ)) (g k : ℕ)
    → IsPresent records k
    → IsLinked records refs index
    → IsLinked records (insert g k refs) index
IsLinked-refer records refs index g k p v = record {
  keyed = v.keyed;
  linked = All-values-insert (IsPresent records) g k refs v.linked p;
  indexed = v.indexed;
}

pub IsLinked-index :
    (records : Dict ℕ GrantRecord) (refs : Dict ℕ ℕ) (index : Dict ℕ (List ℕ)) (c k : ℕ)
    → IsPresent records k
    → IsLinked records refs index
    → IsLinked records refs (insert c (lookup_or [] c index ++ k ∷ []) index)
IsLinked-index records refs index c k p v = record {
  keyed = v.keyed;
  linked = v.linked;
  indexed = λ d. elim (Bool-cases (c == d)) [
    | inl same ↦
        rw (lookup_or-insert [] d c (lookup_or [] c index ++ k ∷ []) index, same)
          (All-append (IsPresent records) (lookup_or [] c index) (k ∷ []) (v.indexed c) (p, tt))
    | inr other ↦
        rw (lookup_or-insert [] d c (lookup_or [] c index ++ k ∷ []) index, other) (v.indexed d)
  ];
}

-- Ids that are all present resolve.
pub resolve-IsPresent :
    (records : Dict ℕ GrantRecord) (ks : List ℕ)
    → All (IsPresent records) ks
    → (rs : List GrantRecord) × (resolve records ks ≡ ok rs)
unfolding resolve
resolve-IsPresent records [] h = ([], refl)
resolve-IsPresent records (k ∷ ks) ((r, e), h) =
    let (rs, more) = resolve-IsPresent records ks h in (r ∷ rs, rw (e, more) refl)

-- Backing looks at the pools one by one.
pub IsBacked-eq :
    (records : Dict ℕ GrantRecord) (m m' : Date → PoolRecord) (c c' : ℕ → Date → PoolRecord)
    → ((w : Date) → m' w ≡ m w)
    → ((d : ℕ) (w : Date) → c' d w ≡ c d w)
    → IsBacked records m c
    → IsBacked records m' c'
IsBacked-eq records m m' c c' em ec b = record {
  merchant_backed = λ w. rw (em w) (b.merchant_backed w);
  customer_backed = λ d w. rw (ec d w) (b.customer_backed d w);
}

-- A ledger starts consistent.
pub new_ledger-IsConsistent :
    (items : Dict ℕ (List RiskItem)) (merchant budget : ℕ)
    → IsConsistent (new_ledger items merchant budget)
unfolding new_ledger merchant_view customer_view new_pool lookup lookup_or values sum_of ◌+ℤ◌
new_ledger-IsConsistent items merchant budget = record {
  links = record { keyed = λ k r e. cc; linked = tt; indexed = λ c. tt };
  backed = record {
    merchant_backed = λ w. record { exact = refl; within = omega arith };
    customer_backed = λ c w. record { exact = refl; within = omega arith };
  };
}

-- What an operation on the pools leaves alone.
pub record SameGrants (l l' : Ledger) : Type 0 where
  pub same_records : l'.grants_by_request_id ≡ l.grants_by_request_id
  pub same_refs : l'.grants_by_grant_id ≡ l.grants_by_grant_id
  pub same_index : l'.grants_by_customer ≡ l.grants_by_customer
  pub same_claims : l'.claims ≡ l.claims

pub SameGrants-both_pools : (l : Ledger) (c : ℕ) (w : Date) → SameGrants l (both_pools l c w)
unfolding both_pools merchant_pool customer_pool set_merchant_pool set_customer_pool
SameGrants-both_pools l c w = ground arith

pub SameGrants-change_pools :
    (l : Ledger) (c : ℕ) (w : Date) (f : PoolRecord → PoolRecord)
    → SameGrants l (change_pools l c w f)
unfolding change_pools merchant_pool customer_pool set_merchant_pool set_customer_pool
SameGrants-change_pools l c w f = ground arith
