-- ===== src/Identity/Resolution.antt =====
-- sampark/identity/resolution.py: customers out of signals that share a hashed phone number or address.
-- A hash that is absent or empty is `none`; the hashes themselves, SHA-256, are taken at the door.
pub mod Classes
pub mod Naming
pub mod Customers
use sampark.Base.{
  ℕ, List, [], ◌∷◌, ◌++◌, Option, none, some, Result, ok, err, key_error, or_raise, nat_eq, ◌>>=◌,
}
use sampark.Base.Dict.{Dict, lookup, lookup_or, insert}
use sampark.Allocator.Greedy.{insert_once}
use sampark.Identity.UnionFind.{Parents, find, union}

pub record ContactSignal : Type 0 where
  pub signal_id : ℕ
  pub phone_hash : Option ℕ
  pub email_hash : Option ℕ

-- `f"signal:{...}"`, `f"phone:{...}"`, `f"email:{...}"`, and the customer id of a sorted basis,
-- `"cust_" + _sha256_hex(",".join(...))[:24]`.
pub record Names : Type 0 where
  pub signal_node : ℕ → ℕ
  pub phone_node : ℕ → ℕ
  pub email_node : ℕ → ℕ
  pub customer_id : List ℕ → ℕ

-- The groups of the second loop. A set is the list of its elements in order.
pub record Groups : Type 0 where
  pub parents : Parents
  pub signal_ids_by_root : Dict ℕ (List ℕ)
  pub identity_keys_by_root : Dict ℕ (List ℕ)

module _ (names : Names) where
  -- `if signal.phone_hash: uf.union(node, ...)`
  unfoldable pub join_key : Parents → ℕ → (ℕ → ℕ) → Option ℕ → Result Parents
  unfolding union
  join_key d node name none = ok d
  join_key d node name (some hash) = union d node (name hash)

  unfoldable pub join_signal : Parents → ContactSignal → Result Parents
  unfolding find join_key
  join_signal d signal = do
    (root, d1) ← find d (names.signal_node signal.signal_id)
    d2 ← join_key d1 (names.signal_node signal.signal_id) names.phone_node signal.phone_hash
    join_key d2 (names.signal_node signal.signal_id) names.email_node signal.email_hash

  -- The first loop.
  unfoldable pub join_signals : Parents → List ContactSignal → Result Parents
  unfolding join_signal
  join_signals d [] = ok d
  join_signals d (signal ∷ signals) = do d' ← join_signal d signal; join_signals d' signals

  abbrev pub add_key : (ℕ → ℕ) → Option ℕ → List ℕ → List ℕ
  add_key name none keys = keys
  add_key name (some hash) keys = insert_once (name hash) keys

  -- The second loop.
  unfoldable pub collect : Groups → List ContactSignal → Result Groups
  unfolding find lookup_or insert insert_once
  collect g [] = ok g
  collect g (signal ∷ signals) = do
    (root, d) ← find g.parents (names.signal_node signal.signal_id)
    let ids = lookup_or [] root g.signal_ids_by_root ++ signal.signal_id ∷ []
    let keys = lookup_or [] root g.identity_keys_by_root
    let more =
        add_key names.email_node signal.email_hash (add_key names.phone_node signal.phone_hash keys)
    collect
        (record {
          parents = d;
          signal_ids_by_root = insert root ids g.signal_ids_by_root;
          identity_keys_by_root = insert root more g.identity_keys_by_root;
        })
        signals

  -- `{f"signal:{sid}" for sid in signal_ids}`
  abbrev pub signal_nodes : List ℕ → List ℕ
  signal_nodes [] = []
  signal_nodes (id ∷ ids) = insert_once (names.signal_node id) (signal_nodes ids)

  -- `identity_keys or {...}`
  abbrev pub basis : List ℕ → List ℕ → List ℕ
  basis [] ids = signal_nodes ids
  basis (key ∷ keys) ids = key ∷ keys

  -- The third loop.
  unfoldable pub name_customers : Dict ℕ (List ℕ) → Dict ℕ ℕ → Dict ℕ (List ℕ) → Result (Dict ℕ ℕ)
  unfolding lookup insert insert_once
  name_customers keys_by_root customers [] = ok customers
  name_customers keys_by_root customers ((root, ids) ∷ rest) = do
    keys ← or_raise (lookup root keys_by_root) key_error
    name_customers keys_by_root (insert root (names.customer_id (basis keys ids)) customers) rest

  -- The dict that is returned. The search still halves paths.
  unfoldable pub answer : Dict ℕ ℕ → Parents → Dict ℕ ℕ → List ContactSignal → Result (Dict ℕ ℕ)
  unfolding find lookup insert
  answer customers d result [] = ok result
  answer customers d result (signal ∷ signals) = do
    (root, d') ← find d (names.signal_node signal.signal_id)
    customer ← or_raise (lookup root customers) key_error
    answer customers d' (insert signal.signal_id customer result) signals

  unfoldable pub resolve_customer_ids : List ContactSignal → Result (Dict ℕ ℕ)
  unfolding join_signals collect name_customers answer
  resolve_customer_ids signals = do
    d ← join_signals [] signals
    g ←
        collect (record { parents = d; signal_ids_by_root = []; identity_keys_by_root = [] })
          signals
    customers ← name_customers g.identity_keys_by_root [] g.signal_ids_by_root
    answer customers g.parents [] signals
