-- ===== src/Budget/Consistency/Resolve.antt =====
-- How a customer's records (sampark/budget/store.py) follow a new grant.
use sampark.Base.{
  ℕ, ◌≡◌, none, List, [], ◌∷◌, ◌++◌, ok, nat_eq, arith, >>=-eq-ok, or_raise, key_error,
}
use sampark.Base.Dict.{Dict, lookup, insert, lookup-insert}
use sampark.Budget.Ledger.{GrantRecord, resolve}

module _ (records : Dict ℕ GrantRecord) where
  pub resolve-append :
      (xs ys : List ℕ) (rs ss : List GrantRecord)
      → resolve records xs ≡ ok rs
      → resolve records ys ≡ ok ss
      → resolve records (xs ++ ys) ≡ ok (rs ++ ss)
  unfolding resolve
  resolve-append [] ys rs ss e f = ground arith
  resolve-append (x ∷ xs) ys rs ss e f =
      let (r, found, rest) = >>=-eq-ok (or_raise (lookup x records) key_error) _ e in
      let (rs', more, last) = >>=-eq-ok (resolve records xs) _ rest in
      let ih = resolve-append xs ys rs' ss more f in ground arith

  -- A record under a fresh id changes nothing for ids that resolved before.
  pub resolve-insert :
      (k : ℕ) (r : GrantRecord) (ks : List ℕ) (rs : List GrantRecord)
      → lookup k records ≡ none
      → resolve records ks ≡ ok rs
      → resolve (insert k r records) ks ≡ ok rs
  unfolding resolve
  resolve-insert k r [] rs fresh e = e
  resolve-insert k r (j ∷ ks) rs fresh e =
      let (s, found, rest) = >>=-eq-ok (or_raise (lookup j records) key_error) _ e in
      let (rs', more, last) = >>=-eq-ok (resolve records ks) _ rest in
      let ih = resolve-insert k r ks rs' fresh more in ground (arith, lookup-insert j k r records)
