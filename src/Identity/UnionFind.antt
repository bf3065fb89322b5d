-- ===== src/Identity/UnionFind.antt =====
-- `_UnionFind` of sampark/identity/resolution.py. The nodes are strings in the source, numbered here in
-- their order.
pub mod Find
pub mod Union
use sampark.Base.{
  ℕ, zero, suc, List, [], ◌∷◌, Option, none, some, Result, ok, err, key_error, or_raise, ◌==◌, ltb,
  nat_eq, if◌then◌else◌, ◌>>=◌,
}
use sampark.Base.Dict.{Dict, lookup, insert, has_key}

-- `self._parent`
abbrev pub Parents : Type 0
Parents = Dict ℕ ℕ

-- `self._parent.setdefault(key, key)`
unfoldable pub set_default : Parents → ℕ → Parents
unfolding insert has_key
set_default d key = if has_key key d then d else insert key key d

-- The loop, which halves the path. At a root the parent's parent is read too, which is the same read
-- again. Every step leads to a smaller node, so the node is fuel enough.
unfoldable pub climb : ℕ → Parents → ℕ → Result (ℕ × Parents)
unfolding insert lookup
climb zero d key = ok (key, d)
climb (suc fuel) d key = do
  p ← or_raise (lookup key d) key_error
  onward ← or_raise (lookup p d) key_error
  if p == key then ok (key, d) else climb fuel (insert key onward d) onward

unfoldable pub find : Parents → ℕ → Result (ℕ × Parents)
unfolding set_default climb
find d key = climb key (set_default d key) key

-- The smaller of the two roots becomes the parent of the other one.
unfoldable pub link : Parents → ℕ → ℕ → Parents
unfolding insert
link d root_a root_b =
    if root_a == root_b
    then d
    else if ltb root_b root_a
    then insert root_a root_b d
    else insert root_b root_a d

unfoldable pub union : Parents → ℕ → ℕ → Result Parents
unfolding find link
union d a b = do (root_a, d1) ← find d a; (root_b, d2) ← find d1 b; ok (link d2 root_a root_b)
