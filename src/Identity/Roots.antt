-- ===== src/Identity/Roots.antt =====
-- Forests as functions to the parent, for the union-find of sampark/identity/resolution.py.
use sampark.Base.{
  ℕ, zero, suc, ◌≤◌, ◌<◌, ◌≡◌, refl, sym, ap, ◌∙◌, inl, inr, ◌==◌, ==_iff, if◌then◌else◌, arith,
  Bool-cases,
}

-- Every parent is the node itself or smaller.
abbrev pub IsForest : (ℕ → ℕ) → Type 0
IsForest q = (k : ℕ) → q k ≤ k

ascend : ℕ → (ℕ → ℕ) → ℕ → ℕ
ascend zero q k = k
ascend (suc n) q k = if q k == k then k else ascend n q (q k)

-- The root over a node.
pub root_of : (ℕ → ℕ) → ℕ → ℕ
unfolding ascend
root_of q k = ascend k q k

-- What follows the parents and stays at the roots is the root.
ascend_unique :
    (q g : ℕ → ℕ)
    → IsForest q
    → ((k : ℕ) → q k ≡ k → g k ≡ k)
    → ((k : ℕ) → q k < k → g k ≡ g (q k))
    → (n k : ℕ) → k ≤ n
    → ascend n q k ≡ g k
unfolding ascend
ascend_unique q g forest top step zero k le =
    let at_zero : q k ≡ k = omega (arith, forest k, le) in sym (top k at_zero)
ascend_unique q g forest top step (suc n) k le = elim (Bool-cases (q k == k)) [
  | inl fixed ↦
      let at_top : q k ≡ k = ground (arith, ==_iff (q k) k) in rw fixed (sym (top k at_top))
  | inr moved ↦
      let less : q k < k = ground (arith, forest k, ==_iff (q k) k) in
      rw moved
        (ascend_unique q g forest top step n (q k) (omega (arith, less, le)) ∙ sym (step k less))
]

pub root_of_unique :
    (q g : ℕ → ℕ)
    → IsForest q
    → ((k : ℕ) → q k ≡ k → g k ≡ k)
    → ((k : ℕ) → q k < k → g k ≡ g (q k))
    → (k : ℕ) → root_of q k ≡ g k
unfolding root_of
root_of_unique q g forest top step k = ascend_unique q g forest top step k k (omega arith)

pub root_of_top : (q : ℕ → ℕ) (k : ℕ) → q k ≡ k → root_of q k ≡ k
unfolding root_of ascend
root_of_top q zero h = refl
root_of_top q (suc k) h = ground (arith, h, ==_iff (q (suc k)) (suc k))

ascend_enough : (q : ℕ → ℕ) → IsForest q → (n m k : ℕ) → k ≤ n → k ≤ m → ascend n q k ≡ ascend m q k
unfolding ascend
ascend_enough q forest zero zero k a b = refl
ascend_enough q forest zero (suc m) k a b = ground (arith, forest k, ==_iff (q k) k)
ascend_enough q forest (suc n) zero k a b = ground (arith, forest k, ==_iff (q k) k)
ascend_enough q forest (suc n) (suc m) k a b =
    ground (arith, forest k, ==_iff (q k) k, ascend_enough q forest n m (q k))

pub root_of_step : (q : ℕ → ℕ) (k : ℕ) → IsForest q → root_of q k ≡ root_of q (q k)
unfolding root_of ascend
root_of_step q zero forest =
    let at_zero : q zero ≡ zero = omega (arith, forest zero) in ap (root_of q) (sym at_zero)
root_of_step q (suc k) forest = elim (Bool-cases (q (suc k) == suc k)) [
  | inl fixed ↦
      let at_top : q (suc k) ≡ suc k = ground (arith, ==_iff (q (suc k)) (suc k)) in
      ap (root_of q) (sym at_top)
  | inr moved ↦
      let less : q (suc k) ≤ k = ground (arith, forest (suc k), ==_iff (q (suc k)) (suc k)) in
      rw moved (ascend_enough q forest k (q (suc k)) (q (suc k)) less (omega arith))
]

ascend_fixed :
    (q : ℕ → ℕ)
    → IsForest q
    → (n k : ℕ) → k ≤ n
    → (q (ascend n q k) ≡ ascend n q k) × (ascend n q k ≤ k)
unfolding ascend
ascend_fixed q forest zero k le = (omega (arith, forest k), omega arith)
ascend_fixed q forest (suc n) k le = elim (Bool-cases (q k == k)) [
  | inl fixed ↦ rw fixed (ground (arith, ==_iff (q k) k), omega arith)
  | inr moved ↦
      let less : q k < k = ground (arith, forest k, ==_iff (q k) k) in
      let later = ascend_fixed q forest n (q k) (omega (arith, less, le)) in
      rw moved (later.0, omega (arith, later.1, less))
]

-- The root is a root, and no larger than the node.
pub root_of_fixed :
    (q : ℕ → ℕ) (k : ℕ) → IsForest q → (q (root_of q k) ≡ root_of q k) × (root_of q k ≤ k)
unfolding root_of
root_of_fixed q k forest = ascend_fixed q forest k k (omega arith)
