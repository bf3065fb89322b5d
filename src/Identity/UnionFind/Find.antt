-- ===== src/Identity/UnionFind/Find.antt =====
-- What `_UnionFind.find` of sampark/identity/resolution.py returns and changes.
use sampark.Base.{
  ℕ, zero, suc, ◌≤◌, ◌≡◌, refl, sym, ap, ◌∙◌, inl, inr, true, false, some, Result, ok, ◌==◌, ==_iff,
  ==_refl, nat_eq, arith, Bool-cases,
}
use sampark.Base.Dict.{
  lookup, lookup_or, insert, has_key, lookup-insert, lookup_or-insert, has_key-insert, lookup_known,
}
use sampark.Identity.Roots.{IsForest, root_of, root_of_unique, root_of_top, root_of_step}
use sampark.Identity.UnionFind.{Parents, set_default, climb, find}

-- A node that was never seen is its own parent.
abbrev pub parent : Parents → ℕ → ℕ
parent d k = lookup_or k k d

abbrev pub root : Parents → ℕ → ℕ
root d k = root_of (parent d) k

-- Parents are smaller, and nodes themselves.
pub record IsSound (d : Parents) : Type 0 where
  pub forest : IsForest (parent d)
  pub closed : (k p : ℕ) → lookup k d ≡ some p → has_key p d ≡ true

-- What an operation that moves no root leaves as it was.
pub record IsRearranged (d d' : Parents) : Type 0 where
  pub sound : IsSound d'
  pub roots : (k : ℕ) → root d' k ≡ root d k
  pub kept : (k : ℕ) → has_key k d ≡ true → has_key k d' ≡ true

pub IsRearranged-trans :
    (d d' d'' : Parents) → IsRearranged d d' → IsRearranged d' d'' → IsRearranged d d''
IsRearranged-trans d d' d'' a b = record {
  sound = b.sound;
  roots = λ k. b.roots k ∙ a.roots k;
  kept = λ k h. b.kept k (a.kept k h);
}

parent_known : (k p : ℕ) (d : Parents) → lookup k d ≡ some p → parent d k ≡ p
unfolding lookup_or
parent_known k p d h = ground arith

-- A known node with a parent that is moved up to the parent's parent.
halve-IsRearranged :
    (d : Parents) (k p grand : ℕ)
    → IsSound d
    → lookup k d ≡ some p
    → lookup p d ≡ some grand
    → IsRearranged d (insert k grand d)
halve-IsRearranged d k p grand s hk hp =
    let at_k = parent_known k p d hk in
    let at_p = parent_known p grand d hp in
    let moved = λ (j : ℕ). lookup_or-insert j j k grand d in
    let forest : IsForest (parent (insert k grand d)) =
      λ j. ground (arith, moved j, s.forest j, s.forest k, s.forest p, ==_iff k j) in
    record {
      sound = record {
        forest = forest;
        closed = λ j v h. ground (
          arith,
          lookup-insert j k grand d,
          has_key-insert v k grand d,
          s.closed j v,
          s.closed p grand hp,
          ==_iff k j,
        );
      };
      roots = λ j.
          root_of_unique (parent (insert k grand d)) (root d) forest
            (λ i h.
              let own : parent d i ≡ i =
                ground (arith, moved i, s.forest k, s.forest p, at_k, at_p, ==_iff k i, h) in
              root_of_top (parent d) i own)
            (λ i h. elim (Bool-cases (k == i)) [
              | inl here ↦
                  let same : k ≡ i = ground (arith, ==_iff k i) in
                  let up : parent (insert k grand d) i ≡ parent d (parent d k) =
                    moved i ∙ rw here (sym (ap (parent d) at_k ∙ at_p)) in
                  ap (root d) (sym same)
                  ∙ root_of_step (parent d) k s.forest
                  ∙ root_of_step (parent d) (parent d k) s.forest
                  ∙ ap (root d) (sym up)
              | inr there ↦
                  let up : parent (insert k grand d) i ≡ parent d i = moved i ∙ rw there refl in
                  root_of_step (parent d) i s.forest ∙ ap (root d) (sym up)
            ])
            j;
      kept = λ j h. ground (arith, has_key-insert j k grand d);
    }

self-IsRearranged : (d : Parents) → IsSound d → IsRearranged d d
self-IsRearranged d s = record { sound = s; roots = λ k. refl; kept = λ k h. h }

-- What a search comes to.
abbrev Finds : Parents → ℕ → Result (ℕ × Parents) → Type 0
Finds d key result = (d' : Parents) × (result ≡ ok (root d key, d')) × IsRearranged d d'

climb-Finds :
    (fuel : ℕ) (d : Parents) (key : ℕ)
    → key ≤ fuel
    → IsSound d
    → has_key key d ≡ true
    → Finds d key (climb fuel d key)
unfolding climb
climb-Finds zero d key le s h =
    let at_zero : root d key ≡ key = root_of_top (parent d) key (omega (arith, s.forest key, le)) in
    (d, ap {B = Result (ℕ × Parents)} (λ r. ok (r, d)) (sym at_zero), self-IsRearranged d s)
climb-Finds (suc fuel) d key le s h =
    let (p, hk) = lookup_known key d h in
    let (grand, hp) = lookup_known p d (s.closed key p hk) in
    let at_k = parent_known key p d hk in
    let at_p = parent_known p grand d hp in
    elim (Bool-cases (p == key)) [
      | inl fixed ↦
          let top : root d key ≡ key =
            root_of_top (parent d) key (at_k ∙ ground (arith, ==_iff p key)) in
          (
            d,
            rw hk (rw hp (rw fixed (ap {B = Result (ℕ × Parents)} (λ r. ok (r, d)) (sym top)))),
            self-IsRearranged d s,
          )
      | inr moves ↦
          let d1 = insert key grand d in
          let halved = halve-IsRearranged d key p grand s hk hp in
          let lower : grand ≤ fuel =
            ground (arith, s.forest key, s.forest p, at_k, at_p, ==_iff p key, le) in
          let known : has_key grand d1 ≡ true = halved.kept grand (s.closed p grand hp) in
          let (d', went, after) = climb-Finds fuel d1 grand lower halved.sound known in
          let up : root d1 grand ≡ root d key =
            halved.roots grand
            ∙ ap (root d) (sym (ap (parent d) at_k ∙ at_p))
            ∙ sym (root_of_step (parent d) (parent d key) s.forest)
            ∙ sym (root_of_step (parent d) key s.forest) in
          (
            d',
            rw hk (rw hp (rw moves (went ∙ ap {B = Result (ℕ × Parents)} (λ r. ok (r, d')) up))),
            IsRearranged-trans d d1 d' halved after,
          )
    ]

default_parent :
    (d : Parents) (key i : ℕ) → has_key key d ≡ false → parent (insert key key d) i ≡ parent d i
unfolding has_key lookup_or
default_parent d key i fresh = ground (arith, lookup-insert i key key d, ==_iff key i)

-- A new node is its own parent, as it was taken for before.
default-IsRearranged :
    (d : Parents) (key : ℕ) → IsSound d → has_key key d ≡ false → IsRearranged d (insert key key d)
default-IsRearranged d key s fresh =
    let same : (i : ℕ) → parent (insert key key d) i ≡ parent d i =
      λ i. default_parent d key i fresh in
    let forest : IsForest (parent (insert key key d)) = λ i. ground (arith, same i, s.forest i) in
    record {
      sound = record {
        forest = forest;
        closed = λ j v h. ground (
          arith,
          lookup-insert j key key d,
          has_key-insert v key key d,
          s.closed j v,
          ==_refl key,
        );
      };
      roots =
          root_of_unique (parent (insert key key d)) (root d) forest
            (λ i h. root_of_top (parent d) i (sym (same i) ∙ h))
            (λ i h. root_of_step (parent d) i s.forest ∙ ap (root d) (sym (same i)));
      kept = λ j h. ground (arith, has_key-insert j key key d);
    }

set_default-IsRearranged : (d : Parents) (key : ℕ) → IsSound d → IsRearranged d (set_default d key)
unfolding set_default
set_default-IsRearranged d key s = elim (Bool-cases (has_key key d)) [
  | inl known ↦ rw known (self-IsRearranged d s)
  | inr fresh ↦ rw fresh (default-IsRearranged d key s fresh)
]

set_default_known : (d : Parents) (key : ℕ) → has_key key (set_default d key) ≡ true
unfolding set_default
set_default_known d key = ground (arith, has_key-insert key key key d, ==_refl key)

-- A search always returns, with the root, which is then known, and moves no root.
pub find_finds :
    (d : Parents) (key : ℕ)
    → IsSound d
    → (d' : Parents) × (find d key ≡ ok (root d key, d'))
      × IsRearranged d d'
      × (has_key key d' ≡ true)
unfolding find
find_finds d key s =
    let first = set_default-IsRearranged d key s in
    let known = set_default_known d key in
    let (d', went, after) =
      climb-Finds key (set_default d key) key (omega arith) first.sound known in
    (
      d',
      went ∙ ap {B = Result (ℕ × Parents)} (λ r. ok (r, d')) (first.roots key),
      IsRearranged-trans d (set_default d key) d' first after,
      after.kept key known,
    )

root_known_below :
    (n k : ℕ) (d : Parents) → k ≤ n → IsSound d → has_key k d ≡ true → has_key (root d k) d ≡ true
root_known_below zero k d le s h =
    let top : root d k ≡ k = root_of_top (parent d) k (omega (arith, s.forest k, le)) in
    ap (λ r. has_key r d) top ∙ h
root_known_below (suc n) k d le s h = elim (Bool-cases (parent d k == k)) [
  | inl fixed ↦
      let own : parent d k ≡ k = ground (arith, ==_iff (parent d k) k) in
      ap (λ r. has_key r d) (root_of_top (parent d) k own) ∙ h
  | inr moves ↦
      let (p, hk) = lookup_known k d h in
      let at_k = parent_known k p d hk in
      let lower : p ≤ n = ground (arith, s.forest k, at_k, ==_iff (parent d k) k, le) in
      ap (λ r. has_key r d) (root_of_step (parent d) k s.forest ∙ ap (root d) at_k)
      ∙ root_known_below n p d lower s (s.closed k p hk)
]

-- The root of a known node is known.
pub root_known :
    (k : ℕ) (d : Parents) → IsSound d → has_key k d ≡ true → has_key (root d k) d ≡ true
root_known k d s h = root_known_below k k d (omega arith) s h
