-- ===== src/Identity/UnionFind/Union.antt =====
-- What `_UnionFind.union` of sampark/identity/resolution.py joins.
use sampark.Base.{
  ℕ, ◌<◌, ◌≡◌, refl, sym, ap, subst, ◌∙◌, inl, inr, true, false, Result, ok, ◌==◌, ==_iff, ltb,
  nat_eq, if◌then◌else◌, arith, Bool-cases,
}
use sampark.Base.Dict.{has_key-insert, insert, has_key, lookup-insert, lookup_or-insert}
use sampark.Identity.Roots.{IsForest, root_of_unique, root_of_top, root_of_step, root_of_fixed}
use sampark.Identity.UnionFind.{Parents, link, union}
use sampark.Identity.UnionFind.Find.{
  parent, root, IsSound, IsRearranged-trans, find_finds, root_known,
}

pub record IsEquivalence (R : ℕ → ℕ → Type 0) : Type 0 where
  pub reflexive : (a : ℕ) → R a a
  pub symmetric : (a b : ℕ) → R a b → R b a
  pub transitive : (a b c : ℕ) → R a b → R b c → R a c

-- The classes of `a` and `b` become one, and no others change.
pub record IsUnited (d d' : Parents) (a b : ℕ) : Type 1 where
  pub sound : IsSound d'
  pub kept : (k : ℕ) → has_key k d ≡ true → has_key k d' ≡ true
  pub together : root d' a ≡ root d' b
  pub coarser : (j k : ℕ) → root d j ≡ root d k → root d' j ≡ root d' k
  pub finest :
      (R : ℕ → ℕ → Type 0)
      → IsEquivalence R
      → R a b
      → ((k : ℕ) → R (root d k) k)
      → (k : ℕ) → R (root d' k) k

-- A root that is hung below a smaller root.
hang_roots :
    (d : Parents) (low high : ℕ)
    → IsSound d
    → low < high
    → parent d high ≡ high
    → parent d low ≡ low
    → IsForest (parent (insert high low d))
      × ((k : ℕ) → root (insert high low d) k ≡ (if root d k == high then low else root d k))
hang_roots d low high s less top_high top_low =
    let moved = λ (j : ℕ). lookup_or-insert j j high low d in
    let forest : IsForest (parent (insert high low d)) =
      λ j. ground (arith, moved j, s.forest j, less, ==_iff high j) in
    (
      forest,
      root_of_unique (parent (insert high low d)) (λ k. if root d k == high then low else root d k)
          forest
          (λ i h.
            let own : parent d i ≡ i = ground (arith, moved i, ==_iff high i, less, h) in
            let other : (i == high) ≡ false =
              ground (arith, moved i, ==_iff high i, ==_iff i high, less, h) in
            rw (root_of_top (parent d) i own) (rw other refl))
          (λ i h. elim (Bool-cases (high == i)) [
            | inl here ↦
                let same : i ≡ high = ground (arith, ==_iff high i) in
                let from : root d i ≡ high =
                  ap (root d) same ∙ root_of_top (parent d) high top_high in
                let to : root d (parent (insert high low d) i) ≡ low =
                  ap (root d) (moved i ∙ rw here refl) ∙ root_of_top (parent d) low top_low in
                ground (
                  arith,
                  from,
                  to,
                  less,
                  ==_iff (root d i) high,
                  ==_iff (root d (parent (insert high low d) i)) high,
                )
            | inr there ↦
                let up : parent (insert high low d) i ≡ parent d i = moved i ∙ rw there refl in
                ap (λ r. if r == high then low else r)
                  (root_of_step (parent d) i s.forest ∙ ap (root d) (sym up))
          ]),
    )

hang-IsUnited :
    (d : Parents) (low high a b : ℕ)
    → IsSound d
    → low < high
    → root d a ≡ low
    → root d b ≡ high
    → has_key low d ≡ true
    → IsUnited d (insert high low d) a b
hang-IsUnited d low high a b s less ra rb known =
    let top_low : parent d low ≡ low =
      sym (ap (parent d) ra) ∙ (root_of_fixed (parent d) a s.forest).0 ∙ ra in
    let top_high : parent d high ≡ high =
      sym (ap (parent d) rb) ∙ (root_of_fixed (parent d) b s.forest).0 ∙ rb in
    let (forest, roots) = hang_roots d low high s less top_high top_low in
    record {
      sound = record {
        forest = forest;
        closed = λ j v h.
            ground (arith, lookup-insert j high low d, has_key-insert v high low d, s.closed j v);
      };
      kept = λ k h. ground (arith, has_key-insert k high low d);
      together =
          ground
            (arith, roots a, roots b, ra, rb, less, ==_iff (root d a) high, ==_iff (root d b) high);
      coarser = λ j k h. roots j ∙ ap (λ r. if r == high then low else r) h ∙ sym (roots k);
      finest = λ R eq joined respects k. elim (Bool-cases (root d k == high)) [
        | inr off ↦ subst (λ r. R r k) (sym (roots k ∙ rw off refl)) (respects k)
        | inl on ↦
            let top : high ≡ root d k = ground (arith, ==_iff (root d k) high) in
            let to_b : R (root d a) b = eq.transitive (root d a) a b (respects a) joined in
            let to_high : R (root d a) (root d b) =
              eq.transitive (root d a) b (root d b) to_b (eq.symmetric (root d b) b (respects b)) in
            let to_k : R (root d a) k =
              eq.transitive (root d a) (root d k) k (subst (R (root d a)) (rb ∙ top) to_high)
                (respects k) in
            subst (λ r. R r k) (ra ∙ sym (roots k ∙ rw on refl)) to_k
      ];
    }

IsUnited-sym : (d d' : Parents) (a b : ℕ) → IsUnited d d' a b → IsUnited d d' b a
IsUnited-sym d d' a b u = record {
  sound = u.sound;
  kept = u.kept;
  together = sym u.together;
  coarser = u.coarser;
  finest = λ R eq joined. u.finest R eq (eq.symmetric b a joined);
}

link-IsUnited :
    (d : Parents) (a b : ℕ)
    → IsSound d
    → has_key (root d a) d ≡ true
    → has_key (root d b) d ≡ true
    → IsUnited d (link d (root d a) (root d b)) a b
unfolding link
link-IsUnited d a b s known_a known_b = elim (Bool-cases (root d a == root d b)) [
  | inl same ↦ rw same (record {
    sound = s;
    kept = λ k h. h;
    together = ground (arith, ==_iff (root d a) (root d b));
    coarser = λ j k h. h;
    finest = λ R eq joined respects. respects;
  })
  | inr apart ↦ elim (Bool-cases (ltb (root d b) (root d a))) [
    | inl less ↦ rw apart (
        rw less (
          IsUnited-sym d _ b a
            (hang-IsUnited d (root d b) (root d a) b a s (ground arith) refl refl known_b)))
    | inr more ↦
        let lower : root d a < root d b = ground (arith, ==_iff (root d a) (root d b)) in
        rw apart (rw more (hang-IsUnited d (root d a) (root d b) a b s lower refl refl known_a))
  ]
]

-- A union always returns, and joins the classes of its two nodes and no others.
pub union_unites :
    (d : Parents) (a b : ℕ) → IsSound d → (d' : Parents) × (union d a b ≡ ok d') × IsUnited d d' a b
unfolding union
union_unites d a b s =
    let (d1, found_a, first, known_a) = find_finds d a s in
    let (d2, found_b, second, known_b) = find_finds d1 b first.sound in
    let both = IsRearranged-trans d d1 d2 first second in
    let u =
      link-IsUnited d2 a b second.sound (root_known a d2 second.sound (second.kept a known_a))
        (root_known b d2 second.sound known_b) in
    let same : link d2 (root d a) (root d1 b) ≡ link d2 (root d2 a) (root d2 b) =
      ap (λ r. link d2 r (root d1 b)) (sym (both.roots a))
      ∙ ap (link d2 (root d2 a)) (sym (second.roots b)) in
    (
      link d2 (root d2 a) (root d2 b),
      rw found_a (rw found_b (ap {B = Result Parents} ok same)),
      record {
        sound = u.sound;
        kept = λ k h. u.kept k (both.kept k h);
        together = u.together;
        coarser = λ j k h. u.coarser j k (both.roots j ∙ h ∙ sym (both.roots k));
        finest = λ R eq joined respects.
            u.finest R eq joined (λ k. subst (λ r. R r k) (sym (both.roots k)) (respects k));
      },
    )
