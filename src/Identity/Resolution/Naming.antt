-- ===== src/Identity/Resolution/Naming.antt =====
-- The groups and customers by root of `resolve_customer_ids` (sampark/identity/resolution.py).
use sampark.Base.{
  ℕ, ◌≡◌, refl, sym, ap, ◌∙◌, inl, inr, true, List, [], ◌∷◌, ◌++◌, ok, nat_eq, arith, ◌==◌, ==_refl,
  Bool-cases,
}
use sampark.Base.Dict.{has_key-insert, lookup_known, Dict, lookup, lookup_or, insert, has_key}
use sampark.Identity.UnionFind.Find.{root, IsSound, IsRearranged, IsRearranged-trans, find_finds}
use sampark.Identity.Resolution.{
  ContactSignal, Names, Groups, add_key, collect, basis, name_customers,
}
use sampark.Identity.Resolution.Classes.{In, here, there}

module _ (names : Names) where
  -- Every root with signals has its set of keys.
  abbrev pub IsPaired : Groups → Type 0
  IsPaired g =
      (r : ℕ) → has_key r g.signal_ids_by_root ≡ true → has_key r g.identity_keys_by_root ≡ true

  abbrev pub node : ContactSignal → ℕ
  node s = names.signal_node s.signal_id

  pub record IsCollected (g g' : Groups) (signals : List ContactSignal) : Type 0 where
    pub moved : IsRearranged g.parents g'.parents
    pub paired : IsPaired g'
    pub kept :
        (r : ℕ) → has_key r g.signal_ids_by_root ≡ true → has_key r g'.signal_ids_by_root ≡ true
    pub found :
        (s : ContactSignal)
        → In s signals
        → has_key (root g.parents (node s)) g'.signal_ids_by_root ≡ true

  pub collect-IsCollected :
      (signals : List ContactSignal) (g : Groups)
      → IsSound g.parents
      → IsPaired g
      → (g' : Groups) × (collect names g signals ≡ ok g') × IsCollected g g' signals
  unfolding collect
  collect-IsCollected [] g sound paired = (
    g,
    refl,
    record {
      moved = record { sound = sound; roots = λ k. refl; kept = λ k h. h };
      paired = paired;
      kept = λ r h. h;
      found = λ s i. elim i [ ];
    },
  )
  collect-IsCollected (s ∷ signals) g sound paired =
      let (d, went, moved, _) = find_finds g.parents (node s) sound in
      let r = root g.parents (node s) in
      let ids = lookup_or [] r g.signal_ids_by_root ++ s.signal_id ∷ [] in
      let keys = lookup_or [] r g.identity_keys_by_root in
      let more =
        add_key names names.email_node s.email_hash
          (add_key names names.phone_node s.phone_hash keys) in
      let g1 : Groups = record {
        parents = d;
        signal_ids_by_root = insert r ids g.signal_ids_by_root;
        identity_keys_by_root = insert r more g.identity_keys_by_root;
      } in
      let paired1 : IsPaired g1 = λ j h. ground (
        arith,
        has_key-insert j r ids g.signal_ids_by_root,
        has_key-insert j r more g.identity_keys_by_root,
        paired j,
      ) in
      let (g', done, c) = collect-IsCollected signals g1 moved.sound paired1 in
      let stays = λ (j : ℕ) (h : has_key j g.signal_ids_by_root ≡ true).
        c.kept j (has_key-insert j r ids g.signal_ids_by_root ∙ ground (arith, h)) in
      let own : has_key r g'.signal_ids_by_root ≡ true =
        c.kept r (has_key-insert r r ids g.signal_ids_by_root ∙ ground (arith, ==_refl r)) in
      (
        g',
        rw went done,
        record {
          moved = IsRearranged-trans g.parents d g'.parents moved c.moved;
          paired = c.paired;
          kept = stays;
          found = found_first g g' s signals own (λ t i.
              ap (λ j. has_key j g'.signal_ids_by_root) (sym (moved.roots (node t))) ∙ c.found t i);
        },
      )
    where
      found_first :
          (g g' : Groups) (s : ContactSignal) (signals : List ContactSignal)
          → has_key (root g.parents (node s)) g'.signal_ids_by_root ≡ true
          → ((t : ContactSignal)
              → In t signals
              → has_key (root g.parents (node t)) g'.signal_ids_by_root ≡ true)
          → (t : ContactSignal) → In t (s ∷ signals)
          → has_key (root g.parents (node t)) g'.signal_ids_by_root ≡ true
      found_first g g' s signals own others t here = own
      found_first g g' s signals own others t (there i) = others t i

  pub name_customers_total :
      (keys : Dict ℕ (List ℕ)) (ids : Dict ℕ (List ℕ)) (customers : Dict ℕ ℕ)
      → ((r : ℕ) → has_key r ids ≡ true → has_key r keys ≡ true)
      → (customers' : Dict ℕ ℕ) × (name_customers names keys customers ids ≡ ok customers')
        × ((r : ℕ) → has_key r customers ≡ true → has_key r customers' ≡ true)
        × ((r : ℕ) → has_key r ids ≡ true → has_key r customers' ≡ true)
  unfolding name_customers has_key lookup
  name_customers_total keys [] customers paired =
      (customers, refl, λ r h. h, λ r h. absurd (ground arith))
  name_customers_total keys ((r, ids) ∷ rest) customers paired =
      let (ks, found) = lookup_known r keys (paired r (ground (arith, ==_refl r))) in
      let customer = names.customer_id (basis names ks ids) in
      let (customers', done, kept, named) =
        name_customers_total keys rest (insert r customer customers)
          (λ j h. paired j (ground (arith, h))) in
      (
        customers',
        rw found done,
        λ j h. kept j (has_key-insert j r customer customers ∙ ground (arith, h)),
        λ j h. elim (Bool-cases (r == j)) [
          | inl same ↦ kept j (has_key-insert j r customer customers ∙ ground (arith, same))
          | inr other ↦ named j (ground (arith, h, other))
        ],
      )
