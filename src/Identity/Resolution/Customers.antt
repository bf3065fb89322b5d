-- ===== src/Identity/Resolution/Customers.antt =====
-- The customers that `resolve_customer_ids` of sampark/identity/resolution.py hands out.
use sampark.Base.{
  ℕ, ◌≡◌, ◌↔◌, refl, sym, ap, ◌∙◌, inl, inr, true, List, [], ◌∷◌, some, ok, nat_eq, arith, ◌==◌,
  ==_iff, ==_refl, Bool-cases,
}
use sampark.Base.Dict.{has_key-insert, lookup_known, Dict, lookup, insert, has_key, lookup-insert}
use sampark.Identity.UnionFind.{Parents}
use sampark.Identity.UnionFind.Find.{root, IsSound, IsRearranged, find_finds}
use sampark.Identity.Resolution.{ContactSignal, Names, Groups, answer, resolve_customer_ids}
use sampark.Identity.Resolution.Naming.{node, collect-IsCollected, name_customers_total}
use sampark.Identity.Resolution.Classes.{In, here, there, Linked, join_signals_classes}

module _ (names : Names) where
  -- An answer so far agrees with the customers of the roots.
  abbrev Agrees : Dict ℕ ℕ → Parents → Dict ℕ ℕ → Type 0
  Agrees customers d result =
      (id v : ℕ)
      → lookup id result ≡ some v
      → lookup (root d (names.signal_node id)) customers ≡ some v

  record IsAnswer (customers : Dict ℕ ℕ) (d : Parents) (result result' : Dict ℕ ℕ)
      (signals : List ContactSignal) : Type 0 where
    agrees : Agrees customers d result'
    kept : (id : ℕ) → has_key id result ≡ true → has_key id result' ≡ true
    all : (s : ContactSignal) → In s signals → has_key s.signal_id result' ≡ true

  answer-IsAnswer :
      (customers : Dict ℕ ℕ) (signals : List ContactSignal) (d : Parents) (result : Dict ℕ ℕ)
      → IsSound d
      → ((s : ContactSignal) → In s signals → has_key (root d (node names s)) customers ≡ true)
      → Agrees customers d result
      → (result' : Dict ℕ ℕ) × (answer names customers d result signals ≡ ok result')
        × IsAnswer customers d result result' signals
  unfolding answer
  answer-IsAnswer customers [] d result sound named agrees =
      (result, refl, record { agrees = agrees; kept = λ id h. h; all = λ s i. elim i [ ] })
  answer-IsAnswer customers (s ∷ signals) d result sound named agrees =
      let (d1, went, moved, _) = find_finds d (node names s) sound in
      let (customer, its) = lookup_known (root d (node names s)) customers (named s here) in
      let result1 = insert s.signal_id customer result in
      let customer_at =
        λ (id : ℕ). ap (λ r. lookup r customers) (moved.roots (names.signal_node id)) in
      let agrees1 : Agrees customers d1 result1 =
        λ id v h. customer_at id ∙ agrees_first customers d result s customer agrees its id v h in
      let (result', done, a) =
        answer-IsAnswer customers signals d1 result1 moved.sound
          (λ t i. ap (λ r. has_key r customers) (moved.roots (node names t)) ∙ named t (there i))
          agrees1 in
      let own : has_key s.signal_id result' ≡ true = a.kept s.signal_id (
        has_key-insert s.signal_id s.signal_id customer result
        ∙ ground (arith, ==_refl s.signal_id)) in
      (
        result',
        rw went (rw its done),
        record {
          agrees = λ id v h. sym (customer_at id) ∙ a.agrees id v h;
          kept =
              λ id h. a.kept id (has_key-insert id s.signal_id customer result ∙ ground (arith, h));
          all = all_first result' s signals own a.all;
        },
      )
    where
      agrees_first :
          (customers : Dict ℕ ℕ) (d : Parents) (result : Dict ℕ ℕ) (s : ContactSignal)
          (customer : ℕ)
          → Agrees customers d result
          → lookup (root d (node names s)) customers ≡ some customer
          → (id v : ℕ) → lookup id (insert s.signal_id customer result) ≡ some v
          → lookup (root d (names.signal_node id)) customers ≡ some v
      agrees_first customers d result s customer agrees its id v h =
          elim (Bool-cases (s.signal_id == id)) [
            | inl same ↦
                let is : customer ≡ v =
                  ground (arith, lookup-insert id s.signal_id customer result, h, same) in
                let at : id ≡ s.signal_id = ground (arith, ==_iff s.signal_id id, same) in
                ap (λ i. lookup (root d (names.signal_node i)) customers) at ∙ its ∙ ap some is
            | inr other ↦
                agrees id v (ground (arith, lookup-insert id s.signal_id customer result, h, other))
          ]

      all_first :
          (result : Dict ℕ ℕ) (s : ContactSignal) (signals : List ContactSignal)
          → has_key s.signal_id result ≡ true
          → ((t : ContactSignal) → In t signals → has_key t.signal_id result ≡ true)
          → (t : ContactSignal) → In t (s ∷ signals)
          → has_key t.signal_id result ≡ true
      all_first result s signals own others t here = own
      all_first result s signals own others t (there i) = others t i

-- resolve_customer_ids always returns, a customer id for every signal, and the same one for two signals
-- that a chain of shared phone and e-mail hashes links.
pub resolve_customer_ids_links :
    (names : Names) (signals : List ContactSignal)
    → (ids : Dict ℕ ℕ) × (resolve_customer_ids names signals ≡ ok ids)
      × ((s t : ContactSignal)
          → In s signals
          → In t signals
          → Linked names signals (names.signal_node s.signal_id) (names.signal_node t.signal_id)
          → (customer : ℕ) × (lookup s.signal_id ids ≡ some customer)
            × (lookup t.signal_id ids ≡ some customer))
unfolding resolve_customer_ids
resolve_customer_ids_links names signals =
    let (d, joined, sound, classes) = join_signals_classes names signals in
    let start : Groups = record {
      parents = d;
      signal_ids_by_root = [];
      identity_keys_by_root = [];
    } in
    let (g, collected, c) = collect-IsCollected names signals start sound (λ r h. h) in
    let (customers, named, _, all_named) =
      name_customers_total names g.identity_keys_by_root g.signal_ids_by_root [] c.paired in
    let (ids, answered, a) =
      answer-IsAnswer names customers signals g.parents [] c.moved.sound
        (λ s i. all_named (root g.parents (names.signal_node s.signal_id)) (
          ap (λ r. has_key r g.signal_ids_by_root) (c.moved.roots (names.signal_node s.signal_id))
          ∙ c.found s i))
        (λ id v h. absurd (ground arith)) in
    (
      ids,
      rw joined (rw collected (rw named answered)),
      λ s t i j linked.
          one_customer names signals d g.parents customers ids s t classes c.moved
            (a.agrees s.signal_id) (a.agrees t.signal_id) (a.all s i) (a.all t j) linked,
    )
  where
    one_customer :
        (names : Names) (signals : List ContactSignal) (d d' : Parents) (customers ids : Dict ℕ ℕ)
        (s t : ContactSignal)
        → ((a b : ℕ) → (root d a ≡ root d b) ↔ Linked names signals a b)
        → IsRearranged d d'
        → ((v : ℕ)
            → lookup s.signal_id ids ≡ some v
            → lookup (root d' (names.signal_node s.signal_id)) customers ≡ some v)
        → ((v : ℕ)
            → lookup t.signal_id ids ≡ some v
            → lookup (root d' (names.signal_node t.signal_id)) customers ≡ some v)
        → has_key s.signal_id ids ≡ true
        → has_key t.signal_id ids ≡ true
        → Linked names signals (names.signal_node s.signal_id) (names.signal_node t.signal_id)
        → (customer : ℕ) × (lookup s.signal_id ids ≡ some customer)
          × (lookup t.signal_id ids ≡ some customer)
    one_customer names signals d d' customers ids s t classes moved of_s of_t has_s has_t linked =
        let (v, at_s) = lookup_known s.signal_id ids has_s in
        let (w, at_t) = lookup_known t.signal_id ids has_t in
        let a = names.signal_node s.signal_id in
        let b = names.signal_node t.signal_id in
        let same : root d' a ≡ root d' b =
          moved.roots a ∙ (classes a b).1 linked ∙ sym (moved.roots b) in
        let equal : some w ≡ some v =
          sym (of_t w at_t) ∙ ap (λ r. lookup r customers) (sym same) ∙ of_s v at_s in
        (v, at_s, at_t ∙ equal)
