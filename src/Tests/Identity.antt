-- ===== src/Tests/Identity.antt =====
-- sampark/identity/resolution.py at four signals: the second has the phone of the first and the address
-- of the third, and the fourth has neither.
use sampark.Base.{ℕ, ◌+◌, ◌≡◌, ◌↔◌, List, [], ◌∷◌, none, some, refl, ok, nat_eq}
use sampark.Base.Dict.{Dict, lookup}
use sampark.Identity.UnionFind.{Parents}
use sampark.Identity.UnionFind.Find.{root, IsSound}
use sampark.Identity.Resolution.{ContactSignal, Names, join_signals, resolve_customer_ids}
use sampark.Identity.Resolution.Classes.{In, Linked, join_signals_classes}
use sampark.Identity.Resolution.Customers.{resolve_customer_ids_links}

abbrev sum : List ℕ → ℕ
sum [] = 0
sum (x ∷ xs) = x + sum xs

abbrev names : Names
names = record {
  email_node = λ h. h;
  phone_node = λ h. 100 + h;
  signal_node = λ i. 200 + i;
  customer_id = sum;
}

abbrev signals : List ContactSignal
signals =
    record { signal_id = 1; phone_hash = some 5; email_hash = none }
    ∷ record { signal_id = 2; phone_hash = some 5; email_hash = some 7 }
    ∷ record { signal_id = 3; phone_hash = none; email_hash = some 7 }
    ∷ record { signal_id = 4; phone_hash = none; email_hash = none }
    ∷ []

-- The first three are one customer.
resolved : resolve_customer_ids names signals ≡ ok ((1, 112) ∷ (2, 112) ∷ (3, 112) ∷ (4, 204) ∷ [])
unfolding resolve_customer_ids
resolved = refl

join_signals_classes_example :
    (d : Parents) × (join_signals names [] signals ≡ ok d)
    × IsSound d
    × ((a b : ℕ) → (root d a ≡ root d b) ↔ Linked names signals a b)
join_signals_classes_example = join_signals_classes names signals

resolve_customer_ids_links_example :
    (ids : Dict ℕ ℕ) × (resolve_customer_ids names signals ≡ ok ids)
    × ((s t : ContactSignal)
        → In s signals
        → In t signals
        → Linked names signals (names.signal_node s.signal_id) (names.signal_node t.signal_id)
        → (customer : ℕ) × (lookup s.signal_id ids ≡ some customer)
          × (lookup t.signal_id ids ≡ some customer))
resolve_customer_ids_links_example = resolve_customer_ids_links names signals
