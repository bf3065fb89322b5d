-- ===== src/Allocator/Greedy/Customers.antt =====
-- The customers that `sorted(by_customer)` (sampark/allocator/greedy.py) visits.
use sampark.Base.{ℕ, ◌≤◌, ◌<◌, ◌≡◌, List, [], ◌∷◌, All, All-map, tally, arith, ◌==◌, nat_eq, ==_iff}
use sampark.Allocator.Candidate.{Candidate}
use sampark.Allocator.Greedy.{insert_once, customers}

abbrev IsIncreasing : List ℕ → Type 0
IsIncreasing [] = Unit
IsIncreasing (x ∷ xs) = All (λ y. x < y) xs × IsIncreasing xs

All-insert_once :
    (b a : ℕ) (xs : List ℕ) → b < a → All (λ y. b < y) xs → All (λ y. b < y) (insert_once a xs)
unfolding insert_once
All-insert_once b a [] h k = (h, tt)
All-insert_once b a (x ∷ xs) h k = ground (arith, All-insert_once b a xs h k.1)

All-below : (a x : ℕ) (xs : List ℕ) → a < x → All (λ y. x < y) xs → All (λ y. a < y) xs
All-below a x [] lt h = tt
All-below a x (y ∷ ys) lt h = (omega (arith, lt, h.0), All-below a x ys lt h.1)

insert_once-IsIncreasing : (a : ℕ) (xs : List ℕ) → IsIncreasing xs → IsIncreasing (insert_once a xs)
unfolding insert_once
insert_once-IsIncreasing a [] h = (tt, tt)
insert_once-IsIncreasing a (x ∷ xs) h =
    let later = insert_once-IsIncreasing a xs h.1 in
    ground (arith, ==_iff x a, All-insert_once x a xs, later, All-below a x xs)

customers-IsIncreasing : (cs : List Candidate) → IsIncreasing (customers cs)
unfolding customers
customers-IsIncreasing [] = tt
customers-IsIncreasing (c ∷ cs) =
    insert_once-IsIncreasing c.customer_id (customers cs) (customers-IsIncreasing cs)

tally_above : (k : ℕ) (xs : List ℕ) → All (λ y. k < y) xs → tally (λ x. x == k) xs ≡ 0
tally_above k [] h = omega arith
tally_above k (x ∷ xs) h = ground (arith, tally_above k xs h.1, ==_iff x k)

tally_increasing : (k : ℕ) (xs : List ℕ) → IsIncreasing xs → tally (λ x. x == k) xs ≤ 1
tally_increasing k [] h = omega arith
tally_increasing k (x ∷ xs) h =
    ground (arith, ==_iff x k, tally_above k xs, tally_increasing k xs h.1)

-- No customer is visited twice.
pub customers_once : (k : ℕ) (cs : List Candidate) → tally (λ j. j == k) (customers cs) ≤ 1
customers_once k cs = tally_increasing k (customers cs) (customers-IsIncreasing cs)

tally-insert_once :
    (k a : ℕ) (xs : List ℕ) → tally (λ x. x == k) xs ≤ tally (λ x. x == k) (insert_once a xs)
unfolding insert_once
tally-insert_once k a [] = ground arith
tally-insert_once k a (x ∷ xs) = ground (arith, tally-insert_once k a xs)

insert_once_there : (a : ℕ) (xs : List ℕ) → 1 ≤ tally (λ x. x == a) (insert_once a xs)
unfolding insert_once
insert_once_there a [] = ground (arith, ==_iff a a)
insert_once_there a (x ∷ xs) = ground (arith, insert_once_there a xs, ==_iff a a, ==_iff x a)

IsVisited : List ℕ → Candidate → Type 0
IsVisited ks c = 1 ≤ tally (λ j. j == c.customer_id) ks

IsVisited-insert_once :
    (a : ℕ) (ks : List ℕ) (cs : List Candidate)
    → All (IsVisited ks) cs
    → All (IsVisited (insert_once a ks)) cs
unfolding IsVisited
IsVisited-insert_once a ks [] h = tt
IsVisited-insert_once a ks (c ∷ cs) h =
    (omega (arith, h.0, tally-insert_once c.customer_id a ks), IsVisited-insert_once a ks cs h.1)

visited : (cs : List Candidate) → All (IsVisited (customers cs)) cs
unfolding IsVisited customers
visited [] = tt
visited (c ∷ cs) = (
  insert_once_there c.customer_id (customers cs),
  IsVisited-insert_once c.customer_id (customers cs) cs (visited cs),
)

-- The customer of every candidate is visited, once.
pub customers_all :
    (cs : List Candidate)
    → All (λ (c : Candidate). tally (λ j. j == c.customer_id) (customers cs) ≡ 1) cs
unfolding IsVisited
customers_all cs = All-map cs (λ c (h : IsVisited (customers cs) c). exactly c h) (visited cs)
  where
    exactly :
        (c : Candidate)
        → IsVisited (customers cs) c
        → tally (λ j. j == c.customer_id) (customers cs) ≡ 1
    exactly c h = omega (arith, h, customers_once c.customer_id cs)
