-- ===== src/Allocator/Greedy/Census/Exact.antt =====
-- Every candidate of a window has one outcome: `allocate_window` of sampark/allocator/greedy.py,
-- counted over the customers.
use sampark.Base.{
  ℕ, ◌+◌, ◌≤◌, ◌≡◌, refl, sym, ap, ◌∙◌, Bool, true, not, ◌&&◌, List, [], ◌∷◌, ◌++◌, All, tally,
  tally-append, tally-split, tally-split_right, tally-select, select, Option, none, some, ok, arith,
  >>=-eq-ok, ◌==◌, if◌then◌else◌, Bool-cases, inl, inr, nat_eq, ==_iff, ==_refl, ok_first,
  ok_first_of_three,
}
use sampark.Base.Dict.{Dict}
use sampark.Base.Sort.{tally-sorted}
use sampark.Allocator.Candidate.{Candidate}
use sampark.Allocator.Scoring.{ScoreBreakdown}
use sampark.Allocator.Outcomes.{AllocationOutcome}
use sampark.Budget.Ledger.{Ledger}
use sampark.Allocator.Greedy.{
  Settings, Admission, Attempts, Winner, by_risk_id, admit, attempt, candidates_of, customers,
}
use sampark.Allocator.Greedy.Window.{
  winner_outcome, put_off, is_winner, rank, allocate_customer, allocate_customers, allocate_window,
}
use sampark.Allocator.Greedy.Winners.{Owns, attempt-WinnerOf}
use sampark.Allocator.Greedy.Customers.{customers_all}
use sampark.Allocator.Greedy.Census.{
  census, ranked_census, has_risk_id, census-admit, census-rank, census-put_off,
}

-- No two candidates are about the same risk item.
abbrev pub HasDistinctRisks : List Candidate → Type 0
HasDistinctRisks cs = (r : ℕ) → tally (has_risk_id r) cs ≤ 1

abbrev IsCounted : {F : Type 0} → List (F × Candidate) → Candidate → Type 0
IsCounted xs c = (q : Candidate → Bool) → q c ≡ true → 1 ≤ ranked_census q xs

all-IsCounted :
    {F : Type 0} (ys xs : List (F × Candidate))
    → ((q : Candidate → Bool) → ranked_census q xs ≤ ranked_census q ys)
    → Owns F (IsCounted ys) xs
all-IsCounted ys [] within = tt
all-IsCounted ys (x ∷ xs) within =
    (λ q e. ground (arith, within q, e), all-IsCounted ys xs (λ q. ground (arith, within q)))

module _ {F : Type 0} (s : Settings F) (p : Candidate → Bool) where
  -- A winner takes the place of the one ranked candidate that is not a loser.
  census-winner :
      (winner : Option (Winner F)) (ranked : List (F × Candidate))
      → ((w : Winner F) → winner ≡ some w → IsCounted ranked w.candidate)
      → ((r : ℕ) → ranked_census (has_risk_id r) ranked ≤ 1)
      → census p (winner_outcome winner)
          + ranked_census (λ c. not (is_winner winner c) && p c) ranked
        ≡ ranked_census p ranked
  unfolding winner_outcome is_winner
  census-winner none ranked counted distinct = omega arith
  census-winner (some w) ranked counted distinct =
      let r = w.candidate.risk_item.risk_id in
      let its : F × Candidate → Bool = λ x. has_risk_id r x.1 in
      let passes : F × Candidate → Bool = λ x. p x.1 in
      let itself : has_risk_id r w.candidate ≡ true = ==_refl r in
      elim (Bool-cases (p w.candidate)) [
        | inl e ↦
            let there = counted w refl (λ c. has_risk_id r c && p c) (ground arith) in
            rw e (
              omega (
                arith,
                tally-split passes its ranked,
                tally-split_right passes its ranked,
                distinct r,
                there,
              ))
        | inr e ↦
            let there = counted w refl (λ c. has_risk_id r c && not (p c)) (ground arith) in
            rw e (
              omega (
                arith,
                tally-split passes its ranked,
                tally-split_right passes its ranked,
                distinct r,
                there,
              ))
      ]

  census-append :
      (xs ys : List (AllocationOutcome F)) → census p (xs ++ ys) ≡ census p xs + census p ys
  census-append xs ys = tally-append (λ (o : AllocationOutcome F). p o.candidate) xs ys

  census-allocate_customer :
      (cs : List Candidate) (scores scores' : Dict ℕ (ScoreBreakdown F)) (l l' : Ledger)
      (outcomes : List (AllocationOutcome F))
      → HasDistinctRisks cs
      → allocate_customer s cs scores l ≡ ok (outcomes, scores', l')
      → census p outcomes ≡ tally p cs
  unfolding allocate_customer
  census-allocate_customer cs scores scores' l l' outcomes distinct e =
      let start : Admission F = record {
        ledger = l;
        outcomes = [];
        scores = scores;
        admitted = [];
      } in
      let (a, admitted, rest) = >>=-eq-ok (admit s start cs) _ e in
      let ranked = rank s a.admitted in
      let first : Attempts F = record {
        ledger = a.ledger;
        winner = none;
        attempted_denials = [];
      } in
      let (t, attempted, tail) = >>=-eq-ok (attempt s a.scores first ranked) _ rest in
      let ((losers, final), put, done) = >>=-eq-ok (put_off a.scores t t.ledger ranked) _ tail in
      let counts = λ (q : Candidate → Bool). census-admit s q start a cs admitted in
      let same = λ (q : Candidate → Bool). census-rank s q a.admitted in
      let once : (r : ℕ) → ranked_census (has_risk_id r) ranked ≤ 1 =
        λ r. omega (arith, counts (has_risk_id r), same (has_risk_id r), distinct r) in
      let counted =
        attempt-WinnerOf s (IsCounted ranked) a.scores first t ranked
          (all-IsCounted ranked ranked (λ q. omega arith)) refl attempted in
      ap (census p) (
        sym (
          ok_first_of_three (a.outcomes ++ winner_outcome t.winner ++ losers) outcomes a.scores
            scores' final l' done))
      ∙ omega (
        arith,
        census-append (a.outcomes ++ winner_outcome t.winner) losers,
        census-append a.outcomes (winner_outcome t.winner),
        census-put_off s p a.scores t t.ledger final ranked losers put,
        census-winner t.winner ranked counted once,
        counts p,
        same p,
      )

-- The candidates of each of the customers that pass the test.
unfoldable pub share : (Candidate → Bool) → List ℕ → List Candidate → ℕ
share p [] cs = 0
share p (k ∷ ks) cs = tally (λ c. c.customer_id == k && p c) cs + share p ks cs

share_nil : (p : Candidate → Bool) (ks : List ℕ) → share p ks [] ≡ 0
unfolding share
share_nil p [] = refl
share_nil p (k ∷ ks) = omega (arith, share_nil p ks)

share_cons :
    (p : Candidate → Bool) (ks : List ℕ) (c : Candidate) (cs : List Candidate)
    → share p ks (c ∷ cs) ≡ (if p c then tally (λ j. j == c.customer_id) ks else 0) + share p ks cs
unfolding share
share_cons p [] c cs = ground arith
share_cons p (k ∷ ks) c cs =
    ground (arith, share_cons p ks c cs, ==_iff c.customer_id k, ==_iff k c.customer_id)

pub share_exact :
    (p : Candidate → Bool) (ks : List ℕ) (cs : List Candidate)
    → All (λ (c : Candidate). tally (λ j. j == c.customer_id) ks ≡ 1) cs
    → share p ks cs ≡ tally p cs
share_exact p ks [] h = omega (arith, share_nil p ks)
share_exact p ks (c ∷ cs) h = ground (arith, share_cons p ks c cs, share_exact p ks cs h.1, h.0)

pub tally-candidates_of :
    (p : Candidate → Bool) (k : ℕ) (cs : List Candidate)
    → tally p (candidates_of k cs) ≡ tally (λ c. c.customer_id == k && p c) cs
unfolding candidates_of
tally-candidates_of p k cs = omega (
  arith,
  tally-sorted by_risk_id p (select (λ c. c.customer_id == k) cs),
  tally-select p (λ c. c.customer_id == k) cs,
)

candidates_of-HasDistinctRisks :
    (k : ℕ) (cs : List Candidate) → HasDistinctRisks cs → HasDistinctRisks (candidates_of k cs)
candidates_of-HasDistinctRisks k cs distinct = λ r. omega (
  arith,
  tally-candidates_of (has_risk_id r) k cs,
  tally-split (has_risk_id r) (λ c. c.customer_id == k) cs,
  distinct r,
)

module _ {F : Type 0} (s : Settings F) (p : Candidate → Bool) where
  census-allocate_customers :
      (cs : List Candidate) (ks : List ℕ) (scores : Dict ℕ (ScoreBreakdown F)) (l l' : Ledger)
      (outcomes : List (AllocationOutcome F))
      → HasDistinctRisks cs
      → allocate_customers s cs ks scores l ≡ ok (outcomes, l')
      → census p outcomes ≡ share p ks cs
  unfolding allocate_customers share
  census-allocate_customers cs [] scores l l' outcomes distinct e =
      ap (census p) (sym (ok_first [] outcomes l l' e))
  census-allocate_customers cs (k ∷ ks) scores l l' outcomes distinct e =
      let ((first, scores', m), went, rest) =
        >>=-eq-ok (allocate_customer s (candidates_of k cs) scores l) _ e in
      let ((others, final), then_, done) =
        >>=-eq-ok (allocate_customers s cs ks scores' m) _ rest in
      ap (census p) (sym (ok_first (first ++ others) outcomes final l' done))
      ∙ omega (
        arith,
        tally-append (λ (o : AllocationOutcome F). p o.candidate) first others,
        census-allocate_customer s p (candidates_of k cs) scores scores' l m first
            (candidates_of-HasDistinctRisks k cs distinct) went,
        tally-candidates_of p k cs,
        census-allocate_customers cs ks scores' m final others distinct then_,
      )

  -- When no two candidates of a window are about one risk item and allocate_window returns, every
  -- candidate has exactly one outcome and no other candidate has any: whatever test is asked, as
  -- many outcomes are about a candidate that passes it as there are candidates that pass it.
  pub allocate_window_exact :
      (cs : List Candidate) (l l' : Ledger) (outcomes : List (AllocationOutcome F))
      → HasDistinctRisks cs
      → allocate_window s cs l ≡ ok (outcomes, l')
      → census p outcomes ≡ tally p cs
  unfolding allocate_window
  allocate_window_exact cs l l' outcomes distinct e =
      census-allocate_customers cs (customers cs) [] l l' outcomes distinct e
      ∙ share_exact p (customers cs) cs (customers_all cs)
