-- ===== src/Allocator/Greedy/Census.antt =====
-- The candidates of the outcomes of `allocate_window` (sampark/allocator/greedy.py), counted.
pub mod Exact
use sampark.Base.{
  ℕ, ◌+◌, ◌*◌, ◌≤◌, ◌≡◌, refl, sym, ap, subst, ◌∙◌, ◌⊎◌, inl, inr, Bool, true, false, not, ◌&&◌,
  List, [], ◌∷◌, ◌++◌, All, All-map, tally, tally-append, select, Option, none, some, Result, ok,
  err, arith, key_error, or_raise, ◌>>=◌, >>=-eq-ok, ◌==◌, if◌then◌else◌, Bool-cases, nat_eq,
  ==_iff, ok_first, ok_first_of_three, ok_injective,
}
use sampark.Base.Dict.{Dict, lookup, lookup_or}
use sampark.Base.Sort.{sorted, tally-sorted}
use sampark.Contracts.{Instant, ReasonCode, negative_expected_net}
use sampark.Allocator.Candidate.{Candidate}
use sampark.Allocator.Scoring.{ScoreBreakdown}
use sampark.Allocator.Outcomes.{AllocationOutcome, denial, deferred_or_denied}
use sampark.Budget.Ledger.{Ledger}
use sampark.Allocator.Greedy.{
  Settings, Admission, Winner, Attempts, by_risk_id, admit_one, admit, score_now, attempt,
  candidates_of, customers,
}
use sampark.Allocator.Greedy.Window.{
  winner_outcome, put_off, loss_of, is_winner, rank, allocate_customer, allocate_customers,
  allocate_window,
}
use sampark.Allocator.Greedy.Winners.{WinnerOf, attempt-WinnerOf}
use sampark.Allocator.Greedy.Customers.{customers_all}

-- How many outcomes are about a candidate that passes the test.
abbrev pub census : {F : Type 0} → (Candidate → Bool) → List (AllocationOutcome F) → ℕ
census {F} p os = tally (λ (o : AllocationOutcome F). p o.candidate) os

abbrev pub ranked_census : {F : Type 0} → (Candidate → Bool) → List (F × Candidate) → ℕ
ranked_census {F} p xs = tally (λ (x : F × Candidate). p x.1) xs

abbrev pub has_risk_id : ℕ → Candidate → Bool
has_risk_id r c = c.risk_item.risk_id == r

pub candidate-deferred_or_denied :
    (F : Type 0) (p : Candidate → Bool) (c : Candidate) (reason : ReasonCode) (at : Instant)
    (l : Ledger) (gaps : List ReasonCode) (score : Option (ScoreBreakdown F))
    → (deferred_or_denied F c reason at l gaps score).0.candidate ≡ c
unfolding deferred_or_denied denial
candidate-deferred_or_denied F p c reason at l gaps score = ground arith

module _ {F : Type 0} (s : Settings F) (p : Candidate → Bool) where
  census-admit_one :
      (a : Admission F) (c : Candidate) (score : ScoreBreakdown F)
      → census p (admit_one s a c score).outcomes + ranked_census p (admit_one s a c score).admitted
        ≡ (if p c then 1 else 0) + (census p a.outcomes + ranked_census p a.admitted)
  unfolding admit_one denial
  census-admit_one a c score =
      elim (Bool-cases (s.floats.is_nonpos score.expected_net_paise && not s.fifo_mode)) [
        | inl b ↦
            rw b (
              omega (arith, tally-append (λ (o : AllocationOutcome F). p o.candidate) a.outcomes _))
        | inr b ↦ rw b (
            omega (
              arith,
              tally-append (λ (x : F × Candidate). p x.1) a.admitted
                  ((score.expected_net_paise, c) ∷ []),
            ))
      ]

  pub census-admit :
      (a a' : Admission F) (cs : List Candidate)
      → admit s a cs ≡ ok a'
      → census p a'.outcomes + ranked_census p a'.admitted
        ≡ tally p cs + (census p a.outcomes + ranked_census p a.admitted)
  unfolding admit
  census-admit a a' [] e = omega (
    arith,
    ap (λ (b : Admission F). census p b.outcomes + ranked_census p b.admitted)
        (sym (ok_injective e)),
  )
  census-admit a a' (c ∷ cs) e =
      let (score, _, rest) =
        >>=-eq-ok (score_now s a.ledger c c.request.requested_max_incentive_bps) _ e in
      omega (arith, census-admit (admit_one s a c score) a' cs rest, census-admit_one a c score)

  pub census-rank : (xs : List (F × Candidate)) → ranked_census p (rank s xs) ≡ ranked_census p xs
  unfolding rank
  census-rank xs = elim (Bool-cases s.fifo_mode) [
    | inl e ↦ rw e (tally-sorted _ (λ (x : F × Candidate). p x.1) xs)
    | inr e ↦ rw e (tally-sorted _ (λ (x : F × Candidate). p x.1) xs)
  ]

  -- The losers are the ranked candidates that did not win.
  pub census-put_off :
      (scores : Dict ℕ (ScoreBreakdown F)) (t : Attempts F) (l l' : Ledger)
      (ranked : List (F × Candidate)) (outcomes : List (AllocationOutcome F))
      → put_off scores t l ranked ≡ ok (outcomes, l')
      → census p outcomes ≡ ranked_census (λ c. not (is_winner t.winner c) && p c) ranked
  unfolding put_off
  census-put_off scores t l l' [] outcomes = λ e. ap (census p) (sym (ok_first [] outcomes l l' e))
  census-put_off scores t l l' ((value, c) ∷ rest) outcomes =
      elim (Bool-cases (is_winner t.winner c)) [
        | inl won ↦ rw won (λ e. omega (arith, census-put_off scores t l l' rest outcomes e))
        | inr lost ↦ rw lost (λ e.
            let (reason, at) = loss_of (lookup c.risk_item.risk_id t.attempted_denials) c in
            let (score, _, scored) =
              >>=-eq-ok (or_raise (lookup c.risk_item.risk_id scores) key_error) _ e in
            let (outcome, after) = deferred_or_denied F c reason at l [] (some score) in
            let ((others, final), went, done) = >>=-eq-ok (put_off scores t after rest) _ scored in
            let about : outcome.candidate ≡ c =
              candidate-deferred_or_denied F p c reason at l [] (some score) in
            ap (census p) (sym (ok_first (outcome ∷ others) outcomes final l' done))
            ∙ rw about (omega (arith, census-put_off scores t after final rest others went)))
      ]
