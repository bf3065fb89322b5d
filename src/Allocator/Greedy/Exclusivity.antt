-- ===== src/Allocator/Greedy/Exclusivity.antt =====
-- The number of grants that a customer gets from `allocate_window` (sampark/allocator/greedy.py).
use sampark.Base.{
  ok_first, ok_first_of_three, ℕ, ◌≤◌, ◌≡◌, refl, ◌∙◌, subst, Bool, true, false, not, ◌&&◌, List,
  [], ◌∷◌, ◌++◌, All, tally, tally-append, select, Option, none, some, Result, ok, arith, key_error,
  or_raise, >>=-eq-ok, ◌==◌, if◌then◌else◌, Bool-cases, inl, inr, nat_eq, ==_iff,
}
use sampark.Base.Dict.{Dict, lookup, lookup_or}
use sampark.Base.Sort.{All-sorted}
use sampark.Contracts.{Instant, ReasonCode, negative_expected_net}
use sampark.Allocator.Candidate.{Candidate}
use sampark.Allocator.Scoring.{ScoreBreakdown}
use sampark.Allocator.Outcomes.{
  OutcomeKind, granted, denied, deferred, AllocationOutcome, denial, deferred_or_denied,
}
use sampark.Budget.Ledger.{Ledger}
use sampark.Allocator.Greedy.{
  Settings, Admission, Winner, Attempts, by_risk_id, admit_one, admit, score_now, attempt,
  candidates_of, customers,
}
use sampark.Allocator.Greedy.Window.{
  winner_outcome, put_off, loss_of, is_winner, rank, allocate_customer, allocate_customers,
  allocate_window,
}
use sampark.Allocator.Greedy.Winners.{WinnerOf, admit-Owns, rank-Owns, attempt-WinnerOf}
use sampark.Allocator.Greedy.Customers.{customers_once}

abbrev pub is_granted : OutcomeKind → Bool
is_granted granted = true
is_granted denied = false
is_granted deferred = false

-- Is the outcome a grant to the customer?
unfoldable pub is_grant_for : {F : Type 0} → ℕ → AllocationOutcome F → Bool
is_grant_for k o = is_granted o.outcome_kind && o.candidate.customer_id == k

abbrev OwnedBy : ℕ → Candidate → Type 0
OwnedBy j c = c.customer_id ≡ j

deferred_or_denied-grants :
    (F : Type 0) (k : ℕ) (c : Candidate) (reason : ReasonCode) (at : Instant) (l : Ledger)
    (gaps : List ReasonCode) (score : Option (ScoreBreakdown F))
    → is_grant_for k (deferred_or_denied F c reason at l gaps score).0 ≡ false
unfolding deferred_or_denied is_grant_for denial
deferred_or_denied-grants F k c reason at l gaps score = ground arith

append_denial-grants :
    (F : Type 0) (k : ℕ) (xs : List (AllocationOutcome F)) (c : Candidate) (reason : ReasonCode)
    (gaps : List ReasonCode) (score : Option (ScoreBreakdown F))
    → tally (is_grant_for k) (xs ++ denial F c reason gaps score ∷ []) ≡ tally (is_grant_for k) xs
unfolding is_grant_for denial
append_denial-grants F k xs c reason gaps score =
    omega (arith, tally-append (is_grant_for k) xs (denial F c reason gaps score ∷ []))

candidates_of-customer_id :
    (j : ℕ) (cs : List Candidate) → All (λ (c : Candidate). c.customer_id ≡ j) (candidates_of j cs)
unfolding candidates_of
candidates_of-customer_id j cs = All-sorted by_risk_id _ _ (chosen cs)
  where
    chosen :
        (cs : List Candidate)
        → All (λ (c : Candidate). c.customer_id ≡ j) (select (λ c. c.customer_id == j) cs)
    chosen [] = tt
    chosen (c ∷ cs) = ground (arith, chosen cs, ==_iff c.customer_id j)

at_most_append :
    {A : Type 0} (p : A → Bool) (xs ys zs : List A) {n : ℕ}
    → tally p xs ≡ 0
    → tally p ys ≤ n
    → tally p zs ≡ 0
    → tally p (xs ++ ys ++ zs) ≤ n
at_most_append p xs ys zs h k m =
    omega (arith, tally-append p (xs ++ ys) zs, tally-append p xs ys, h, k, m)

module _ {F : Type 0} (s : Settings F) (j k : ℕ) where
  admit_one-grants :
      (a : Admission F) (c : Candidate) (score : ScoreBreakdown F)
      → tally (is_grant_for k) (admit_one s a c score).outcomes ≡ tally (is_grant_for k) a.outcomes
  unfolding admit_one is_grant_for denial
  admit_one-grants a c score =
      elim (Bool-cases (s.floats.is_nonpos score.expected_net_paise && not s.fifo_mode)) [
        | inl b ↦ rw b (
            append_denial-grants F k a.outcomes c negative_expected_net
              (lookup_or [] c.risk_item.risk_id s.gaps) (some score))
        | inr b ↦ rw b refl
      ]

  admit-grants :
      (a a' : Admission F) (cs : List Candidate)
      → admit s a cs ≡ ok a'
      → tally (is_grant_for k) a'.outcomes ≡ tally (is_grant_for k) a.outcomes
  unfolding admit
  admit-grants a a' [] e = ground arith
  admit-grants a a' (c ∷ cs) e =
      let (score, _, rest) =
        >>=-eq-ok (score_now s a.ledger c c.request.requested_max_incentive_bps) _ e in
      admit-grants (admit_one s a c score) a' cs rest ∙ admit_one-grants a c score

  put_off-grants :
      (scores : Dict ℕ (ScoreBreakdown F)) (t : Attempts F) (l l' : Ledger)
      (ranked : List (F × Candidate)) (outcomes : List (AllocationOutcome F))
      → put_off scores t l ranked ≡ ok (outcomes, l')
      → tally (is_grant_for k) outcomes ≡ 0
  unfolding put_off
  put_off-grants scores t l l' [] outcomes = λ e. ground arith
  put_off-grants scores t l l' ((value, c) ∷ rest) outcomes =
      elim (Bool-cases (is_winner t.winner c)) [
        | inl won ↦ rw won (put_off-grants scores t l l' rest outcomes)
        | inr lost ↦ rw lost (λ e.
            let (reason, at) = loss_of (lookup c.risk_item.risk_id t.attempted_denials) c in
            let (score, _, scored) =
              >>=-eq-ok (or_raise (lookup c.risk_item.risk_id scores) key_error) _ e in
            let after = (deferred_or_denied F c reason at l [] (some score)).1 in
            let ((others, final), went, done) = >>=-eq-ok (put_off scores t after rest) _ scored in
            ground (
              arith,
              deferred_or_denied-grants F k c reason at l [] (some score),
              put_off-grants scores t after final rest others went,
            ))
      ]

  winner_outcome-grants :
      (winner : Option (Winner F))
      → ((w : Winner F) → winner ≡ some w → w.candidate.customer_id ≡ j)
      → tally (is_grant_for k) (winner_outcome winner) ≤ (if j == k then 1 else 0)
  unfolding winner_outcome is_grant_for
  winner_outcome-grants none h = omega arith
  winner_outcome-grants (some w) h = ground (arith, h w refl)

  assembled-grants :
      (a : Admission F) (t : Attempts F) (ranked : List (F × Candidate))
      (losers : List (AllocationOutcome F)) (final : Ledger) (outcomes : List (AllocationOutcome F))
      (scores' : Dict ℕ (ScoreBreakdown F)) (l' : Ledger)
      → tally (is_grant_for k) a.outcomes ≡ 0
      → WinnerOf s (OwnedBy j) t
      → put_off a.scores t t.ledger ranked ≡ ok (losers, final)
      → ◌≡◌ {A = Result (List (AllocationOutcome F) × Dict ℕ (ScoreBreakdown F) × Ledger)}
          (ok (a.outcomes ++ winner_outcome t.winner ++ losers, a.scores, final))
          (ok (outcomes, scores', l'))
      → tally (is_grant_for k) outcomes ≤ (if j == k then 1 else 0)
  assembled-grants a t ranked losers final outcomes scores' l' none_granted won lost e =
      subst (λ o. tally (is_grant_for k) o ≤ (if j == k then 1 else 0))
        (ok_first_of_three _ outcomes a.scores scores' final l' e)
        (at_most_append (is_grant_for k) a.outcomes (winner_outcome t.winner) losers none_granted
          (winner_outcome-grants t.winner won)
          (put_off-grants a.scores t t.ledger final ranked losers lost))

  allocate_customer-grants :
      (cs : List Candidate) (scores scores' : Dict ℕ (ScoreBreakdown F)) (l l' : Ledger)
      (outcomes : List (AllocationOutcome F))
      → allocate_customer s (candidates_of j cs) scores l ≡ ok (outcomes, scores', l')
      → tally (is_grant_for k) outcomes ≤ (if j == k then 1 else 0)
  unfolding allocate_customer
  allocate_customer-grants cs scores scores' l l' outcomes e =
      let (a, admitted, e1) = >>=-eq-ok (admit s _ (candidates_of j cs)) _ e in
      let ranked = rank s a.admitted in
      let (t, attempted, e2) = >>=-eq-ok (attempt s a.scores _ ranked) _ e1 in
      let ((losers, final), lost, e3) = >>=-eq-ok (put_off a.scores t t.ledger ranked) _ e2 in
      let none_granted = admit-grants _ a (candidates_of j cs) admitted in
      let owns =
        admit-Owns s (OwnedBy j) _ a (candidates_of j cs) (candidates_of-customer_id j cs) tt
          admitted in
      let ours = rank-Owns s (OwnedBy j) a.admitted owns in
      let won = attempt-WinnerOf s (OwnedBy j) a.scores _ t ranked ours refl attempted in
      assembled-grants a t ranked losers final outcomes scores' l' none_granted won lost e3

module _ {F : Type 0} (s : Settings F) (k : ℕ) where
  allocate_customers-grants :
      (cs : List Candidate) (ks : List ℕ) (scores : Dict ℕ (ScoreBreakdown F)) (l l' : Ledger)
      (outcomes : List (AllocationOutcome F))
      → allocate_customers s cs ks scores l ≡ ok (outcomes, l')
      → tally (is_grant_for k) outcomes ≤ tally (λ j. j == k) ks
  unfolding allocate_customers
  allocate_customers-grants cs [] scores l l' outcomes e = ground arith
  allocate_customers-grants cs (j ∷ js) scores l l' outcomes e =
      let ((first, scores', m), went, e1) =
        >>=-eq-ok (allocate_customer s (candidates_of j cs) scores l) _ e in
      let ((others, final), went', e2) = >>=-eq-ok (allocate_customers s cs js scores' m) _ e1 in
      let same : first ++ others ≡ outcomes = ok_first _ outcomes final l' e2 in
      let here = allocate_customer-grants s j k cs scores scores' l m first went in
      let later = allocate_customers-grants cs js scores' m final others went' in
      subst (λ o. tally (is_grant_for k) o ≤ tally (λ i. i == k) (j ∷ js)) same
        (omega (arith, here, later, tally-append (is_grant_for k) first others))

  -- Whatever the scorer and the issuer answer, a window that is allocated grants a customer at most
  -- one candidate.
  pub allocate_window_exclusive :
      (cs : List Candidate) (l l' : Ledger) (outcomes : List (AllocationOutcome F))
      → allocate_window s cs l ≡ ok (outcomes, l')
      → tally (is_grant_for k) outcomes ≤ 1
  unfolding allocate_window
  allocate_window_exclusive cs l l' outcomes e =
      omega
        (arith, allocate_customers-grants cs (customers cs) [] l l' outcomes e, customers_once k cs)
