-- ===== src/Allocator/Greedy/Grants.antt =====
-- The candidates that `allocate_window` (sampark/allocator/greedy.py) grants, and any property of the
-- candidates that go into it.
use sampark.Base.{
  ok_first, ok_first_of_three, ok_injective, ℕ, ◌≡◌, refl, subst, not, ◌&&◌, List, [], ◌∷◌, ◌++◌,
  All, All-append, select, Option, none, some, Result, ok, arith, key_error, or_raise, >>=-eq-ok,
  ◌==◌, Bool-cases, inl, inr, nat_eq,
}
use sampark.Base.Dict.{Dict, lookup, lookup_or}
use sampark.Base.Sort.{All-sorted}
use sampark.Contracts.{Instant, ReasonCode, negative_expected_net}
use sampark.Allocator.Candidate.{Candidate}
use sampark.Allocator.Scoring.{ScoreBreakdown}
use sampark.Allocator.Outcomes.{granted, AllocationOutcome, denial, deferred_or_denied}
use sampark.Budget.Ledger.{Ledger}
use sampark.Allocator.Greedy.{
  Settings, Admission, Winner, Attempts, by_risk_id, admit_one, admit, score_now, attempt,
  candidates_of, customers,
}
use sampark.Allocator.Greedy.Window.{
  winner_outcome, put_off, loss_of, is_winner, rank, allocate_customer, allocate_customers,
  allocate_window,
}
use sampark.Allocator.Greedy.Winners.{WinnerOf, admit-Owns, rank-Owns, attempt-WinnerOf}

-- Every outcome that is a grant is one of a candidate with the property.
abbrev pub GrantsOnly : {F : Type 0} → (Candidate → Type 0) → List (AllocationOutcome F) → Type 0
GrantsOnly {F} P os = All (λ (o : AllocationOutcome F). o.outcome_kind ≡ granted → P o.candidate) os

pub denial-GrantsOnly :
    (F : Type 0) (P : Candidate → Type 0) (c : Candidate) (reason : ReasonCode)
    (gaps : List ReasonCode) (score : Option (ScoreBreakdown F))
    → GrantsOnly P (denial F c reason gaps score ∷ [])
unfolding denial
denial-GrantsOnly F P c reason gaps score = ((λ e. absurd (ground arith)), tt)

pub deferred_or_denied-GrantsOnly :
    (F : Type 0) (P : Candidate → Type 0) (c : Candidate) (reason : ReasonCode) (at : Instant)
    (l : Ledger) (gaps : List ReasonCode) (score : Option (ScoreBreakdown F))
    → GrantsOnly P ((deferred_or_denied F c reason at l gaps score).0 ∷ [])
unfolding deferred_or_denied denial
deferred_or_denied-GrantsOnly F P c reason at l gaps score = ((λ e. absurd (ground arith)), tt)

pub All-candidates_of :
    (P : Candidate → Type 0) (k : ℕ) (cs : List Candidate) → All P cs → All P (candidates_of k cs)
unfolding candidates_of
All-candidates_of P k cs h = All-sorted by_risk_id P _ (chosen cs h)
  where
    chosen : (cs : List Candidate) → All P cs → All P (select (λ c. c.customer_id == k) cs)
    chosen [] h = tt
    chosen (c ∷ cs) h = elim (Bool-cases (c.customer_id == k)) [
      | inl e ↦ rw e (h.0, chosen cs h.1)
      | inr e ↦ rw e (chosen cs h.1)
    ]

module _ {F : Type 0} (s : Settings F) (P : Candidate → Type 0) where
  abbrev Good : AllocationOutcome F → Type 0
  Good o = o.outcome_kind ≡ granted → P o.candidate

  admit_one-GrantsOnly :
      (a : Admission F) (c : Candidate) (score : ScoreBreakdown F)
      → GrantsOnly P a.outcomes
      → GrantsOnly P (admit_one s a c score).outcomes
  unfolding admit_one
  admit_one-GrantsOnly a c score h =
      let gaps = lookup_or [] c.risk_item.risk_id s.gaps in
      let one = denial-GrantsOnly F P c negative_expected_net gaps (some score) in
      let more =
        All-append Good a.outcomes (denial F c negative_expected_net gaps (some score) ∷ []) h
          one in
      elim (Bool-cases (s.floats.is_nonpos score.expected_net_paise && not s.fifo_mode)) [
        | inl b ↦ rw b more
        | inr b ↦ rw b h
      ]

  admit-GrantsOnly :
      (a a' : Admission F) (cs : List Candidate)
      → GrantsOnly P a.outcomes
      → admit s a cs ≡ ok a'
      → GrantsOnly P a'.outcomes
  unfolding admit
  admit-GrantsOnly a a' [] h e =
      subst (λ (b : Admission F). GrantsOnly P b.outcomes) (ok_injective e) h
  admit-GrantsOnly a a' (c ∷ cs) h e =
      let (score, _, rest) =
        >>=-eq-ok (score_now s a.ledger c c.request.requested_max_incentive_bps) _ e in
      admit-GrantsOnly (admit_one s a c score) a' cs (admit_one-GrantsOnly a c score h) rest

  put_off-GrantsOnly :
      (scores : Dict ℕ (ScoreBreakdown F)) (t : Attempts F) (l l' : Ledger)
      (ranked : List (F × Candidate)) (outcomes : List (AllocationOutcome F))
      → put_off scores t l ranked ≡ ok (outcomes, l')
      → GrantsOnly P outcomes
  unfolding put_off
  put_off-GrantsOnly scores t l l' [] outcomes =
      λ e. subst (GrantsOnly P) (ok_first [] outcomes l l' e) tt
  put_off-GrantsOnly scores t l l' ((value, c) ∷ rest) outcomes =
      elim (Bool-cases (is_winner t.winner c)) [
        | inl won ↦ rw won (put_off-GrantsOnly scores t l l' rest outcomes)
        | inr lost ↦ rw lost (λ e.
            let (reason, at) = loss_of (lookup c.risk_item.risk_id t.attempted_denials) c in
            let (score, _, scored) =
              >>=-eq-ok (or_raise (lookup c.risk_item.risk_id scores) key_error) _ e in
            let (outcome, after) = deferred_or_denied F c reason at l [] (some score) in
            let ((others, final), went, done) = >>=-eq-ok (put_off scores t after rest) _ scored in
            let first = deferred_or_denied-GrantsOnly F P c reason at l [] (some score) in
            subst (GrantsOnly P) (ok_first (outcome ∷ others) outcomes final l' done)
              (first.0, put_off-GrantsOnly scores t after final rest others went))
      ]

  winner_outcome-GrantsOnly :
      (winner : Option (Winner F))
      → ((w : Winner F) → winner ≡ some w → P w.candidate)
      → GrantsOnly P (winner_outcome winner)
  unfolding winner_outcome
  winner_outcome-GrantsOnly none h = tt
  winner_outcome-GrantsOnly (some w) h = ((λ e. h w refl), tt)

  assembled-GrantsOnly :
      (a : Admission F) (t : Attempts F) (ranked : List (F × Candidate))
      (losers : List (AllocationOutcome F)) (final : Ledger) (outcomes : List (AllocationOutcome F))
      (scores' : Dict ℕ (ScoreBreakdown F)) (l' : Ledger)
      → GrantsOnly P a.outcomes
      → WinnerOf s P t
      → put_off a.scores t t.ledger ranked ≡ ok (losers, final)
      → ◌≡◌ {A = Result (List (AllocationOutcome F) × Dict ℕ (ScoreBreakdown F) × Ledger)}
          (ok (a.outcomes ++ winner_outcome t.winner ++ losers, a.scores, final))
          (ok (outcomes, scores', l'))
      → GrantsOnly P outcomes
  assembled-GrantsOnly a t ranked losers final outcomes scores' l' h won lost e =
      subst (GrantsOnly P) (ok_first_of_three _ outcomes a.scores scores' final l' e) (
        All-append Good (a.outcomes ++ winner_outcome t.winner) losers
          (All-append Good a.outcomes (winner_outcome t.winner) h
            (winner_outcome-GrantsOnly t.winner won))
          (put_off-GrantsOnly a.scores t t.ledger final ranked losers lost))

  allocate_customer-GrantsOnly :
      (cs : List Candidate) (scores scores' : Dict ℕ (ScoreBreakdown F)) (l l' : Ledger)
      (outcomes : List (AllocationOutcome F))
      → All P cs
      → allocate_customer s cs scores l ≡ ok (outcomes, scores', l')
      → GrantsOnly P outcomes
  unfolding allocate_customer
  allocate_customer-GrantsOnly cs scores scores' l l' outcomes all e =
      let (a, admitted, e1) = >>=-eq-ok (admit s _ cs) _ e in
      let ranked = rank s a.admitted in
      let (t, attempted, e2) = >>=-eq-ok (attempt s a.scores _ ranked) _ e1 in
      let ((losers, final), lost, e3) = >>=-eq-ok (put_off a.scores t t.ledger ranked) _ e2 in
      let ours = rank-Owns s P a.admitted (admit-Owns s P _ a cs all tt admitted) in
      let won = attempt-WinnerOf s P a.scores _ t ranked ours refl attempted in
      assembled-GrantsOnly a t ranked losers final outcomes scores' l'
        (admit-GrantsOnly _ a cs tt admitted) won lost e3

  allocate_customers-GrantsOnly :
      (cs : List Candidate) (ks : List ℕ) (scores : Dict ℕ (ScoreBreakdown F)) (l l' : Ledger)
      (outcomes : List (AllocationOutcome F))
      → All P cs
      → allocate_customers s cs ks scores l ≡ ok (outcomes, l')
      → GrantsOnly P outcomes
  unfolding allocate_customers
  allocate_customers-GrantsOnly cs [] scores l l' outcomes all e =
      subst (GrantsOnly P) (ok_first [] outcomes l l' e) tt
  allocate_customers-GrantsOnly cs (k ∷ ks) scores l l' outcomes all e =
      let ((first, scores', m), went, e1) =
        >>=-eq-ok (allocate_customer s (candidates_of k cs) scores l) _ e in
      let ((others, final), went', e2) = >>=-eq-ok (allocate_customers s cs ks scores' m) _ e1 in
      subst (GrantsOnly P) (ok_first (first ++ others) outcomes final l' e2) (
        All-append Good first others
          (allocate_customer-GrantsOnly (candidates_of k cs) scores scores' l m first
            (All-candidates_of P k cs all) went)
          (allocate_customers-GrantsOnly cs ks scores' m final others all went'))

  pub allocate_window-GrantsOnly :
      (cs : List Candidate) (l l' : Ledger) (outcomes : List (AllocationOutcome F))
      → All P cs
      → allocate_window s cs l ≡ ok (outcomes, l')
      → GrantsOnly P outcomes
  unfolding allocate_window
  allocate_window-GrantsOnly cs l l' outcomes =
      allocate_customers-GrantsOnly cs (customers cs) [] l l' outcomes
