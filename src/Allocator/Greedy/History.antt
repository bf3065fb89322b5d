-- ===== src/Allocator/Greedy/History.antt =====
-- The calls on the ledger that `allocate_window` (sampark/allocator/greedy.py) makes.
use sampark.Base.{
  ℕ, ◌≡◌, refl, subst, not, ◌&&◌, List, [], ◌∷◌, Option, some, Result, ok, arith, key_error,
  or_raise, >>=-eq-ok, Bool-cases, inl, inr, nat_eq, ltb, leb, ◌+◌,
}
use sampark.Base.Dict.{Dict, lookup, sum_of}
use sampark.Contracts.{Instant, Date, RiskItem, ReasonCode}
use sampark.Allocator.Candidate.{Candidate}
use sampark.Allocator.Scoring.{ScoreBreakdown}
use sampark.Allocator.Outcomes.{AllocationOutcome, max_deferral_windows, deferred_or_denied}
use sampark.Budget.Margin.{downgrade_to_fit}
use sampark.Budget.Ledger.{Ledger, new_ledger}
use sampark.Budget.Pools.{remaining_margin_paise}
use sampark.Budget.Pools.View.{merchant_view, customer_view}
use sampark.Budget.Backing.{Backs, held_in, held_for}
use sampark.Budget.Issuance.{IdScheme, IssuanceResult, grant_issued, budget_denial, issue_grant}
use sampark.Mediation.Lifecycle.History.{
  Step, issues, denies, previews, Reach, here, next, history_backed,
}
use sampark.Allocator.Greedy.{
  Settings, Admission, Attempts, admit_one, admit, score_now, after_issue, try_issue,
  try_downgraded, attempt_one, attempt, candidates_of, customers,
}
use sampark.Allocator.Greedy.Window.{
  put_off, loss_of, is_winner, rank, allocate_customer, allocate_customers, allocate_window,
}

pub same : (ids : IdScheme) {l m : Ledger} → l ≡ m → Reach ids l m
same ids {l} e = subst (Reach ids l) e here

pub one : (ids : IdScheme) {l m : Ledger} → Step ids l m → Reach ids l m
one ids s = next here s

pub Reach-trans : (ids : IdScheme) {l m n : Ledger} → Reach ids l m → Reach ids m n → Reach ids l n
Reach-trans ids r here = r
Reach-trans ids r (next q s) = next (Reach-trans ids r q) s

module _ {F : Type 0} (ids : IdScheme) (s : Settings F) where
  admit_one-Reach :
      (a : Admission F) (c : Candidate) (score : ScoreBreakdown F)
      → Reach ids a.ledger (admit_one s a c score).ledger
  unfolding admit_one
  admit_one-Reach a c score =
      elim (Bool-cases (s.floats.is_nonpos score.expected_net_paise && not s.fifo_mode)) [
        | inl e ↦ rw e (one ids (denies c.risk_item.risk_id refl))
        | inr e ↦ rw e here
      ]

  admit-Reach :
      (a a' : Admission F) (cs : List Candidate)
      → admit s a cs ≡ ok a'
      → Reach ids a.ledger a'.ledger
  unfolding admit
  admit-Reach a a' [] e = same ids (ground arith)
  admit-Reach a a' (c ∷ cs) e =
      let (score, _, rest) =
        >>=-eq-ok (score_now s a.ledger c c.request.requested_max_incentive_bps) _ e in
      Reach-trans ids (admit_one-Reach a c score) (admit-Reach (admit_one s a c score) a' cs rest)

  deferred_or_denied-Reach :
      (c : Candidate) (reason : ReasonCode) (at : Instant) (l : Ledger) (gaps : List ReasonCode)
      (score : Option (ScoreBreakdown F))
      → Reach ids l (deferred_or_denied F c reason at l gaps score).1
  unfolding deferred_or_denied
  deferred_or_denied-Reach c reason at l gaps score =
      elim (Bool-cases (leb max_deferral_windows (c.windows_deferred + 1))) [
        | inl e ↦ rw e (one ids (denies c.risk_item.risk_id refl))
        | inr e ↦ rw e here
      ]

  put_off-Reach :
      (scores : Dict ℕ (ScoreBreakdown F)) (t : Attempts F) (l l' : Ledger)
      (ranked : List (F × Candidate)) (outcomes : List (AllocationOutcome F))
      → put_off scores t l ranked ≡ ok (outcomes, l')
      → Reach ids l l'
  unfolding put_off
  put_off-Reach scores t l l' [] outcomes = λ e. same ids (ground arith)
  put_off-Reach scores t l l' ((value, c) ∷ rest) outcomes =
      elim (Bool-cases (is_winner t.winner c)) [
        | inl won ↦ rw won (put_off-Reach scores t l l' rest outcomes)
        | inr lost ↦ rw lost (λ e.
            let (reason, at) = loss_of (lookup c.risk_item.risk_id t.attempted_denials) c in
            let (score, _, scored) =
              >>=-eq-ok (or_raise (lookup c.risk_item.risk_id scores) key_error) _ e in
            let after = (deferred_or_denied F c reason at l [] (some score)).1 in
            let ((others, final), went, done) = >>=-eq-ok (put_off scores t after rest) _ scored in
            Reach-trans ids (deferred_or_denied-Reach c reason at l [] (some score)) (
              Reach-trans ids (put_off-Reach scores t after final rest others went)
                (same ids (ground arith))))
      ]

  abbrev IsHistory : Type 0
  IsHistory =
      (l : Ledger) (c : Candidate) (bps : ℕ) (res : IssuanceResult) (l' : Ledger)
      → s.issuer l c bps s.decision_at ≡ ok (res, l')
      → Reach ids l l'

  abbrev Continues : (Attempts F → Result (Attempts F)) → Type 0
  Continues go_on = (t t' : Attempts F) → go_on t ≡ ok t' → Reach ids t.ledger t'.ledger

  after_issue-Reach :
      (go_on : Attempts F → Result (Attempts F)) (c : Candidate) (bps : ℕ)
      (score : ScoreBreakdown F) (denials : Dict ℕ (ReasonCode × Instant)) (res : IssuanceResult)
      (l : Ledger) (t' : Attempts F)
      → Continues go_on
      → after_issue s go_on c bps score denials (res, l) ≡ ok t'
      → Reach ids l t'.ledger
  unfolding after_issue
  after_issue-Reach go_on c bps score denials (grant_issued grant) l t' more e =
      same ids (ground arith)
  after_issue-Reach go_on c bps score denials (budget_denial reason at) l t' more e = more _ t' e

  try_issue-Reach :
      (go_on : Attempts F → Result (Attempts F)) (c : Candidate) (bps : ℕ)
      (score : ScoreBreakdown F) (denials : Dict ℕ (ReasonCode × Instant)) (l : Ledger)
      (t' : Attempts F)
      → IsHistory
      → Continues go_on
      → try_issue s go_on c bps score denials l ≡ ok t'
      → Reach ids l t'.ledger
  unfolding try_issue
  try_issue-Reach go_on c bps score denials l t' h more e =
      let ((res, l'), issued, rest) = >>=-eq-ok (s.issuer l c bps s.decision_at) _ e in
      Reach-trans ids (h l c bps res l' issued)
        (after_issue-Reach go_on c bps score denials res l' t' more rest)

  try_downgraded-Reach :
      (go_on : Attempts F → Result (Attempts F)) (c : Candidate) (bps : ℕ)
      (score : ScoreBreakdown F) (denials : Dict ℕ (ReasonCode × Instant)) (reason : ReasonCode)
      (l : Ledger) (t' : Attempts F)
      → IsHistory
      → Continues go_on
      → try_downgraded s go_on c bps score denials reason l ≡ ok t'
      → Reach ids l t'.ledger
  unfolding try_downgraded
  try_downgraded-Reach go_on c bps score denials reason l t' h more =
      elim (Bool-cases (s.floats.is_nonpos score.expected_net_paise)) [
        | inl worthless ↦ rw worthless (more _ t')
        | inr worth ↦ rw worth (try_issue-Reach go_on c bps score denials l t' h more)
      ]

  attempt_one-Reach :
      (go_on : Attempts F → Result (Attempts F)) (c : Candidate) (score : ScoreBreakdown F)
      (t t' : Attempts F)
      → IsHistory
      → Continues go_on
      → attempt_one s go_on c score t ≡ ok t'
      → Reach ids (remaining_margin_paise t.ledger c.customer_id c.window_id).1 t'.ledger
  unfolding attempt_one
  attempt_one-Reach go_on c score t t' h more =
      let ((merchant, customer), l) = remaining_margin_paise t.ledger c.customer_id c.window_id in
      let ceiling = downgrade_to_fit c.requested_incentive_ceiling_paise merchant customer in
      elim (Bool-cases (ltb ceiling c.requested_incentive_ceiling_paise)) [
        | inl less ↦ rw less (λ e.
            let (again, _, rest) = >>=-eq-ok (score_now s l c _) _ e in
            try_downgraded-Reach go_on c _ again _ _ l t' h more rest)
        | inr enough ↦ rw enough (try_issue-Reach go_on c _ score _ l t' h more)
      ]

  attempt-Reach :
      (scores : Dict ℕ (ScoreBreakdown F)) (t t' : Attempts F) (ranked : List (F × Candidate))
      → IsHistory
      → attempt s scores t ranked ≡ ok t'
      → Reach ids t.ledger t'.ledger
  unfolding attempt
  attempt-Reach scores t t' [] h e = same ids (ground arith)
  attempt-Reach scores t t' ((value, c) ∷ rest) h e =
      let (score, _, went) =
        >>=-eq-ok (or_raise (lookup c.risk_item.risk_id scores) key_error) _ e in
      Reach-trans ids (one ids (previews c.customer_id c.window_id refl)) (
        attempt_one-Reach (λ t''. attempt s scores t'' rest) c score t t' h
          (λ u u' e'. attempt-Reach scores u u' rest h e') went)

  allocate_customer-Reach :
      (cs : List Candidate) (scores scores' : Dict ℕ (ScoreBreakdown F)) (l l' : Ledger)
      (outcomes : List (AllocationOutcome F))
      → IsHistory
      → allocate_customer s cs scores l ≡ ok (outcomes, scores', l')
      → Reach ids l l'
  unfolding allocate_customer
  allocate_customer-Reach cs scores scores' l l' outcomes h e =
      let (a, admitted, e1) = >>=-eq-ok (admit s _ cs) _ e in
      let ranked = rank s a.admitted in
      let (t, attempted, e2) = >>=-eq-ok (attempt s a.scores _ ranked) _ e1 in
      let ((losers, final), lost, e3) = >>=-eq-ok (put_off a.scores t t.ledger ranked) _ e2 in
      Reach-trans ids (admit-Reach _ a cs admitted) (
        Reach-trans ids (attempt-Reach a.scores _ t ranked h attempted) (
          Reach-trans ids (put_off-Reach a.scores t t.ledger final ranked losers lost)
            (same ids (ground arith))))

  allocate_customers-Reach :
      (cs : List Candidate) (ks : List ℕ) (scores : Dict ℕ (ScoreBreakdown F)) (l l' : Ledger)
      (outcomes : List (AllocationOutcome F))
      → IsHistory
      → allocate_customers s cs ks scores l ≡ ok (outcomes, l')
      → Reach ids l l'
  unfolding allocate_customers
  allocate_customers-Reach cs [] scores l l' outcomes h e = same ids (ground arith)
  allocate_customers-Reach cs (k ∷ ks) scores l l' outcomes h e =
      let ((first, scores', m), went, e1) =
        >>=-eq-ok (allocate_customer s (candidates_of k cs) scores l) _ e in
      let ((others, final), went', e2) = >>=-eq-ok (allocate_customers s cs ks scores' m) _ e1 in
      Reach-trans ids (allocate_customer-Reach (candidates_of k cs) scores scores' l m first h went)
        (Reach-trans ids (allocate_customers-Reach cs ks scores' m final others h went')
          (same ids (ground arith)))

-- With the in-memory issuer, a call of allocate_window that returns does to the ledger what some
-- history of issues, terminal denials and margin previews does.
pub allocate_window-Reach :
    {F : Type 0} (ids : IdScheme) (s : Settings F) (cs : List Candidate) (l l' : Ledger)
    (outcomes : List (AllocationOutcome F))
    → allocate_window (record s { issuer = issue_grant ids }) cs l ≡ ok (outcomes, l')
    → Reach ids l l'
unfolding allocate_window
allocate_window-Reach ids s cs l l' outcomes =
    allocate_customers-Reach ids (record s { issuer = issue_grant ids }) cs (customers cs) [] l l'
      outcomes (λ m c bps res m' e. one ids (issues c bps s.decision_at res e))

-- A window that is allocated by the in-memory issuer after any history on a new ledger leaves every
-- merchant pool and every customer pool with reservations equal to the ceilings of the grants that
-- still hold one, and with reserved plus spent within the budget.
pub allocate_window_backed :
    {F : Type 0} (ids : IdScheme) (s : Settings F) (cs : List Candidate)
    (items : Dict ℕ (List RiskItem)) (merchant budget : ℕ) (l l' : Ledger)
    (outcomes : List (AllocationOutcome F))
    → Reach ids (new_ledger items merchant budget) l
    → allocate_window (record s { issuer = issue_grant ids }) cs l ≡ ok (outcomes, l')
    → ((w : Date) → Backs (sum_of (held_in w) l'.grants_by_request_id) (merchant_view l' w))
      × ((c : ℕ) (w : Date)
          → Backs (sum_of (held_for c w) l'.grants_by_request_id) (customer_view l' c w))
allocate_window_backed ids s cs items merchant budget l l' outcomes before e =
    history_backed ids items merchant budget l'
      (Reach-trans ids before (allocate_window-Reach ids s cs l l' outcomes e))
