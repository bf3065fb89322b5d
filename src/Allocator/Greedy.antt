-- ===== src/Allocator/Greedy.antt =====
-- sampark/allocator/greedy.py: one window's hard-admissible candidates, customer by customer.
pub mod Window
pub mod Customers
pub mod Winners
pub mod Grants
pub mod Census
pub mod Exclusivity
pub mod History
use sampark.Base.{
  ℕ, ◌+◌, ◌*◌, ◌/◌, Bool, true, false, not, ◌&&◌, List, [], ◌∷◌, ◌++◌, map, Option, none, some,
  Result, ok, err, key_error, or_raise, select, contains, ltb, leb, ◌==◌, if◌then◌else◌, ◌>>=◌,
  nat_eq,
}
use sampark.Base.Int.{ℤ, leb_ℤ}
use sampark.Base.Dict.{Dict, lookup, lookup_or, insert}
use sampark.Base.Sort.{sorted}
use sampark.Contracts.{
  Instant, Grant, RiskItem, ReasonCode, negative_expected_net, lost_to_higher_expected_net,
  merchant_margin_exhausted, customer_margin_exhausted,
}
use sampark.Allocator.Candidate.{Candidate}
use sampark.Allocator.Scoring.{Floats, ScoreBreakdown, Scorer, priority}
use sampark.Allocator.Outcomes.{AllocationOutcome, granted, denial, deferred_or_denied}
use sampark.Budget.Windows.{next_window_start}
use sampark.Budget.Margin.{downgrade_to_fit}
use sampark.Budget.Ledger.{
  Ledger, contacts_made, open_candidates_for_customer, mark_terminally_denied,
}
use sampark.Budget.Pools.{remaining_margin_paise}
use sampark.Budget.Issuance.{IssuanceResult, grant_issued, budget_denial}

-- `GrantIssuer.issue_grant`, with the ledger as the connection.
abbrev pub GrantIssuer : Type 0
GrantIssuer = Ledger → Candidate → ℕ → Instant → Result (IssuanceResult × Ledger)

-- The settings of a call of `allocate_window`.
pub record Settings (F : Type 0) : Type 0 where
  pub floats : Floats F
  pub scorer : Scorer F
  pub issuer : GrantIssuer
  pub decision_at : Instant
  pub aging_bonus_paise : ℕ
  pub fifo_mode : Bool
  pub gaps : Dict ℕ (List ReasonCode)

-- `_fifo_key`: does `a` sort strictly before `b`?
unfoldable pub fifo_before : Candidate → Candidate → Bool
fifo_before a b =
    if a.risk_item.detected_at == b.risk_item.detected_at
    then (if a.risk_item.risk_id == b.risk_item.risk_id
        then ltb a.request.agent_id b.request.agent_id
        else ltb a.risk_item.risk_id b.risk_item.risk_id)
    else ltb a.risk_item.detected_at b.risk_item.detected_at

-- A customer's candidates are sorted by risk id.
abbrev pub by_risk_id : Candidate → Candidate → Bool
by_risk_id a b = ltb a.risk_item.risk_id b.risk_item.risk_id

-- `sorted(by_customer)`: the customers in order, each once.
unfoldable pub insert_once : ℕ → List ℕ → List ℕ
insert_once a [] = a ∷ []
insert_once a (x ∷ xs) =
    let rest = insert_once a xs in
    if x == a then x ∷ xs else if ltb a x then a ∷ x ∷ xs else x ∷ rest

unfoldable pub customers : List Candidate → List ℕ
unfolding insert_once
customers [] = []
customers (c ∷ cs) = insert_once c.customer_id (customers cs)

unfoldable pub candidates_of : ℕ → List Candidate → List Candidate
unfolding sorted
candidates_of customer_id cs = sorted by_risk_id (select (λ c. c.customer_id == customer_id) cs)

-- The state of the admission loop: the ledger, the outcomes, the scores by risk id, the admitted.
pub record Admission (F : Type 0) : Type 0 where
  pub ledger : Ledger
  pub outcomes : List (AllocationOutcome F)
  pub scores : Dict ℕ (ScoreBreakdown F)
  pub admitted : List (F × Candidate)

pub record Winner (F : Type 0) : Type 0 where
  pub candidate : Candidate
  pub grant : Grant
  pub effective_bps : ℕ
  pub score : ScoreBreakdown F

-- The state of the attempt loop: the ledger, the winner and the denials by risk id.
pub record Attempts (F : Type 0) : Type 0 where
  pub ledger : Ledger
  pub winner : Option (Winner F)
  pub attempted_denials : Dict ℕ (ReasonCode × Instant)

or_next : Option Instant → Instant → Instant
or_next none next = next
or_next (some t) next = t

module _ {F : Type 0} (s : Settings F) where
  -- `_tie_break_key`: does `a` sort strictly before `b`? Higher priority and amount come first.
  unfoldable pub tie_break_before : F × Candidate → F × Candidate → Bool
  unfolding priority fifo_before
  tie_break_before (x, a) (y, b) =
      let p = priority s.floats x a.windows_deferred s.aging_bonus_paise in
      let q = priority s.floats y b.windows_deferred s.aging_bonus_paise in
      if s.floats.eq p q
      then (if a.risk_item.amount_paise == b.risk_item.amount_paise
          then fifo_before a b
          else ltb b.risk_item.amount_paise a.risk_item.amount_paise)
      else s.floats.lt q p

  unfoldable pub score_now : Ledger → Candidate → ℕ → Result (ScoreBreakdown F)
  score_now l c bps = do
    n ← contacts_made l c.customer_id s.decision_at
    other_open ← open_candidates_for_customer l c.customer_id s.decision_at c.risk_item.risk_id
    s.scorer c bps n (map (λ item. item.amount_paise) other_open)

  unfoldable pub admit_one : Admission F → Candidate → ScoreBreakdown F → Admission F
  unfolding insert lookup_or denial mark_terminally_denied
  admit_one a c score =
      let scores = insert c.risk_item.risk_id score a.scores in
      if s.floats.is_nonpos score.expected_net_paise && not s.fifo_mode
      then record {
        ledger = mark_terminally_denied a.ledger c.risk_item.risk_id;
        outcomes =
            a.outcomes
            ++ denial F c negative_expected_net (lookup_or [] c.risk_item.risk_id s.gaps)
                (some score)
              ∷ [];
        scores = scores;
        admitted = a.admitted;
      }
      else record {
        ledger = a.ledger;
        outcomes = a.outcomes;
        scores = scores;
        admitted = a.admitted ++ (score.expected_net_paise, c) ∷ [];
      }

  unfoldable pub admit : Admission F → List Candidate → Result (Admission F)
  unfolding admit_one score_now
  admit a [] = ok a
  admit a (c ∷ cs) = do
    score ← score_now a.ledger c c.request.requested_max_incentive_bps
    admit (admit_one a c score) cs

  -- What the issuer's answer makes of the loop: a grant ends it.
  unfoldable pub after_issue :
      (Attempts F → Result (Attempts F))
      → Candidate
      → ℕ
      → ScoreBreakdown F
      → Dict ℕ (ReasonCode × Instant)
      → IssuanceResult × Ledger
      → Result (Attempts F)
  unfolding or_next insert
  after_issue rest c bps score denials (grant_issued grant, l) = ok (record {
    ledger = l;
    winner = some (record { candidate = c; grant = grant; effective_bps = bps; score = score });
    attempted_denials = denials;
  })
  after_issue rest c bps score denials (budget_denial reason next, l) = rest (record {
    ledger = l;
    winner = none;
    attempted_denials =
        insert c.risk_item.risk_id (reason, or_next next (next_window_start c.window_id)) denials;
  })

  -- `(ceiling * 10_000) // amount`, or 0 for an amount of 0.
  unfoldable pub downgraded_bps : ℕ → ℕ → ℕ
  downgraded_bps ceiling amount = if amount == 0 then 0 else ceiling * 10_000 / amount

  unfoldable pub try_issue :
      (Attempts F → Result (Attempts F))
      → Candidate
      → ℕ
      → ScoreBreakdown F
      → Dict ℕ (ReasonCode × Instant)
      → Ledger
      → Result (Attempts F)
  unfolding after_issue
  try_issue go_on c bps score denials l =
      s.issuer l c bps s.decision_at >>= after_issue go_on c bps score denials

  -- A downgraded candidate is attempted at its lower incentive if it still is worth it.
  unfoldable pub try_downgraded :
      (Attempts F → Result (Attempts F))
      → Candidate
      → ℕ
      → ScoreBreakdown F
      → Dict ℕ (ReasonCode × Instant)
      → ReasonCode
      → Ledger
      → Result (Attempts F)
  unfolding try_issue insert
  try_downgraded go_on c bps score denials reason l =
      if s.floats.is_nonpos score.expected_net_paise
      then go_on (record {
        ledger = l;
        winner = none;
        attempted_denials =
            insert c.risk_item.risk_id (reason, next_window_start c.window_id) denials;
      })
      else try_issue go_on c bps score denials l

  -- One round of the loop, where `go_on` is the rounds that remain.
  unfoldable pub attempt_one :
      (Attempts F → Result (Attempts F))
      → Candidate
      → ScoreBreakdown F
      → Attempts F
      → Result (Attempts F)
  unfolding try_issue try_downgraded downgraded_bps score_now remaining_margin_paise
      downgrade_to_fit
  attempt_one go_on c admitted_score t =
      let ((merchant_remaining, customer_remaining), l) =
        remaining_margin_paise t.ledger c.customer_id c.window_id in
      let ceiling =
        downgrade_to_fit c.requested_incentive_ceiling_paise merchant_remaining
          customer_remaining in
      let bps = downgraded_bps ceiling c.risk_item.amount_paise in
      let reason =
        if leb_ℤ merchant_remaining customer_remaining
        then merchant_margin_exhausted
        else customer_margin_exhausted in
      if ltb ceiling c.requested_incentive_ceiling_paise
      then (score_now l c bps >>= λ (score : ScoreBreakdown F).
          try_downgraded go_on c bps score t.attempted_denials reason l)
      else try_issue go_on c c.request.requested_max_incentive_bps admitted_score
          t.attempted_denials l

  unfoldable pub attempt :
      Dict ℕ (ScoreBreakdown F) → Attempts F → List (F × Candidate) → Result (Attempts F)
  unfolding attempt_one lookup
  attempt scores t [] = ok t
  attempt scores t ((value, c) ∷ rest) =
      or_raise (lookup c.risk_item.risk_id scores) key_error >>= λ (score : ScoreBreakdown F).
      attempt_one (λ t'. attempt scores t' rest) c score t
