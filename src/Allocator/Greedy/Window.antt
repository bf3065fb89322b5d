-- ===== src/Allocator/Greedy/Window.antt =====
-- `allocate_window` of sampark/allocator/greedy.py: the outcomes of a customer, customer by customer.
use sampark.Base.{
  ℕ, Bool, false, List, [], ◌∷◌, ◌++◌, Option, none, some, Result, ok, key_error, or_raise, ◌==◌,
  if◌then◌else◌, ◌>>=◌, nat_eq,
}
use sampark.Base.Dict.{Dict, lookup}
use sampark.Base.Sort.{sorted}
use sampark.Contracts.{Instant, ReasonCode, lost_to_higher_expected_net}
use sampark.Allocator.Candidate.{Candidate}
use sampark.Allocator.Scoring.{ScoreBreakdown}
use sampark.Allocator.Outcomes.{AllocationOutcome, granted, deferred_or_denied}
use sampark.Budget.Windows.{next_window_start}
use sampark.Budget.Ledger.{Ledger}
use sampark.Allocator.Greedy.{
  Settings, Winner, Attempts, fifo_before, customers, candidates_of, tie_break_before, admit,
  attempt,
}

unfoldable pub winner_outcome : {F : Type 0} → Option (Winner F) → List (AllocationOutcome F)
winner_outcome none = []
winner_outcome (some w) =
    record {
      candidate = w.candidate;
      outcome_kind = granted;
      reason_code = none;
      next_eligible_at = none;
      grant = some w.grant;
      fact_unavailable_reason_codes = [];
      score = some w.score;
      rescheduled_candidate = none;
      effective_incentive_bps = some w.effective_bps;
    }
    ∷ []

unfoldable pub is_winner : {F : Type 0} → Option (Winner F) → Candidate → Bool
is_winner none c = false
is_winner (some w) c = c.risk_item.risk_id == w.candidate.risk_item.risk_id

-- Why an admitted candidate that did not win is put off, and until when.
unfoldable pub loss_of : Option (ReasonCode × Instant) → Candidate → ReasonCode × Instant
loss_of (some denial) c = denial
loss_of none c = (lost_to_higher_expected_net, next_window_start c.window_id)

-- The losers of a customer, in the order of the ranking.
unfoldable pub put_off :
    {F : Type 0}
    → Dict ℕ (ScoreBreakdown F)
    → Attempts F
    → Ledger
    → List (F × Candidate)
    → Result (List (AllocationOutcome F) × Ledger)
unfolding is_winner loss_of deferred_or_denied lookup
put_off scores t l [] = ok ([], l)
put_off {F} scores t l ((value, c) ∷ rest) =
    if is_winner t.winner c then put_off scores t l rest else (do
      let (reason, next) = loss_of (lookup c.risk_item.risk_id t.attempted_denials) c
      score ← or_raise (lookup c.risk_item.risk_id scores) key_error
      let (outcome, after) = deferred_or_denied F c reason next l [] (some score)
      (others, final) ← put_off scores t after rest
      ok (outcome ∷ others, final))

module _ {F : Type 0} (s : Settings F) where
  unfoldable pub rank : List (F × Candidate) → List (F × Candidate)
  unfolding sorted tie_break_before fifo_before
  rank admitted =
      if s.fifo_mode
      then sorted (λ (a b : F × Candidate). fifo_before a.1 b.1) admitted
      else sorted (tie_break_before s) admitted

  -- What one customer's candidates add to the outcomes. With none admitted, nothing is attempted.
  unfoldable pub allocate_customer :
      List Candidate
      → Dict ℕ (ScoreBreakdown F)
      → Ledger
      → Result (List (AllocationOutcome F) × Dict ℕ (ScoreBreakdown F) × Ledger)
  unfolding admit rank attempt winner_outcome put_off
  allocate_customer candidates scores l = do
    a ← admit s (record { ledger = l; outcomes = []; scores = scores; admitted = [] }) candidates
    let ranked = rank a.admitted
    t ←
        attempt s a.scores (record { ledger = a.ledger; winner = none; attempted_denials = [] })
          ranked
    (losers, final) ← put_off a.scores t t.ledger ranked
    ok (a.outcomes ++ winner_outcome t.winner ++ losers, a.scores, final)

  unfoldable pub allocate_customers :
      List Candidate
      → List ℕ
      → Dict ℕ (ScoreBreakdown F)
      → Ledger
      → Result (List (AllocationOutcome F) × Ledger)
  unfolding allocate_customer candidates_of
  allocate_customers candidates [] scores l = ok ([], l)
  allocate_customers candidates (k ∷ ks) scores l = do
    (outcomes, scores', l') ← allocate_customer (candidates_of k candidates) scores l
    (others, final) ← allocate_customers candidates ks scores' l'
    ok (outcomes ++ others, final)

  unfoldable pub allocate_window :
      List Candidate → Ledger → Result (List (AllocationOutcome F) × Ledger)
  unfolding allocate_customers customers
  allocate_window candidates l = allocate_customers candidates (customers candidates) [] l
