-- ===== src/Mediation/HardFilter.antt =====
-- sampark/mediation/hard_filter.py: the hard rules in front of the allocator.
pub mod Survivors
pub mod Census
pub mod Kept
use sampark.Base.{ℕ, List, [], ◌∷◌, ◌++◌, none, some, Result, ok, err, ◌>>=◌, nat_eq}
use sampark.Base.Dict.{Dict, insert}
use sampark.Contracts.{Instant, ReasonCode}
use sampark.Allocator.Candidate.{Candidate}
use sampark.Allocator.Outcomes.{AllocationOutcome, denial, deferred_or_denied}
use sampark.Allocator.Greedy.{Settings, candidates_of, customers}
use sampark.Allocator.Greedy.Window.{allocate_window}
use sampark.Budget.Ledger.{Ledger, mark_terminally_denied}
use sampark.Policy.Verdict.{
  HardVerdict, admissible, deny, defer, fact_unavailable, PolicyContext, view_of,
}
use sampark.Policy.Hard.{HardFilterResult, evaluate_all}

-- The three lists of the loop, and the ledger that it marks.
pub record Filtered (F : Type 0) : Type 0 where
  pub ledger : Ledger
  pub survivors : List Candidate
  pub immediate_outcomes : List (AllocationOutcome F)
  pub fact_unavailable_by_risk_id : Dict ℕ (List ReasonCode)

abbrev pub survive : {F : Type 0} → Filtered F → Candidate → List ReasonCode → Filtered F
survive f c gaps = record f {
  survivors = f.survivors ++ c ∷ [];
  fact_unavailable_by_risk_id = insert c.risk_item.risk_id gaps f.fact_unavailable_by_risk_id;
}

-- What becomes of a candidate with a verdict and the facts that were unavailable.
unfoldable pub sort_out :
    {F : Type 0} → Filtered F → Candidate → HardVerdict → List ReasonCode → Filtered F
unfolding insert denial deferred_or_denied mark_terminally_denied
sort_out f c admissible gaps = survive f c gaps
sort_out f c (fact_unavailable reason) gaps = survive f c gaps
sort_out {F} f c (deny reason) gaps = record f {
  ledger = mark_terminally_denied f.ledger c.risk_item.risk_id;
  immediate_outcomes = f.immediate_outcomes ++ denial F c reason gaps none ∷ [];
}
sort_out {F} f c (defer reason next) gaps =
    let (outcome, after) = deferred_or_denied F c reason next f.ledger gaps none in
    record f { ledger = after; immediate_outcomes = f.immediate_outcomes ++ outcome ∷ [] }

unfoldable pub filter_each :
    {F : Type 0} → Instant → Filtered F → List Candidate → Result (Filtered F)
unfolding sort_out evaluate_all view_of
filter_each decision_at f [] = ok f
filter_each decision_at f (c ∷ cs) = do
  res ← evaluate_all c (record { ledger = view_of f.ledger; decision_at = decision_at })
  filter_each decision_at (sort_out f c res.verdict res.fact_unavailable_reason_codes) cs

unfoldable pub filter_customers :
    {F : Type 0} → Instant → List Candidate → Filtered F → List ℕ → Result (Filtered F)
unfolding filter_each candidates_of
filter_customers decision_at candidates f [] = ok f
filter_customers decision_at candidates f (k ∷ ks) = do
  f' ← filter_each decision_at f (candidates_of k candidates)
  filter_customers decision_at candidates f' ks

unfoldable pub filter_candidates :
    (F : Type 0) → List Candidate → Ledger → Instant → Result (Filtered F)
unfolding filter_customers customers
filter_candidates F candidates l decision_at =
    filter_customers decision_at candidates
      (record {
        ledger = l;
        survivors = [];
        immediate_outcomes = [];
        fact_unavailable_by_risk_id = [];
      })
      (customers candidates)

unfoldable pub filter_and_allocate :
    {F : Type 0}
    → Settings F
    → List Candidate
    → Ledger
    → Result (List (AllocationOutcome F) × Ledger)
unfolding filter_candidates allocate_window
filter_and_allocate {F} s candidates l = do
  f ← filter_candidates F candidates l s.decision_at
  (outcomes, l') ←
      allocate_window (record s { gaps = f.fact_unavailable_by_risk_id }) f.survivors f.ledger
  ok (f.immediate_outcomes ++ outcomes, l')
