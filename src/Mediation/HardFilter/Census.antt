-- ===== src/Mediation/HardFilter/Census.antt =====
-- The candidates that sampark/mediation/hard_filter.py settles at once and those it hands to the
-- allocator, counted.
use sampark.Base.{
  ℕ, ◌+◌, ◌≡◌, sym, ap, ◌∙◌, Bool, List, [], ◌∷◌, ◌++◌, none, tally, tally-append, ok, arith,
  >>=-eq-ok, if◌then◌else◌, ok_first, ok_injective,
}
use sampark.Contracts.{Instant, ReasonCode}
use sampark.Allocator.Candidate.{Candidate}
use sampark.Allocator.Outcomes.{AllocationOutcome, denial, deferred_or_denied}
use sampark.Budget.Ledger.{Ledger}
use sampark.Allocator.Greedy.{Settings, candidates_of, customers}
use sampark.Allocator.Greedy.Window.{allocate_window}
use sampark.Allocator.Greedy.Customers.{customers_all}
use sampark.Allocator.Greedy.Census.{census, has_risk_id, candidate-deferred_or_denied}
use sampark.Allocator.Greedy.Census.Exact.{
  HasDistinctRisks, share, share_exact, tally-candidates_of, allocate_window_exact,
}
use sampark.Policy.Verdict.{HardVerdict, admissible, deny, defer, fact_unavailable, view_of}
use sampark.Policy.Hard.{evaluate_all}
use sampark.Mediation.HardFilter.{
  Filtered, sort_out, filter_each, filter_customers, filter_candidates, filter_and_allocate,
}

module _ {F : Type 0} (p : Candidate → Bool) where
  abbrev about : AllocationOutcome F → Bool
  about o = p o.candidate

  -- The candidates that the loop has seen.
  abbrev seen : Filtered F → ℕ
  seen f = census p f.immediate_outcomes + tally p f.survivors

  seen-sort_out :
      (f : Filtered F) (c : Candidate) (v : HardVerdict) (gaps : List ReasonCode)
      → seen (sort_out f c v gaps) ≡ (if p c then 1 else 0) + seen f
  unfolding sort_out denial
  seen-sort_out f c admissible gaps = omega (arith, tally-append p f.survivors (c ∷ []))
  seen-sort_out f c (fact_unavailable reason) gaps =
      omega (arith, tally-append p f.survivors (c ∷ []))
  seen-sort_out f c (deny reason) gaps = omega (arith, tally-append about f.immediate_outcomes _)
  seen-sort_out f c (defer reason next) gaps =
      let (outcome, _) = deferred_or_denied F c reason next f.ledger gaps none in
      let its : outcome.candidate ≡ c =
        candidate-deferred_or_denied F p c reason next f.ledger gaps none in
      omega (
        arith,
        tally-append about f.immediate_outcomes (outcome ∷ []),
        ap {B = ℕ} (λ d. if p d then 1 else 0) its,
      )

  seen-filter_each :
      (at : Instant) (f f' : Filtered F) (cs : List Candidate)
      → filter_each at f cs ≡ ok f'
      → seen f' ≡ tally p cs + seen f
  unfolding filter_each
  seen-filter_each at f f' [] e = omega (arith, ap seen (ok_injective e))
  seen-filter_each at f f' (c ∷ cs) e =
      let (res, _, rest) =
        >>=-eq-ok (evaluate_all c (record { ledger = view_of f.ledger; decision_at = at })) _ e in
      let gaps = res.fact_unavailable_reason_codes in
      omega (
        arith,
        seen-filter_each at (sort_out f c res.verdict gaps) f' cs rest,
        seen-sort_out f c res.verdict gaps,
      )

  seen-filter_customers :
      (at : Instant) (cs : List Candidate) (f f' : Filtered F) (ks : List ℕ)
      → filter_customers at cs f ks ≡ ok f'
      → seen f' ≡ share p ks cs + seen f
  unfolding filter_customers share
  seen-filter_customers at cs f f' [] e = omega (arith, ap seen (ok_injective e))
  seen-filter_customers at cs f f' (k ∷ ks) e =
      let (g, first, rest) = >>=-eq-ok (filter_each at f (candidates_of k cs)) _ e in
      omega (
        arith,
        seen-filter_customers at cs g f' ks rest,
        seen-filter_each at f g (candidates_of k cs) first,
        tally-candidates_of p k cs,
      )

  seen-filter_candidates :
      (cs : List Candidate) (l : Ledger) (at : Instant) (f : Filtered F)
      → filter_candidates F cs l at ≡ ok f
      → seen f ≡ tally p cs
  unfolding filter_candidates
  seen-filter_candidates cs l at f e = omega (
    arith,
    seen-filter_customers at cs _ f (customers cs) e,
    share_exact p (customers cs) cs (customers_all cs),
  )

-- When no two candidates are about one risk item and the pipeline of hard filter and allocator
-- returns, every candidate has exactly one outcome and no other candidate has any: whatever test is
-- asked, as many outcomes are about a candidate that passes it as there are candidates that pass it.
pub filter_and_allocate_exact :
    {F : Type 0} (s : Settings F) (p : Candidate → Bool) (cs : List Candidate) (l l' : Ledger)
    (outcomes : List (AllocationOutcome F))
    → HasDistinctRisks cs
    → filter_and_allocate s cs l ≡ ok (outcomes, l')
    → census p outcomes ≡ tally p cs
unfolding filter_and_allocate
filter_and_allocate_exact {F} s p cs l l' outcomes distinct e =
    let (f, filtered, rest) = >>=-eq-ok (filter_candidates F cs l s.decision_at) _ e in
    let with_gaps = record s { gaps = f.fact_unavailable_by_risk_id } in
    let ((later, final), went, done) =
      >>=-eq-ok (allocate_window with_gaps f.survivors f.ledger) _ rest in
    let all =
      λ (q : Candidate → Bool). seen-filter_candidates {F = F} q cs l s.decision_at f filtered in
    let unique : HasDistinctRisks f.survivors =
      λ r. omega (arith, all (has_risk_id r), distinct r) in
    ap (census p) (sym (ok_first (f.immediate_outcomes ++ later) outcomes final l' done))
    ∙ omega (
      arith,
      all p,
      tally-append (λ (o : AllocationOutcome F). p o.candidate) f.immediate_outcomes later,
      allocate_window_exact with_gaps p f.survivors f.ledger final later unique went,
    )
