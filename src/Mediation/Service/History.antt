-- ===== src/Mediation/Service/History.antt =====
-- What a window of sampark/mediation/service.py does to the ledger, with the in-memory issuer.
use sampark.Base.{
  ℕ, ◌≡◌, refl, sym, inl, inr, none, List, [], ◌∷◌, ok, arith, >>=-eq-ok, nat_eq, ok_second,
}
use sampark.Base.Dict.{Dict, sum_of}
use sampark.Contracts.{Instant, Date, RiskItem, GrantRequest, ReasonCode}
use sampark.Allocator.Candidate.{Candidate}
use sampark.Allocator.Outcomes.{AllocationOutcome}
use sampark.Allocator.Outcomes.Aging.{deferred_or_denied_split}
use sampark.Allocator.Greedy.{Settings, candidates_of, customers}
use sampark.Allocator.Greedy.Window.{allocate_window}
use sampark.Allocator.Greedy.History.{same, one, Reach-trans, allocate_window-Reach}
use sampark.Budget.Ledger.{Ledger, new_ledger}
use sampark.Budget.Pools.View.{merchant_view, customer_view}
use sampark.Budget.Backing.{Backs, held_in, held_for}
use sampark.Budget.Issuance.{IdScheme, issue_grant}
use sampark.Policy.Verdict.{HardVerdict, admissible, deny, defer, fact_unavailable, view_of}
use sampark.Policy.Hard.{evaluate_all}
use sampark.Registry.Store.{AgentRepository, RiskItemRepository}
use sampark.Registry.Scope.{SignatureScheme}
use sampark.Mediation.HardFilter.{
  Filtered, sort_out, filter_each, filter_customers, filter_candidates, filter_and_allocate,
}
use sampark.Mediation.Lifecycle.History.{denies, Reach, here, history_backed}
use sampark.Mediation.Service.{
  DecisionIds, MediationWindowResult, admit_requests, publish_all, mediate_window,
}

module _ (ids : IdScheme) {F : Type 0} where
  sort_out-Reach :
      (f : Filtered F) (c : Candidate) (v : HardVerdict) (gaps : List ReasonCode)
      → Reach ids f.ledger (sort_out f c v gaps).ledger
  unfolding sort_out
  sort_out-Reach f c admissible gaps = here
  sort_out-Reach f c (fact_unavailable reason) gaps = here
  sort_out-Reach f c (deny reason) gaps = one ids (denies c.risk_item.risk_id refl)
  sort_out-Reach f c (defer reason next) gaps =
      elim (deferred_or_denied_split F c reason next f.ledger gaps none) [
        | inl young ↦ same ids (sym young.3)
        | inr old ↦ one ids (denies c.risk_item.risk_id old.2)
      ]

  filter_each-Reach :
      (at : Instant) (f f' : Filtered F) (cs : List Candidate)
      → filter_each at f cs ≡ ok f'
      → Reach ids f.ledger f'.ledger
  unfolding filter_each
  filter_each-Reach at f f' [] e = same ids (ground arith)
  filter_each-Reach at f f' (c ∷ cs) e =
      let (res, _, rest) =
        >>=-eq-ok (evaluate_all c (record { ledger = view_of f.ledger; decision_at = at })) _ e in
      let gaps = res.fact_unavailable_reason_codes in
      Reach-trans ids (sort_out-Reach f c res.verdict gaps)
        (filter_each-Reach at (sort_out f c res.verdict gaps) f' cs rest)

  filter_customers-Reach :
      (at : Instant) (cs : List Candidate) (f f' : Filtered F) (ks : List ℕ)
      → filter_customers at cs f ks ≡ ok f'
      → Reach ids f.ledger f'.ledger
  unfolding filter_customers
  filter_customers-Reach at cs f f' [] e = same ids (ground arith)
  filter_customers-Reach at cs f f' (k ∷ ks) e =
      let (g, first, rest) = >>=-eq-ok (filter_each at f (candidates_of k cs)) _ e in
      Reach-trans ids (filter_each-Reach at f g (candidates_of k cs) first)
        (filter_customers-Reach at cs g f' ks rest)

  filter_and_allocate-Reach :
      (s : Settings F) (cs : List Candidate) (l l' : Ledger) (outcomes : List (AllocationOutcome F))
      → filter_and_allocate (record s { issuer = issue_grant ids }) cs l ≡ ok (outcomes, l')
      → Reach ids l l'
  unfolding filter_and_allocate filter_candidates
  filter_and_allocate-Reach s cs l l' outcomes e =
      let (f, filtered, rest) = >>=-eq-ok (filter_candidates F cs l s.decision_at) _ e in
      let gaps = record s { gaps = f.fact_unavailable_by_risk_id } in
      let ((later, final), went, done) =
        >>=-eq-ok (allocate_window (record gaps { issuer = issue_grant ids }) f.survivors f.ledger)
          _ rest in
      Reach-trans ids (filter_customers-Reach s.decision_at cs _ f (customers cs) filtered) (
        Reach-trans ids (allocate_window-Reach ids gaps f.survivors f.ledger final later went)
          (same ids (ok_second _ outcomes final l' done)))

-- A window that is mediated with the in-memory issuer after any history on a new ledger, and that
-- returns, leaves every merchant pool and every customer pool with reservations equal to the ceilings
-- of the grants that still hold one, and with reserved plus spent within the budget.
pub mediate_window_backed :
    {F : Type 0} (ids : IdScheme) (decision_ids : DecisionIds) (sig : SignatureScheme)
    (agents : AgentRepository) (risk_items : RiskItemRepository) (s : Settings F)
    (new_requests : List (GrantRequest × Instant)) (carried_forward : List Candidate)
    (items : Dict ℕ (List RiskItem)) (merchant budget : ℕ) (l l' : Ledger)
    (result : MediationWindowResult)
    → Reach ids (new_ledger items merchant budget) l
    → mediate_window decision_ids sig agents risk_items
        (record s { issuer = issue_grant ids })
        new_requests
        carried_forward
        l
      ≡ ok (result, l')
    → ((w : Date) → Backs (sum_of (held_in w) l'.grants_by_request_id) (merchant_view l' w))
      × ((c : ℕ) (w : Date)
          → Backs (sum_of (held_for c w) l'.grants_by_request_id) (customer_view l' c w))
unfolding mediate_window
mediate_window_backed ids decision_ids sig agents risk_items s xs carried items merchant budget l l'
      result before e =
    let (i, _, rest) =
      >>=-eq-ok
        (admit_requests decision_ids sig agents risk_items 0
          (record { scope_decisions = []; candidates = carried }) xs)
        _ e in
    let ((outcomes, m), went, tail) =
      >>=-eq-ok (filter_and_allocate (record s { issuer = issue_grant ids }) i.candidates l) _
        rest in
    let (r, _, done) = >>=-eq-ok (publish_all decision_ids _ outcomes) _ tail in
    history_backed ids items merchant budget l' (
      Reach-trans ids before (
        Reach-trans ids (filter_and_allocate-Reach ids s i.candidates l m outcomes went)
          (same ids (ok_second r result m l' done))))
