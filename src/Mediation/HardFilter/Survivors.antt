-- ===== src/Mediation/HardFilter/Survivors.antt =====
-- What sampark/mediation/hard_filter.py hands to the allocator.
use sampark.Base.{
  ok_first, ok_injective, ℕ, ◌≡◌, ◌≢◌, refl, subst, ◌∙◌, List, [], ◌∷◌, ◌++◌, All, All-append, none,
  Result, ok, arith, >>=-eq-ok, inl, inr,
}
use sampark.Contracts.{Instant, ReasonCode}
use sampark.Allocator.Candidate.{Candidate}
use sampark.Allocator.Outcomes.{AllocationOutcome, granted, denial, deferred_or_denied}
use sampark.Allocator.Outcomes.Aging.{deferred_or_denied_split}
use sampark.Allocator.Greedy.{Settings, candidates_of, customers}
use sampark.Allocator.Greedy.Window.{allocate_window}
use sampark.Allocator.Greedy.Grants.{
  GrantsOnly, denial-GrantsOnly, deferred_or_denied-GrantsOnly, allocate_window-GrantsOnly,
}
use sampark.Budget.Ledger.{
  Ledger, mark_terminally_denied, optouts_by_channel, risk_items_for_customer,
  rolling_contact_counts, has_active_claim,
}
use sampark.Policy.Verdict.{
  HardVerdict, admissible, deny, defer, fact_unavailable, PolicyContext, MediationLedgerView,
  view_of,
}
use sampark.Policy.Hard.{
  HardFilterResult, evaluate_all, HardRule, run_rules, continue_with, hard_rules,
}
use sampark.Policy.Hard.Admission.{IsAdmissible, evaluate_all_sound}
use sampark.Mediation.HardFilter.{
  Filtered, sort_out, filter_each, filter_customers, filter_candidates, filter_and_allocate,
}

abbrev context : Ledger → Instant → PolicyContext
context l at = record { ledger = view_of l; decision_at = at }

view_of-mark_terminally_denied :
    (l : Ledger) (risk_id : ℕ) → view_of (mark_terminally_denied l risk_id) ≡ view_of l
unfolding view_of mark_terminally_denied optouts_by_channel risk_items_for_customer
    rolling_contact_counts has_active_claim
view_of-mark_terminally_denied l risk_id = refl

view_of-deferred_or_denied :
    (F : Type 0) (c : Candidate) (reason : ReasonCode) (at : Instant) (l : Ledger)
    (gaps : List ReasonCode)
    → view_of (deferred_or_denied F c reason at l gaps none).1 ≡ view_of l
view_of-deferred_or_denied F c reason at l gaps =
    elim (deferred_or_denied_split F c reason at l gaps none) [
      | inl young ↦ rw young.3 refl
      | inr old ↦ rw old.2 (view_of-mark_terminally_denied l c.risk_item.risk_id)
    ]

-- The chain never ends in an unavailable fact.
abbrev IsFinal : HardVerdict → Type 0
IsFinal v = (reason : ReasonCode) → v ≢ fact_unavailable reason

continue_with-IsFinal :
    (rest : List ReasonCode → Result HardFilterResult) (gaps : List ReasonCode) (v : HardVerdict)
    (res : HardFilterResult)
    → ((gaps' : List ReasonCode) → rest gaps' ≡ ok res → IsFinal res.verdict)
    → continue_with rest gaps v ≡ ok res
    → IsFinal res.verdict
continue_with-IsFinal rest gaps admissible res more e = more gaps e
continue_with-IsFinal rest gaps (fact_unavailable reason) res more e = more (gaps ++ reason ∷ []) e
continue_with-IsFinal rest gaps (deny reason) res more e = λ r same. ground arith
continue_with-IsFinal rest gaps (defer reason next) res more e = λ r same. ground arith

run_rules-IsFinal :
    (rules : List HardRule) (c : Candidate) (ctx : PolicyContext) (gaps : List ReasonCode)
    (res : HardFilterResult)
    → run_rules rules c ctx gaps ≡ ok res
    → IsFinal res.verdict
unfolding run_rules
run_rules-IsFinal [] c ctx gaps res e = λ r same. ground arith
run_rules-IsFinal (rule ∷ rules) c ctx gaps res e =
    let (v, _, rest) = >>=-eq-ok (rule c ctx) _ e in
    continue_with-IsFinal (run_rules rules c ctx) gaps v res
      (λ gaps' e'. run_rules-IsFinal rules c ctx gaps' res e') rest

module _ (F : Type 0) (l : Ledger) (at : Instant) where
  abbrev Good : AllocationOutcome F → Type 0
  Good o = o.outcome_kind ≡ granted → IsAdmissible o.candidate (context l at)

  -- The invariant of the loop.
  record IsSound (f : Filtered F) : Type 0 where
    same_view : view_of f.ledger ≡ view_of l
    admitted : All (λ (c : Candidate). IsAdmissible c (context l at)) f.survivors
    refused : GrantsOnly (λ (c : Candidate). IsAdmissible c (context l at)) f.immediate_outcomes

  sort_out-IsSound :
      (f : Filtered F) (c : Candidate) (v : HardVerdict) (gaps : List ReasonCode)
      → IsSound f
      → IsFinal v
      → (v ≡ admissible → IsAdmissible c (context l at))
      → IsSound (sort_out f c v gaps)
  unfolding sort_out
  sort_out-IsSound f c admissible gaps s final a = record {
    same_view = s.same_view;
    admitted =
        All-append (λ (d : Candidate). IsAdmissible d (context l at)) f.survivors (c ∷ [])
          s.admitted (a refl, tt);
    refused = s.refused;
  }
  sort_out-IsSound f c (fact_unavailable reason) gaps s final a = absurd (final reason refl)
  sort_out-IsSound f c (deny reason) gaps s final a = record {
    same_view = view_of-mark_terminally_denied f.ledger c.risk_item.risk_id ∙ s.same_view;
    admitted = s.admitted;
    refused =
        All-append Good f.immediate_outcomes (denial F c reason gaps none ∷ []) s.refused
          (denial-GrantsOnly F (λ x. IsAdmissible x (context l at)) c reason gaps none);
  }
  sort_out-IsSound f c (defer reason next) gaps s final a = record {
    same_view = view_of-deferred_or_denied F c reason next f.ledger gaps ∙ s.same_view;
    admitted = s.admitted;
    refused =
        All-append Good f.immediate_outcomes
          ((deferred_or_denied F c reason next f.ledger gaps none).0 ∷ []) s.refused
          (deferred_or_denied-GrantsOnly F (λ x. IsAdmissible x (context l at)) c reason next
            f.ledger gaps none);
  }

  filter_each-IsSound :
      (f f' : Filtered F) (cs : List Candidate)
      → IsSound f
      → filter_each at f cs ≡ ok f'
      → IsSound f'
  unfolding filter_each evaluate_all
  filter_each-IsSound f f' [] s e = subst IsSound (ok_injective e) s
  filter_each-IsSound f f' (c ∷ cs) s e =
      let (res, judged, rest) = >>=-eq-ok (evaluate_all c (context f.ledger at)) _ e in
      let here : evaluate_all c (context l at) ≡ ok res =
        subst
          (λ (v : MediationLedgerView).
            evaluate_all c (record { ledger = v; decision_at = at }) ≡ ok res)
          s.same_view judged in
      filter_each-IsSound (sort_out f c res.verdict res.fact_unavailable_reason_codes) f' cs
        (sort_out-IsSound f c res.verdict res.fact_unavailable_reason_codes s
          (run_rules-IsFinal hard_rules c (context l at) [] res here)
          (evaluate_all_sound c (context l at) res here))
        rest

  filter_customers-IsSound :
      (candidates : List Candidate) (f f' : Filtered F) (ks : List ℕ)
      → IsSound f
      → filter_customers at candidates f ks ≡ ok f'
      → IsSound f'
  unfolding filter_customers
  filter_customers-IsSound candidates f f' [] s e = subst IsSound (ok_injective e) s
  filter_customers-IsSound candidates f f' (k ∷ ks) s e =
      let (g, first, rest) = >>=-eq-ok (filter_each at f (candidates_of k candidates)) _ e in
      filter_customers-IsSound candidates g f' ks
        (filter_each-IsSound f g (candidates_of k candidates) s first) rest

  filter_candidates-IsSound :
      (candidates : List Candidate) (f : Filtered F)
      → filter_candidates F candidates l at ≡ ok f
      → IsSound f
  unfolding filter_candidates
  filter_candidates-IsSound candidates f e =
      filter_customers-IsSound candidates _ f (customers candidates)
        (record { same_view = refl; admitted = tt; refused = tt }) e

  -- Every candidate that the hard filter hands to the allocator meets the six conditions of the hard
  -- policy, on the ledger as it was before the filter ran and at the time of the decision.
  pub filter_candidates_sound :
      (candidates : List Candidate) (f : Filtered F)
      → filter_candidates F candidates l at ≡ ok f
      → All
          (λ (c : Candidate). IsAdmissible c (record { ledger = view_of l; decision_at = at }))
          f.survivors
  filter_candidates_sound candidates f e = (filter_candidates-IsSound candidates f e).admitted

-- Whatever the scorer and the issuer answer, the pipeline of hard filter and allocator grants only
-- candidates that meet the six conditions of the hard policy, on the ledger as it was before and at
-- the time of the decision.
pub filter_and_allocate_admissible :
    {F : Type 0} (s : Settings F) (candidates : List Candidate) (l l' : Ledger)
    (outcomes : List (AllocationOutcome F))
    → filter_and_allocate s candidates l ≡ ok (outcomes, l')
    → GrantsOnly
        (λ (c : Candidate).
          IsAdmissible c (record { ledger = view_of l; decision_at = s.decision_at }))
        outcomes
unfolding filter_and_allocate
filter_and_allocate_admissible {F} s candidates l l' outcomes e =
    let P = λ (c : Candidate). IsAdmissible c (context l s.decision_at) in
    let (f, filtered, rest) = >>=-eq-ok (filter_candidates F candidates l s.decision_at) _ e in
    let sound = filter_candidates-IsSound F l s.decision_at candidates f filtered in
    let with_gaps = record s { gaps = f.fact_unavailable_by_risk_id } in
    let ((later, final), went, done) =
      >>=-eq-ok (allocate_window with_gaps f.survivors f.ledger) _ rest in
    subst (GrantsOnly P) (ok_first (f.immediate_outcomes ++ later) outcomes final l' done) (
      All-append (λ (o : AllocationOutcome F). o.outcome_kind ≡ granted → P o.candidate)
        f.immediate_outcomes later sound.refused
        (allocate_window-GrantsOnly with_gaps P f.survivors f.ledger final later sound.admitted
          went))
