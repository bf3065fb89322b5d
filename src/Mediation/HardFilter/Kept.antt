-- ===== src/Mediation/HardFilter/Kept.antt =====
-- sampark/mediation/hard_filter.py: any property of the candidates that go in is one of the survivors
-- and of what is granted.
use sampark.Base.{
  ok_first, ok_injective, ℕ, ◌≡◌, refl, subst, List, [], ◌∷◌, ◌++◌, All, All-append, All-both, none,
  ok, >>=-eq-ok,
}
use sampark.Contracts.{Instant, ReasonCode}
use sampark.Allocator.Candidate.{Candidate}
use sampark.Allocator.Outcomes.{AllocationOutcome, granted, denial, deferred_or_denied}
use sampark.Allocator.Greedy.{Settings, candidates_of, customers}
use sampark.Allocator.Greedy.Window.{allocate_window}
use sampark.Allocator.Greedy.Grants.{
  GrantsOnly, denial-GrantsOnly, deferred_or_denied-GrantsOnly, allocate_window-GrantsOnly,
  All-candidates_of,
}
use sampark.Budget.Ledger.{Ledger}
use sampark.Policy.Verdict.{HardVerdict, admissible, deny, defer, fact_unavailable, view_of}
use sampark.Policy.Hard.{evaluate_all}
use sampark.Policy.Hard.Admission.{IsAdmissible}
use sampark.Mediation.HardFilter.{
  Filtered, sort_out, filter_each, filter_customers, filter_candidates, filter_and_allocate,
}
use sampark.Mediation.HardFilter.Survivors.{filter_candidates_sound}

module _ (F : Type 0) (P Q : Candidate → Type 0) (at : Instant) where
  abbrev Good : AllocationOutcome F → Type 0
  Good o = o.outcome_kind ≡ granted → P o.candidate

  -- The survivors have the property `Q`, and nothing was granted yet.
  record IsKept (f : Filtered F) : Type 0 where
    kept : All Q f.survivors
    refused : GrantsOnly P f.immediate_outcomes

  survive-IsKept :
      (f g : Filtered F) (c : Candidate)
      → IsKept f
      → Q c
      → g.survivors ≡ f.survivors ++ c ∷ []
      → g.immediate_outcomes ≡ f.immediate_outcomes
      → IsKept g
  survive-IsKept f g c k q more same = record {
    kept = rw more (All-append Q f.survivors (c ∷ []) k.kept (q, tt));
    refused = rw same k.refused;
  }

  sort_out-IsKept :
      (f : Filtered F) (c : Candidate) (v : HardVerdict) (gaps : List ReasonCode)
      → IsKept f
      → Q c
      → IsKept (sort_out f c v gaps)
  unfolding sort_out
  sort_out-IsKept f c admissible gaps k q = survive-IsKept f _ c k q refl refl
  sort_out-IsKept f c (fact_unavailable reason) gaps k q = survive-IsKept f _ c k q refl refl
  sort_out-IsKept f c (deny reason) gaps k q = record {
    kept = k.kept;
    refused =
        All-append Good f.immediate_outcomes (denial F c reason gaps none ∷ []) k.refused
          (denial-GrantsOnly F P c reason gaps none);
  }
  sort_out-IsKept f c (defer reason next) gaps k q = record {
    kept = k.kept;
    refused =
        All-append Good f.immediate_outcomes
          ((deferred_or_denied F c reason next f.ledger gaps none).0 ∷ []) k.refused
          (deferred_or_denied-GrantsOnly F P c reason next f.ledger gaps none);
  }

  filter_each-IsKept :
      (f f' : Filtered F) (cs : List Candidate)
      → IsKept f
      → All Q cs
      → filter_each at f cs ≡ ok f'
      → IsKept f'
  unfolding filter_each
  filter_each-IsKept f f' [] k all e = subst IsKept (ok_injective e) k
  filter_each-IsKept f f' (c ∷ cs) k all e =
      let (res, _, rest) =
        >>=-eq-ok (evaluate_all c (record { ledger = view_of f.ledger; decision_at = at })) _ e in
      filter_each-IsKept (sort_out f c res.verdict res.fact_unavailable_reason_codes) f' cs
        (sort_out-IsKept f c res.verdict res.fact_unavailable_reason_codes k all.0) all.1 rest

  filter_customers-IsKept :
      (candidates : List Candidate) (f f' : Filtered F) (ks : List ℕ)
      → All Q candidates
      → IsKept f
      → filter_customers at candidates f ks ≡ ok f'
      → IsKept f'
  unfolding filter_customers
  filter_customers-IsKept candidates f f' [] all k e = subst IsKept (ok_injective e) k
  filter_customers-IsKept candidates f f' (j ∷ js) all k e =
      let (g, first, rest) = >>=-eq-ok (filter_each at f (candidates_of j candidates)) _ e in
      filter_customers-IsKept candidates g f' js all
        (filter_each-IsKept f g (candidates_of j candidates) k
          (All-candidates_of Q j candidates all) first)
        rest

  filter_candidates-IsKept :
      (candidates : List Candidate) (l : Ledger) (f : Filtered F)
      → All Q candidates
      → filter_candidates F candidates l at ≡ ok f
      → IsKept f
  unfolding filter_candidates
  filter_candidates-IsKept candidates l f all e =
      filter_customers-IsKept candidates _ f (customers candidates) all
        (record { kept = tt; refused = tt }) e

-- The candidate of a grant is admissible and has whatever property the candidates have.
pub filter_and_allocate-GrantsOnly :
    {F : Type 0} (s : Settings F) (Q : Candidate → Type 0) (candidates : List Candidate)
    (l l' : Ledger) (outcomes : List (AllocationOutcome F))
    → All Q candidates
    → filter_and_allocate s candidates l ≡ ok (outcomes, l')
    → GrantsOnly
        (λ (c : Candidate).
          IsAdmissible c (record { ledger = view_of l; decision_at = s.decision_at }) × Q c)
        outcomes
unfolding filter_and_allocate
filter_and_allocate-GrantsOnly {F} s Q candidates l l' outcomes all e =
    let A = λ (c : Candidate).
      IsAdmissible c (record { ledger = view_of l; decision_at = s.decision_at }) in
    let P = λ (c : Candidate). A c × Q c in
    let (f, filtered, rest) = >>=-eq-ok (filter_candidates F candidates l s.decision_at) _ e in
    let ours = filter_candidates-IsKept F P Q s.decision_at candidates l f all filtered in
    let sound = filter_candidates_sound F l s.decision_at candidates f filtered in
    let with_gaps = record s { gaps = f.fact_unavailable_by_risk_id } in
    let ((later, final), went, done) =
      >>=-eq-ok (allocate_window with_gaps f.survivors f.ledger) _ rest in
    subst (GrantsOnly P) (ok_first (f.immediate_outcomes ++ later) outcomes final l' done) (
      All-append (λ (o : AllocationOutcome F). o.outcome_kind ≡ granted → P o.candidate)
        f.immediate_outcomes later ours.refused
        (allocate_window-GrantsOnly with_gaps P f.survivors f.ledger final later
          (All-both A Q f.survivors sound ours.kept) went))
