-- ===== src/Allocator/Greedy/Winners.antt =====
-- The winner among a customer's candidates (sampark/allocator/greedy.py), and any property of them.
use sampark.Base.{
  ok_injective, ℕ, ◌≡◌, refl, sym, subst, not, ◌&&◌, List, [], ◌∷◌, All, All-append, none, some,
  Result, ok, arith, key_error, or_raise, >>=-eq-ok, Bool-cases, inl, inr, nat_eq, ltb,
}
use sampark.Base.Dict.{Dict, lookup}
use sampark.Base.Sort.{All-sorted}
use sampark.Contracts.{Instant, ReasonCode}
use sampark.Allocator.Candidate.{Candidate}
use sampark.Allocator.Scoring.{ScoreBreakdown}
use sampark.Budget.Margin.{downgrade_to_fit}
use sampark.Budget.Ledger.{Ledger}
use sampark.Budget.Pools.{remaining_margin_paise}
use sampark.Budget.Issuance.{IssuanceResult, grant_issued, budget_denial}
use sampark.Allocator.Greedy.{
  Settings, Admission, Winner, Attempts, admit_one, admit, score_now, after_issue, try_issue,
  try_downgraded, attempt_one, attempt,
}
use sampark.Allocator.Greedy.Window.{rank}

abbrev pub Owns : (F : Type 0) → (Candidate → Type 0) → List (F × Candidate) → Type 0
Owns F P xs = All (λ (x : F × Candidate). P x.1) xs

module _ {F : Type 0} (s : Settings F) (P : Candidate → Type 0) where
  won_by : (w : Winner F) (c : Candidate) → P c → w.candidate ≡ c → P w.candidate
  won_by w c own e = subst P (sym e) own

  admit_one-Owns :
      (a : Admission F) (c : Candidate) (score : ScoreBreakdown F)
      → P c
      → Owns F P a.admitted
      → Owns F P (admit_one s a c score).admitted
  unfolding admit_one
  admit_one-Owns a c score e h =
      let more =
        All-append (λ (x : F × Candidate). P x.1) a.admitted ((score.expected_net_paise, c) ∷ []) h
          (e, tt) in
      elim (Bool-cases (s.floats.is_nonpos score.expected_net_paise && not s.fifo_mode)) [
        | inl b ↦ rw b h
        | inr b ↦ rw b more
      ]

  pub admit-Owns :
      (a a' : Admission F) (cs : List Candidate)
      → All P cs
      → Owns F P a.admitted
      → admit s a cs ≡ ok a'
      → Owns F P a'.admitted
  unfolding admit
  admit-Owns a a' [] all h e = subst (λ (b : Admission F). Owns F P b.admitted) (ok_injective e) h
  admit-Owns a a' (c ∷ cs) all h e =
      let (score, _, rest) =
        >>=-eq-ok (score_now s a.ledger c c.request.requested_max_incentive_bps) _ e in
      admit-Owns (admit_one s a c score) a' cs all.1 (admit_one-Owns a c score all.0 h) rest

  pub rank-Owns : (xs : List (F × Candidate)) → Owns F P xs → Owns F P (rank s xs)
  unfolding rank
  rank-Owns xs h = elim (Bool-cases s.fifo_mode) [
    | inl e ↦ rw e (All-sorted _ _ xs h)
    | inr e ↦ rw e (All-sorted _ _ xs h)
  ]

  abbrev pub WinnerOf : Attempts F → Type 0
  WinnerOf t = (w : Winner F) → t.winner ≡ some w → P w.candidate

  abbrev Preserves : (Attempts F → Result (Attempts F)) → Type 0
  Preserves go_on = (t t' : Attempts F) → t.winner ≡ none → go_on t ≡ ok t' → WinnerOf t'

  after_issue-WinnerOf :
      (go_on : Attempts F → Result (Attempts F)) (c : Candidate) (bps : ℕ)
      (score : ScoreBreakdown F) (denials : Dict ℕ (ReasonCode × Instant)) (res : IssuanceResult)
      (l : Ledger) (t' : Attempts F)
      → P c
      → Preserves go_on
      → after_issue s go_on c bps score denials (res, l) ≡ ok t'
      → WinnerOf t'
  unfolding after_issue
  after_issue-WinnerOf go_on c bps score denials (grant_issued grant) l t' own more e =
      λ w won. won_by w c own (ground arith)
  after_issue-WinnerOf go_on c bps score denials (budget_denial reason at) l t' own more e =
      more _ t' refl e

  try_issue-WinnerOf :
      (go_on : Attempts F → Result (Attempts F)) (c : Candidate) (bps : ℕ)
      (score : ScoreBreakdown F) (denials : Dict ℕ (ReasonCode × Instant)) (l : Ledger)
      (t' : Attempts F)
      → P c
      → Preserves go_on
      → try_issue s go_on c bps score denials l ≡ ok t'
      → WinnerOf t'
  unfolding try_issue
  try_issue-WinnerOf go_on c bps score denials l t' own more e =
      let ((res, l'), _, rest) = >>=-eq-ok (s.issuer l c bps s.decision_at) _ e in
      after_issue-WinnerOf go_on c bps score denials res l' t' own more rest

  try_downgraded-WinnerOf :
      (go_on : Attempts F → Result (Attempts F)) (c : Candidate) (bps : ℕ)
      (score : ScoreBreakdown F) (denials : Dict ℕ (ReasonCode × Instant)) (reason : ReasonCode)
      (l : Ledger) (t' : Attempts F)
      → P c
      → Preserves go_on
      → try_downgraded s go_on c bps score denials reason l ≡ ok t'
      → WinnerOf t'
  unfolding try_downgraded
  try_downgraded-WinnerOf go_on c bps score denials reason l t' own more =
      elim (Bool-cases (s.floats.is_nonpos score.expected_net_paise)) [
        | inl worthless ↦ rw worthless (more _ t' refl)
        | inr worth ↦ rw worth (try_issue-WinnerOf go_on c bps score denials l t' own more)
      ]

  attempt_one-WinnerOf :
      (go_on : Attempts F → Result (Attempts F)) (c : Candidate) (score : ScoreBreakdown F)
      (t t' : Attempts F)
      → P c
      → Preserves go_on
      → attempt_one s go_on c score t ≡ ok t'
      → WinnerOf t'
  unfolding attempt_one
  attempt_one-WinnerOf go_on c score t t' own more =
      let ((merchant, customer), l) = remaining_margin_paise t.ledger c.customer_id c.window_id in
      let ceiling = downgrade_to_fit c.requested_incentive_ceiling_paise merchant customer in
      elim (Bool-cases (ltb ceiling c.requested_incentive_ceiling_paise)) [
        | inl less ↦ rw less (λ e.
            let (again, _, rest) = >>=-eq-ok (score_now s l c _) _ e in
            try_downgraded-WinnerOf go_on c _ again _ _ l t' own more rest)
        | inr enough ↦ rw enough (try_issue-WinnerOf go_on c _ score _ l t' own more)
      ]

  pub attempt-WinnerOf :
      (scores : Dict ℕ (ScoreBreakdown F)) (t t' : Attempts F) (ranked : List (F × Candidate))
      → Owns F P ranked
      → t.winner ≡ none
      → attempt s scores t ranked ≡ ok t'
      → WinnerOf t'
  unfolding attempt
  attempt-WinnerOf scores t t' [] own fresh e = λ w won. absurd (ground arith)
  attempt-WinnerOf scores t t' ((value, c) ∷ rest) own fresh e =
      let (score, _, went) =
        >>=-eq-ok (or_raise (lookup c.risk_item.risk_id scores) key_error) _ e in
      attempt_one-WinnerOf (λ t''. attempt s scores t'' rest) c score t t' own.0
        (λ u u' fresh' e'. attempt-WinnerOf scores u u' rest own.1 fresh' e') went
