-- ===== src/Policy/Hard/Chain.antt =====
-- The chain of sampark/policy/hard/__init__.py, for any list of rules.
use sampark.Base.{
  ◌≡◌, refl, ◌⊎◌, inl, inr, Bool, true, false, List, [], ◌∷◌, ◌++◌, All, Result, ok, arith,
  >>=-eq-ok,
}
use sampark.Contracts.{ReasonCode}
use sampark.Allocator.Candidate.{Candidate}
use sampark.Policy.Verdict.{HardVerdict, admissible, deny, defer, fact_unavailable, PolicyContext}
use sampark.Policy.Hard.{HardRule, HardFilterResult, run_rules, continue_with}

module _ (c : Candidate) (ctx : PolicyContext) where
  -- A rule passes a candidate that it admits or has no fact about.
  abbrev pub Passes : HardRule → Type 0
  Passes rule =
      (rule c ctx ≡ ok admissible)
      ⊎ ((reason : ReasonCode) × (rule c ctx ≡ ok (fact_unavailable reason)))

  continue_with-Passes :
      (rest : List ReasonCode → Result HardFilterResult) (P : Type 0) (gaps : List ReasonCode)
      (v : HardVerdict) (res : HardFilterResult) (rule : HardRule)
      → ((gaps' : List ReasonCode) → rest gaps' ≡ ok res → P)
      → rule c ctx ≡ ok v
      → continue_with rest gaps v ≡ ok res
      → res.verdict ≡ admissible
      → Passes rule × P
  continue_with-Passes rest P gaps admissible res rule ih ran e a = (inl ran, ih gaps e)
  continue_with-Passes rest P gaps (fact_unavailable reason) res rule ih ran e a =
      (inr (reason, ran), ih (gaps ++ reason ∷ []) e)
  continue_with-Passes rest P gaps (deny reason) res rule ih ran e a = absurd (ground arith)
  continue_with-Passes rest P gaps (defer reason next) res rule ih ran e a = absurd (ground arith)

  -- A chain admits only what every rule passes.
  pub run_rules-Passes :
      (rules : List HardRule) (gaps : List ReasonCode) (res : HardFilterResult)
      → run_rules rules c ctx gaps ≡ ok res
      → res.verdict ≡ admissible
      → All Passes rules
  unfolding run_rules
  run_rules-Passes [] gaps res e a = tt
  run_rules-Passes (rule ∷ rules) gaps res e a =
      let (v, ran, rest) = >>=-eq-ok (rule c ctx) _ e in
      continue_with-Passes (run_rules rules c ctx) (All Passes rules) gaps v res rule
        (λ gaps' e'. run_rules-Passes rules gaps' res e' a) ran rest a

  -- A chain admits what every rule passes.
  pub run_rules_admits :
      (rules : List HardRule) (gaps : List ReasonCode)
      → All Passes rules
      → (res : HardFilterResult) × (run_rules rules c ctx gaps ≡ ok res)
        × (res.verdict ≡ admissible)
  unfolding run_rules
  run_rules_admits [] gaps h =
      (record { verdict = admissible; fact_unavailable_reason_codes = gaps }, refl, refl)
  run_rules_admits (rule ∷ rules) gaps (inl pass, h) =
      let (res, e, a) = run_rules_admits rules gaps h in (res, rw pass e, a)
  run_rules_admits (rule ∷ rules) gaps (inr (reason, pass), h) =
      let (res, e, a) = run_rules_admits rules (gaps ++ reason ∷ []) h in (res, rw pass e, a)

  abbrev pub is_inadmissible : HardVerdict → Bool
  is_inadmissible admissible = false
  is_inadmissible (fact_unavailable reason) = false
  is_inadmissible (deny reason) = true
  is_inadmissible (defer reason next) = true

  -- The first rule that denies or defers decides, whatever the rules behind it say.
  pub run_rules_first :
      (before after : List HardRule) (rule : HardRule) (v : HardVerdict) (gaps : List ReasonCode)
      → All Passes before
      → rule c ctx ≡ ok v
      → is_inadmissible v ≡ true
      → (res : HardFilterResult) × (run_rules (before ++ rule ∷ after) c ctx gaps ≡ ok res)
        × (res.verdict ≡ v)
  unfolding run_rules
  run_rules_first [] after rule v gaps h e bad =
      (record { verdict = v; fact_unavailable_reason_codes = gaps }, ground arith, refl)
  run_rules_first (r ∷ before) after rule v gaps (inl pass, h) e bad =
      let (res, ran, same) = run_rules_first before after rule v gaps h e bad in
      (res, rw pass ran, same)
  run_rules_first (r ∷ before) after rule v gaps (inr (reason, pass), h) e bad =
      let (res, ran, same) = run_rules_first before after rule v (gaps ++ reason ∷ []) h e bad in
      (res, rw pass ran, same)
