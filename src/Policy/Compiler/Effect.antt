-- ===== src/Policy/Compiler/Effect.antt =====
-- Rules appended to the chain of sampark/policy/hard/__init__.py, as the compiled ones are.
use sampark.Base.{◌≡◌, refl, true, List, [], ◌∷◌, ◌++◌, All, Result, ok, err, arith, ◌>>=◌}
use sampark.Contracts.{ReasonCode}
use sampark.Allocator.Candidate.{Candidate}
use sampark.Policy.Verdict.{HardVerdict, admissible, deny, defer, fact_unavailable, PolicyContext}
use sampark.Policy.Hard.{
  HardRule, HardFilterResult, run_rules, continue_with, hard_rules, evaluate_all,
}
use sampark.Policy.Hard.Chain.{Passes, is_inadmissible, run_rules-Passes, run_rules_admits}

module _ (c : Candidate) (ctx : PolicyContext) where
  -- A result that is final stands, whatever rules come behind.
  abbrev Ends : List HardRule → List HardRule → List ReasonCode → Type 0
  Ends rules extra gaps =
      (res : HardFilterResult)
      → run_rules rules c ctx gaps ≡ ok res
      → is_inadmissible c ctx res.verdict ≡ true
      → run_rules (rules ++ extra) c ctx gaps ≡ ok res

  continue_with-Ends :
      (rule : HardRule) (rules extra : List HardRule) (gaps : List ReasonCode)
      (answer : Result HardVerdict) (res : HardFilterResult)
      → ((gaps' : List ReasonCode) → Ends rules extra gaps')
      → answer >>= continue_with (run_rules rules c ctx) gaps ≡ ok res
      → is_inadmissible c ctx res.verdict ≡ true
      → answer >>= continue_with (run_rules (rules ++ extra) c ctx) gaps ≡ ok res
  continue_with-Ends rule rules extra gaps (err x) res ih e bad = e
  continue_with-Ends rule rules extra gaps (ok admissible) res ih e bad = ih gaps res e bad
  continue_with-Ends rule rules extra gaps (ok (fact_unavailable reason)) res ih e bad =
      ih (gaps ++ reason ∷ []) res e bad
  continue_with-Ends rule rules extra gaps (ok (deny reason)) res ih e bad = e
  continue_with-Ends rule rules extra gaps (ok (defer reason next)) res ih e bad = e

  run_rules-Ends : (rules extra : List HardRule) (gaps : List ReasonCode) → Ends rules extra gaps
  unfolding run_rules
  run_rules-Ends [] extra gaps = λ res e bad. absurd (ground arith)
  run_rules-Ends (rule ∷ rules) extra gaps = λ res e bad.
      continue_with-Ends rule rules extra gaps (rule c ctx) res (run_rules-Ends rules extra) e bad

  -- An extra rule that admits whenever the rules before it do changes nothing.
  continue_with_silent :
      (rules : List HardRule) (rule : HardRule) (gaps : List ReasonCode)
      (answer : Result HardVerdict)
      → ((gaps' : List ReasonCode)
          → ((res : HardFilterResult)
              → run_rules rules c ctx gaps' ≡ ok res
              → res.verdict ≡ admissible
              → rule c ctx ≡ ok admissible)
          → run_rules (rules ++ rule ∷ []) c ctx gaps' ≡ run_rules rules c ctx gaps')
      → ((res : HardFilterResult)
          → answer >>= continue_with (run_rules rules c ctx) gaps ≡ ok res
          → res.verdict ≡ admissible
          → rule c ctx ≡ ok admissible)
      → answer >>= continue_with (run_rules (rules ++ rule ∷ []) c ctx) gaps
        ≡ answer >>= continue_with (run_rules rules c ctx) gaps
  continue_with_silent rules rule gaps (err x) ih h = refl
  continue_with_silent rules rule gaps (ok admissible) ih h = ih gaps h
  continue_with_silent rules rule gaps (ok (fact_unavailable reason)) ih h =
      ih (gaps ++ reason ∷ []) h
  continue_with_silent rules rule gaps (ok (deny reason)) ih h = refl
  continue_with_silent rules rule gaps (ok (defer reason next)) ih h = refl

  pub run_rules_silent :
      (rules : List HardRule) (rule : HardRule) (gaps : List ReasonCode)
      → ((res : HardFilterResult)
          → run_rules rules c ctx gaps ≡ ok res
          → res.verdict ≡ admissible
          → rule c ctx ≡ ok admissible)
      → run_rules (rules ++ rule ∷ []) c ctx gaps ≡ run_rules rules c ctx gaps
  unfolding run_rules
  run_rules_silent [] rule gaps h = rw (h _ refl refl) refl
  run_rules_silent (r ∷ rules) rule gaps h =
      continue_with_silent rules rule gaps (r c ctx) (run_rules_silent rules rule) h

  All-prefix :
      (rules extra : List HardRule) → All (Passes c ctx) (rules ++ extra) → All (Passes c ctx) rules
  All-prefix [] extra h = tt
  All-prefix (r ∷ rules) extra h = (h.0, All-prefix rules extra h.1)

  -- Whatever rules are appended to the hard chain, a verdict of the hard chain that denies or defers
  -- stays the result, and a candidate that the longer chain admits is admitted by the hard chain.
  pub appended_rules_restrict :
      (extra : List HardRule)
      → ((res : HardFilterResult)
          → evaluate_all c ctx ≡ ok res
          → is_inadmissible c ctx res.verdict ≡ true
          → run_rules (hard_rules ++ extra) c ctx [] ≡ ok res)
        × ((res : HardFilterResult)
            → run_rules (hard_rules ++ extra) c ctx [] ≡ ok res
            → res.verdict ≡ admissible
            → (hard : HardFilterResult) × (evaluate_all c ctx ≡ ok hard)
              × (hard.verdict ≡ admissible))
  unfolding evaluate_all
  appended_rules_restrict extra = (
    run_rules-Ends hard_rules extra [],
    λ res e a.
        run_rules_admits c ctx hard_rules []
          (All-prefix hard_rules extra (run_rules-Passes c ctx (hard_rules ++ extra) [] res e a)),
  )
