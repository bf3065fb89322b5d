-- ===== src/Policy/Compiler/Acceptance.antt =====
-- What acceptance by sampark/policy/compiler/validate.py says of its checks.
use sampark.Base.{
  ◌≡◌, ap, sym, ◌∙◌, inl, inr, true, [], ok, arith, string_eq, >>=-eq-ok, Bool-cases, ok_injective,
}
use sampark.Policy.Compiler.Ir.{PolicyRule}
use sampark.Policy.Compiler.Validate.{
  Digits, ValidationResult, accepted, validate, validate_bounds, validate_conflict, is_readable,
  check_rule, or_reject-cases,
}

module _ (digits : Digits) where
  -- What acceptance says of the checks.
  pub record IsClean (rule : PolicyRule) : Type 0 where
    pub readable : is_readable rule ≡ true
    pub bounds : validate_bounds digits rule.family rule.params ≡ ok []
    pub conflict : validate_conflict rule.family rule.params ≡ ok []

  pub validate-IsClean :
      (rule : PolicyRule) (result : ValidationResult)
      → validate digits rule ≡ ok result
      → result.verdict ≡ accepted
      → IsClean rule × (result ≡ record { verdict = accepted; rule = rule; reasons = [] })
  unfolding validate check_rule
  validate-IsClean rule result e accepted_ = elim (Bool-cases (is_readable rule)) [
    | inr unread ↦ absurd (ground arith)
    | inl read ↦
        let checked : check_rule digits rule ≡ ok result = ground arith in
        let (bounds, bounded, rest) =
          >>=-eq-ok (validate_bounds digits rule.family rule.params) _ checked in
        elim (or_reject-cases rule bounds _ result rest) [
          | inr (_, _, _, bad, _) ↦ absurd (ground arith)
          | inl (b, next) ↦
              let (conflict, conflicted, last) =
                >>=-eq-ok (validate_conflict rule.family rule.params) _ next in
              elim (or_reject-cases rule conflict _ result last) [
                | inr (_, _, _, bad, _) ↦ absurd (ground arith)
                | inl (c, done) ↦ (
                  record {
                    readable = read;
                    bounds = bounded ∙ ap ok b;
                    conflict = conflicted ∙ ap ok c;
                  },
                  sym (ok_injective done),
                )
              ]
        ]
  ]
