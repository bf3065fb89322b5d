-- ===== src/Policy/Compiler/Redundancy.antt =====
-- What sampark/policy/compiler/validate.py means by a redundant cap.
use sampark.Base.{
  ℕ, ◌≡◌, ◌≢◌, ◌<◌, refl, ap, subst, inl, inr, true, false, Option, none, some, List, [], ◌∷◌, ◌++◌,
  ok, arith, String, str_eq, string_eq, >>=-eq-ok, Bool-cases, Option-cases, ok_injective, or_raise,
  key_error,
}
use sampark.Base.Int.{ℤ, pos, leb_ℤ}
use sampark.Base.Dict.{Dict, lookup, lookup_or}
use sampark.Contracts.{ReasonCode}
use sampark.Allocator.Candidate.{Candidate}
use sampark.Policy.Verdict.{admissible, PolicyContext}
use sampark.Policy.Hard.{HardRule, run_rules, hard_rules, evaluate_all}
use sampark.Policy.Hard.Admission.{IsAdmissible, evaluate_all_sound}
use sampark.Policy.Compiler.Ir.{
  PredicateFamily, contact_frequency_cap, time_of_day_window, incentive_prohibition,
  intent_suppression, channel_restriction, Value, null, boolean, number, text, unhashable,
  PolicyRule, get, as_int,
}
use sampark.Policy.Compiler.Validate.{
  Digits, ValidationResult, Reason, cap_redundant, validate, validate_bounds, validate_conflict,
  is_readable, check_hhmm, is_redundant, cap_of, existing_contact_cap, is_text, check_rule,
  or_reject-cases,
}
use sampark.Policy.Compiler.Generate.{generate_for, frequency_rule, at_least}
use sampark.Policy.Compiler.Effect.{run_rules_silent}

module _ (digits : Digits) where
  -- The checks of the bounds never call a cap redundant.
  bounds_never_redundant :
      (family : PredicateFamily) (p : Dict String Value) (more : List Reason)
      → validate_bounds digits family p ≢ ok (cap_redundant ∷ more)
  unfolding validate_bounds check_hhmm
  bounds_never_redundant contact_frequency_cap p more e = ground arith
  bounds_never_redundant time_of_day_window p more e = ground arith
  bounds_never_redundant intent_suppression p more e = ground arith
  bounds_never_redundant channel_restriction p more e = ground arith
  bounds_never_redundant incentive_prohibition p more e = ground arith

  -- A window with a cap that the rule's own does not undercut.
  record IsLoose (window max_contacts : Value) : Type 0 where
    name : String
    existing : ℕ
    limit : ℤ
    named : window ≡ text name
    capped : existing_contact_cap name ≡ some existing
    counted : as_int max_contacts ≡ some limit
    loose : leb_ℤ (pos existing) limit ≡ true

  cap-IsLoose :
      (window max_contacts : Value) (existing : Option ℕ)
      → cap_of window ≡ ok existing
      → is_redundant existing (as_int max_contacts) ≡ true
      → IsLoose window max_contacts
  unfolding cap_of
  cap-IsLoose window max_contacts none found e = absurd (ground arith)
  cap-IsLoose null max_contacts (some n) found e = absurd (ground arith)
  cap-IsLoose (boolean b) max_contacts (some n) found e = absurd (ground arith)
  cap-IsLoose (number z) max_contacts (some n) found e = absurd (ground arith)
  cap-IsLoose unhashable max_contacts (some n) found e = absurd (ground arith)
  cap-IsLoose (text name) max_contacts (some n) found e =
      elim (Option-cases (as_int max_contacts)) [
        | inl absent ↦ absurd (ground arith)
        | inr (z, counted) ↦ record {
          name = name;
          existing = n;
          limit = z;
          named = refl;
          capped = ok_injective found;
          counted = counted;
          loose = ground arith;
        }
      ]

  conflict-IsLoose :
      (family : PredicateFamily) (p : Dict String Value) (more : List Reason)
      → validate_conflict family p ≡ ok (cap_redundant ∷ more)
      → (family ≡ contact_frequency_cap) × IsLoose (get "window" p) (get "max_contacts" p)
  unfolding validate_conflict
  conflict-IsLoose contact_frequency_cap p more e =
      let (existing, found, rest) = >>=-eq-ok (cap_of (get "window" p)) _ e in
      (refl, cap-IsLoose (get "window" p) (get "max_contacts" p) existing found (ground arith))
  conflict-IsLoose time_of_day_window p more e = absurd (ground arith)
  conflict-IsLoose intent_suppression p more e = absurd (ground arith)
  conflict-IsLoose channel_restriction p more e = absurd (ground arith)
  conflict-IsLoose incentive_prohibition p more e = absurd (ground arith)

  validate-IsLoose :
      (rule : PolicyRule) (result : ValidationResult)
      → validate digits rule ≡ ok result
      → result.reasons ≡ cap_redundant ∷ []
      → (rule.family ≡ contact_frequency_cap)
        × IsLoose (get "window" rule.params) (get "max_contacts" rule.params)
  unfolding validate check_rule
  validate-IsLoose rule result e reasons = elim (Bool-cases (is_readable rule)) [
    | inr unread ↦ absurd (ground arith)
    | inl read ↦
        let checked : check_rule digits rule ≡ ok result = ground arith in
        let (bounds, bounded, rest) =
          >>=-eq-ok (validate_bounds digits rule.family rule.params) _ checked in
        elim (or_reject-cases rule bounds _ result rest) [
          | inr (reason, more, found, _, same) ↦
              absurd (bounds_never_redundant rule.family rule.params [] (ground arith))
          | inl (_, next) ↦
              let (conflict, conflicted, last) =
                >>=-eq-ok (validate_conflict rule.family rule.params) _ next in
              elim (or_reject-cases rule conflict _ result last) [
                | inr (reason, more, found, _, same) ↦
                    conflict-IsLoose rule.family rule.params [] (ground arith)
                | inl (_, done) ↦ absurd (ground arith)
              ]
        ]
  ]

  not_reached :
      (count : ℕ) (window max_contacts : Value) (h : IsLoose window max_contacts)
      → count < h.existing
      → at_least count max_contacts ≡ ok false
  unfolding at_least
  not_reached count window max_contacts h below =
      let counted = h.counted in let loose = h.loose in ground (arith, counted, loose)

  frequency_silent :
      (reason : ReasonCode) (window max_contacts channel : Value) (c : Candidate)
      (ctx : PolicyContext)
      → IsLoose window max_contacts
      → IsAdmissible c ctx
      → frequency_rule reason window max_contacts channel c ctx ≡ ok admissible
  unfolding frequency_rule
  frequency_silent reason window max_contacts channel c ctx h a =
      let (n, counts, day, week) = a.under_caps in
      let capped = h.capped in
      let named : is_text "24h" window ≡ str_eq h.name "24h" = ap (is_text "24h") h.named in
      elim (Bool-cases (is_text "24h" window)) [
        | inl daily ↦
            let one : h.existing ≡ 1 = ground arith in
            let quiet = not_reached n.0 window max_contacts h (omega arith) in
            ground (arith, daily, quiet)
        | inr weekly ↦
            let two : h.existing ≡ 2 = ground arith in
            let quiet = not_reached n.1 window max_contacts h (omega arith) in
            ground (arith, weekly, quiet)
      ]

  -- When validate rejects a cap on contacts as redundant and its parameters do compile to a rule, that
  -- rule appended to the hard chain changes no result: the hard chain and the longer one agree on
  -- every candidate and every ledger, whatever reason code the rule has.
  pub redundant_cap_never_binds :
      (rule : PolicyRule) (result : ValidationResult) (reason : ReasonCode)
      (compiled_rule : HardRule)
      → validate digits rule ≡ ok result
      → result.reasons ≡ cap_redundant ∷ []
      → generate_for reason rule.family rule.params ≡ ok compiled_rule
      → (c : Candidate) (ctx : PolicyContext)
      → run_rules (hard_rules ++ compiled_rule ∷ []) c ctx [] ≡ evaluate_all c ctx
  unfolding evaluate_all generate_for get lookup_or
  redundant_cap_never_binds rule result reason compiled_rule e redundant made c ctx =
      let (family, loose) = validate-IsLoose rule result e redundant in
      let built : generate_for reason contact_frequency_cap rule.params ≡ ok compiled_rule =
        subst (λ f. generate_for reason f rule.params ≡ ok compiled_rule) family made in
      let (window, w, rest) =
        >>=-eq-ok (or_raise (lookup "window" rule.params) key_error) _ built in
      let (limit, m, last) =
        >>=-eq-ok (or_raise (lookup "max_contacts" rule.params) key_error) _ rest in
      let same_window : get "window" rule.params ≡ window = ground arith in
      let same_limit : get "max_contacts" rule.params ≡ limit = ground arith in
      let binding : IsLoose window limit =
        subst (λ v. IsLoose window v) same_limit
          (subst (λ v. IsLoose v (get "max_contacts" rule.params)) same_window loose) in
      run_rules_silent c ctx hard_rules compiled_rule [] (λ res ran admitted.
        subst (λ (f : HardRule). f c ctx ≡ ok admissible) (ok_injective last)
          (frequency_silent reason window limit (get "channel" rule.params) c ctx binding
            (evaluate_all_sound c ctx res ran admitted)))
