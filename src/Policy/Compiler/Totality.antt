-- ===== src/Policy/Compiler/Totality.antt =====
-- What an accepted rule compiles to (sampark/policy/compiler/generate.py), and what of it does not
-- depend on its condition.
use sampark.Base.{
  ℕ, ◌≡◌, refl, ap, ◌∙◌, inl, inr, Bool, true, false, not, ◌&&◌, none, some, [], Result, ok, arith,
  String, string_eq, ◌>>=◌, >>=-eq-ok, Bool-cases, if◌then◌else◌,
}
use sampark.Base.Int.{ℤ, pos, leb_ℤ}
use sampark.Base.Dict.{Dict}
use sampark.Contracts.{ReasonCode, compiled}
use sampark.Allocator.Candidate.{Candidate}
use sampark.Policy.Verdict.{HardVerdict, admissible, PolicyContext}
use sampark.Policy.Hard.{HardRule}
use sampark.Policy.Compiler.Ir.{
  PredicateFamily, contact_frequency_cap, time_of_day_window, incentive_prohibition,
  intent_suppression, channel_restriction, Value, null, boolean, number, text, unhashable,
  PolicyRule, get, as_int, valid_windows, valid_channels,
}
use sampark.Policy.Compiler.Validate.{
  Digits, ValidationResult, accepted, Reason, forbidden_before_malformed, forbidden_after_malformed,
  validate, validate_bounds, is_one_of, check_hhmm, is_count, is_null, is_text, is_valid_hhmm,
  check_rule,
}
use sampark.Policy.Compiler.Presence.{lookup-get, one_of_present, intent_present, count_present}
use sampark.Policy.Compiler.Acceptance.{validate-IsClean}
use sampark.Policy.Compiler.Generate.{
  generate_rule_function, generate_for, frequency_rule, time_rule, incentive_rule, intent_rule,
  channel_rule, at_least, text_below, is_too_early, is_too_late, local_hhmm,
}

abbrev Answers : {T : Type 0} → Result T → Type 0
Answers {T} call = (t : T) × (call ≡ ok t)

then_answers :
    {T U : Type 0} {call : Result T} {t : T} (next : T → Result U)
    → call ≡ ok t
    → Answers (next t)
    → Answers (call >>= next)
then_answers next e (u, h) = (u, ap (λ r. r >>= next) e ∙ h)

answer : {T : Type 0} (t : T) → Answers (ok t)
answer t = (t, refl)

at_least-answers : (count : ℕ) (v : Value) (z : ℤ) → as_int v ≡ some z → Answers (at_least count v)
unfolding at_least
at_least-answers count v z counted = (leb_ℤ z (pos count), ground (arith, counted))

module _ (digits : Digits) where
  -- A rule of the chain that answers whenever the ledger can count the contacts.
  abbrev IsTotal : HardRule → Type 0
  IsTotal f =
      (c : Candidate) (ctx : PolicyContext) (n : ℕ × ℕ)
      → ctx.ledger.contact_counts c.customer_id ctx.decision_at ≡ ok n
      → Answers (f c ctx)

  -- A bound of the time of day that passed is absent or a text.
  check_hhmm-answers :
      (hhmm : String) (v : Value) (reason : Reason)
      → check_hhmm digits v reason ≡ ok []
      → ((b : Bool) × (is_too_early hhmm v ≡ ok b)) × ((b : Bool) × (is_too_late hhmm v ≡ ok b))
  unfolding check_hhmm is_valid_hhmm is_too_early is_too_late text_below
  check_hhmm-answers hhmm null reason e = ((false, refl), (false, refl))
  check_hhmm-answers hhmm (boolean b) reason e = absurd (ground arith)
  check_hhmm-answers hhmm (number z) reason e = absurd (ground arith)
  check_hhmm-answers hhmm (text s) reason e = ((_, refl), (_, refl))
  check_hhmm-answers hhmm unhashable reason e = absurd (ground arith)

  frequency_rule-IsTotal :
      (reason : ReasonCode) (window max_contacts channel : Value) (z : ℤ)
      → as_int max_contacts ≡ some z
      → IsTotal (frequency_rule reason window max_contacts channel)
  unfolding frequency_rule
  frequency_rule-IsTotal reason window max_contacts channel z counted c ctx n counts =
      elim (Bool-cases
        (not (is_null channel) && not (is_text c.request.requested_channel channel))) [
          | inl other ↦ rw other (answer admissible)
          | inr ours ↦ rw ours (
              then_answers _ counts
                (then_answers _ (at_least-answers _ max_contacts z counted).1 (answer _)))
        ]

  time_rule-IsTotal :
      (reason : ReasonCode) (channel before after : Value) (r r' : Reason)
      → check_hhmm digits before r ≡ ok []
      → check_hhmm digits after r' ≡ ok []
      → IsTotal (time_rule reason channel before after)
  unfolding time_rule
  time_rule-IsTotal reason channel before after r r' b a c ctx n counts =
      let hhmm = local_hhmm c.proposed_send_after in
      let (early, e) = (check_hhmm-answers hhmm before r b).0 in
      let (late, l) = (check_hhmm-answers hhmm after r' a).1 in
      elim (Bool-cases (is_text c.request.requested_channel channel)) [
        | inr other ↦ rw other (answer admissible)
        | inl ours ↦ elim (Bool-cases early) [
          | inl at_once ↦ rw ours (then_answers _ e (rw at_once (answer _)))
          | inr later ↦ rw ours (then_answers _ e (rw later (then_answers _ l (answer _))))
        ]
      ]

  abbrev Compiles : ReasonCode → PredicateFamily → Dict String Value → Type 0
  Compiles reason family p = (f : HardRule) × (generate_for reason family p ≡ ok f) × IsTotal f

  frequency-Compiles :
      (reason : ReasonCode) (p : Dict String Value)
      → validate_bounds digits contact_frequency_cap p ≡ ok []
      → Compiles reason contact_frequency_cap p
  unfolding validate_bounds generate_for
  frequency-Compiles reason p e =
      let (known, w, rest) = >>=-eq-ok (is_one_of valid_windows (get "window" p)) _ e in
      let (served, _, last) =
        >>=-eq-ok
          (if is_null (get "channel" p)
            then ok true
            else is_one_of valid_channels (get "channel" p))
          _ rest in
      let sure : known ≡ true = ground arith in
      let count : is_count (as_int (get "max_contacts" p)) ≡ true = ground arith in
      let (there, z, counted) = count_present (get "max_contacts" p) count in
      let window =
        lookup-get "window" p (one_of_present valid_windows (get "window" p) (w ∙ ap ok sure)) in
      let limit = lookup-get "max_contacts" p there in
      (
        frequency_rule reason (get "window" p) (get "max_contacts" p) (get "channel" p),
        rw window (rw limit refl),
        frequency_rule-IsTotal reason (get "window" p) (get "max_contacts" p) (get "channel" p) z
            counted,
      )

  time-Compiles :
      (reason : ReasonCode) (p : Dict String Value)
      → validate_bounds digits time_of_day_window p ≡ ok []
      → Compiles reason time_of_day_window p
  unfolding validate_bounds generate_for
  time-Compiles reason p e =
      let (served, w, rest) = >>=-eq-ok (is_one_of valid_channels (get "channel" p)) _ e in
      let (early, b, more) =
        >>=-eq-ok (check_hhmm digits (get "forbidden_before" p) forbidden_before_malformed) _
          rest in
      let (late, a, last) =
        >>=-eq-ok (check_hhmm digits (get "forbidden_after" p) forbidden_after_malformed) _ more in
      let sure : served ≡ true = ground arith in
      let no_early : early ≡ [] = ground arith in
      let no_late : late ≡ [] = ground arith in
      let channel =
        lookup-get "channel" p (one_of_present valid_channels (get "channel" p) (w ∙ ap ok sure)) in
      (
        time_rule reason (get "channel" p) (get "forbidden_before" p) (get "forbidden_after" p),
        rw channel refl,
        time_rule-IsTotal reason (get "channel" p) (get "forbidden_before" p)
            (get "forbidden_after" p) _ _ (b ∙ ap ok no_early) (a ∙ ap ok no_late),
      )

  intent-Compiles :
      (reason : ReasonCode) (p : Dict String Value)
      → validate_bounds digits intent_suppression p ≡ ok []
      → Compiles reason intent_suppression p
  unfolding validate_bounds generate_for
  intent-Compiles reason p e =
      let known : is_null (get "intent" p) ≡ false = intent_present (get "intent" p) e in
      (
        intent_rule reason (get "intent" p),
        rw (lookup-get "intent" p known) refl,
        λ c ctx n counts. answer _,
      )

  channel-Compiles :
      (reason : ReasonCode) (p : Dict String Value)
      → validate_bounds digits channel_restriction p ≡ ok []
      → Compiles reason channel_restriction p
  unfolding validate_bounds generate_for
  channel-Compiles reason p e =
      let (served, w, last) = >>=-eq-ok (is_one_of valid_channels (get "channel" p)) _ e in
      let sure : served ≡ true = ground arith in
      let channel =
        lookup-get "channel" p (one_of_present valid_channels (get "channel" p) (w ∙ ap ok sure)) in
      (channel_rule reason (get "channel" p), rw channel refl, λ c ctx n counts. answer _)

  incentive-Compiles :
      (reason : ReasonCode) (p : Dict String Value)
      → validate_bounds digits incentive_prohibition p ≡ ok []
      → Compiles reason incentive_prohibition p
  unfolding validate_bounds generate_for
  incentive-Compiles reason p e = (incentive_rule reason, refl, λ c ctx n counts. answer _)

  generate_for-Compiles :
      (reason : ReasonCode) (family : PredicateFamily) (p : Dict String Value)
      → validate_bounds digits family p ≡ ok []
      → Compiles reason family p
  generate_for-Compiles reason contact_frequency_cap p e = frequency-Compiles reason p e
  generate_for-Compiles reason time_of_day_window p e = time-Compiles reason p e
  generate_for-Compiles reason intent_suppression p e = intent-Compiles reason p e
  generate_for-Compiles reason channel_restriction p e = channel-Compiles reason p e
  generate_for-Compiles reason incentive_prohibition p e = incentive-Compiles reason p e

  -- Every rule that validate accepts compiles: no key is missing, and the rule that comes out answers
  -- every candidate, whenever the ledger can count the customer's contacts.
  pub accepted_rule_is_total :
      (rule : PolicyRule) (result : ValidationResult)
      → validate digits rule ≡ ok result
      → result.verdict ≡ accepted
      → (f : HardRule) × (generate_rule_function result ≡ ok f)
        × ((c : Candidate) (ctx : PolicyContext) (n : ℕ × ℕ)
            → ctx.ledger.contact_counts c.customer_id ctx.decision_at ≡ ok n
            → (v : HardVerdict) × (f c ctx ≡ ok v))
  unfolding generate_rule_function
  accepted_rule_is_total rule result e a =
      let (clean, same) = validate-IsClean digits rule result e a in
      let (f, made, total) =
        generate_for-Compiles (compiled rule.rule_id) rule.family rule.params clean.bounds in
      (f, ap generate_rule_function same ∙ made, total)

  -- An accepted rule with a condition compiles to the rule that it compiles to without one: validate
  -- accepts it without the condition as well, and the two functions are the same.
  pub condition_has_no_effect :
      (rule : PolicyRule) (result : ValidationResult)
      → validate digits rule ≡ ok result
      → result.verdict ≡ accepted
      → (bare : ValidationResult) × (validate digits (record rule { condition = none }) ≡ ok bare)
        × (bare.verdict ≡ accepted)
        × (generate_rule_function bare ≡ generate_rule_function result)
  unfolding generate_rule_function validate check_rule
  condition_has_no_effect rule result e a =
      let (clean, same) = validate-IsClean digits rule result e a in
      (
        record { verdict = accepted; rule = record rule { condition = none }; reasons = [] },
        rw clean.bounds (rw clean.conflict refl),
        refl,
        rw same refl,
      )
