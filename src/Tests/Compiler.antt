-- ===== src/Tests/Compiler.antt =====
-- sampark/policy/compiler/ at concrete rules, with the ASCII digits.
use sampark.Budget.Windows.{next_window_start}
use sampark.Base.{
  ◌||◌, ◌==◌, err, value_error, ℕ, ◌-◌, ◌≡◌, ◌&&◌, true, [], ◌∷◌, ◌++◌, none, some, refl, ok, leb,
  if◌then◌else◌,
}
use Prim.Native.Char.{code}
use sampark.Base.Int.{pos}
use sampark.Contracts.{compiled}
use sampark.Allocator.Candidate.{Candidate}
use sampark.Policy.Verdict.{HardVerdict, admissible, defer, PolicyContext, view_of}
use sampark.Policy.Hard.{HardRule, HardFilterResult, run_rules, hard_rules, evaluate_all}
use sampark.Policy.Hard.Chain.{is_inadmissible}
use sampark.Policy.Compiler.Ir.{
  PolicyRule, contact_frequency_cap, time_of_day_window, channel_restriction, text, number, null,
  contacts_7d, rto_flagged,
}
use sampark.Policy.Compiler.Validate.{
  Digits, ValidationResult, accepted, fact_unavailable, rejected, cap_redundant, fact_not_readable,
  forbidden_before_malformed, validate,
}
use sampark.Policy.Compiler.Generate.{
  frequency_rule, channel_rule, time_rule, generate_for, generate_rule_function,
}
use sampark.Policy.Compiler.Redundancy.{redundant_cap_never_binds}
use sampark.Policy.Compiler.Totality.{accepted_rule_is_total, condition_has_no_effect}
use sampark.Policy.Compiler.Effect.{appended_rules_restrict}
use sampark.Tests.Data.{candidate, empty_ledger, nine}

abbrev ascii : Digits
ascii = record {
  isdigit = λ c. leb 48 (code c) && leb (code c) 57;
  decimal = λ c. if leb 48 (code c) && leb (code c) 57 then some (code c - 48) else none;
}

abbrev context : PolicyContext
context = record { ledger = view_of empty_ledger; decision_at = nine }

-- "At most two contacts in seven days", which the system guarantees already.
abbrev weekly_cap : PolicyRule
weekly_cap = record {
  rule_id = "weekly";
  family = contact_frequency_cap;
  params = ("window", text "7d") ∷ ("max_contacts", number (pos 2)) ∷ [];
  condition = none;
  source_text = "";
}

abbrev weekly_result : ValidationResult
weekly_result = record { verdict = rejected; rule = weekly_cap; reasons = cap_redundant ∷ [] }

weekly_rejected : validate ascii weekly_cap ≡ ok weekly_result
unfolding validate
weekly_rejected = refl

abbrev weekly_rule : HardRule
weekly_rule = frequency_rule (compiled "weekly") (text "7d") (number (pos 2)) null

weekly_made :
    generate_for (compiled "weekly") contact_frequency_cap weekly_cap.params ≡ ok weekly_rule
unfolding generate_for
weekly_made = refl

redundant_cap_never_binds_example :
    run_rules (hard_rules ++ weekly_rule ∷ []) candidate context [] ≡ evaluate_all candidate context
redundant_cap_never_binds_example =
    redundant_cap_never_binds ascii weekly_cap weekly_result (compiled "weekly") weekly_rule
      weekly_rejected refl weekly_made candidate context

-- "If the customer was contacted in the last seven days, never use WhatsApp."
abbrev no_whatsapp : PolicyRule
no_whatsapp = record {
  rule_id = "no_whatsapp";
  family = channel_restriction;
  params = ("channel", text "whatsapp") ∷ [];
  condition = some (record { fact = contacts_7d; op = "gt"; value = number (pos 0) });
  source_text = "";
}

abbrev no_whatsapp_result : ValidationResult
no_whatsapp_result = record { verdict = accepted; rule = no_whatsapp; reasons = [] }

no_whatsapp_accepted : validate ascii no_whatsapp ≡ ok no_whatsapp_result
unfolding validate
no_whatsapp_accepted = refl

accepted_rule_is_total_example :
    (f : HardRule) × (generate_rule_function no_whatsapp_result ≡ ok f)
    × ((c : Candidate) (ctx : PolicyContext) (n : ℕ × ℕ)
        → ctx.ledger.contact_counts c.customer_id ctx.decision_at ≡ ok n
        → (v : HardVerdict) × (f c ctx ≡ ok v))
accepted_rule_is_total_example =
    accepted_rule_is_total ascii no_whatsapp no_whatsapp_result no_whatsapp_accepted refl

condition_has_no_effect_example :
    (bare : ValidationResult) × (validate ascii (record no_whatsapp { condition = none }) ≡ ok bare)
    × (bare.verdict ≡ accepted)
    × (generate_rule_function bare ≡ generate_rule_function no_whatsapp_result)
condition_has_no_effect_example =
    condition_has_no_effect ascii no_whatsapp no_whatsapp_result no_whatsapp_accepted refl

-- An unavailable fact comes before every other check.
rto_unreadable :
    validate ascii (record no_whatsapp {
      condition = some (record { fact = rto_flagged; op = "exists"; value = null });
    })
    ≡ ok (record {
      verdict = fact_unavailable;
      rule = record no_whatsapp {
        condition = some (record { fact = rto_flagged; op = "exists"; value = null });
      };
      reasons = fact_not_readable ∷ [];
    })
unfolding validate
rto_unreadable = refl

-- "No SMS before 10:00 or after 20:00", for a candidate proposed at 09:00.
abbrev mornings : PolicyRule
mornings = record {
  rule_id = "mornings";
  family = time_of_day_window;
  params =
      ("channel", text "sms")
      ∷ ("forbidden_before", text "10:00")
      ∷ ("forbidden_after", text "20:00")
      ∷ [];
  condition = none;
  source_text = "";
}

mornings_accepted :
    validate ascii mornings ≡ ok (record { verdict = accepted; rule = mornings; reasons = [] })
unfolding validate
mornings_accepted = refl

too_early :
    time_rule (compiled "mornings") (text "sms") (text "10:00") (text "20:00") candidate context
    ≡ ok (defer (compiled "mornings") 1_728_099_000_000_000)
unfolding time_rule next_window_start
too_early = refl

in_time :
    time_rule (compiled "mornings") (text "sms") (text "09:00") (text "20:00") candidate context
    ≡ ok admissible
unfolding time_rule
in_time = refl

malformed :
    validate ascii (record mornings {
      params = ("channel", text "sms") ∷ ("forbidden_before", text "24:00") ∷ [];
    })
    ≡ ok (record {
      verdict = rejected;
      rule = record mornings {
        params = ("channel", text "sms") ∷ ("forbidden_before", text "24:00") ∷ [];
      };
      reasons = forbidden_before_malformed ∷ [];
    })
unfolding validate
malformed = refl

appended_rules_restrict_example :
    ((res : HardFilterResult)
      → evaluate_all candidate context ≡ ok res
      → is_inadmissible candidate context res.verdict ≡ true
      → run_rules
          (hard_rules ++ channel_rule (compiled "no_sms") (text "sms") ∷ [])
          candidate
          context
          []
        ≡ ok res)
    × ((res : HardFilterResult)
        → run_rules
            (hard_rules ++ channel_rule (compiled "no_sms") (text "sms") ∷ [])
            candidate
            context
            []
          ≡ ok res
        → res.verdict ≡ admissible
        → (hard : HardFilterResult) × (evaluate_all candidate context ≡ ok hard)
          × (hard.verdict ≡ admissible))
appended_rules_restrict_example =
    appended_rules_restrict candidate context (channel_rule (compiled "no_sms") (text "sms") ∷ [])

-- A superscript two is a digit to `str.isdigit` and none to `int`: the check raises.
abbrev superscripts : Digits
superscripts = record ascii { isdigit = λ c. leb 48 (code c) && leb (code c) 57 || code c == 178 }

superscript_raises :
    validate superscripts (record mornings {
      params = ("channel", text "sms") ∷ ("forbidden_before", text "²0:00") ∷ [];
    })
    ≡ err value_error
unfolding validate
superscript_raises = refl
