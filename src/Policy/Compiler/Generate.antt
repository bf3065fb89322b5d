-- ===== src/Policy/Compiler/Generate.antt =====
-- sampark/policy/compiler/generate.py: the hard rule that an accepted rule becomes. The program text
-- that it also renders is not modelled.
use sampark.Base.{
  ℕ, ◌+◌, ◌/◌, ◌%◌, Bool, true, false, not, ◌&&◌, ◌||◌, none, some, String, string_eq, ltb,
  if◌then◌else◌, Result, ok, err, key_error, runtime_error, type_error, or_raise, ◌>>=◌,
}
use Prim.Native.String
use Prim.Native.Nat.{Ordering}
use sampark.Base.Int.{pos, leb_ℤ}
use sampark.Base.Dict.{Dict, lookup}
use sampark.Contracts.{Instant, ReasonCode, compiled}
use sampark.Budget.Windows.{local_hour, ist_offset, usec_per_day, next_window_start}
use sampark.Policy.Verdict.{admissible, deny, defer}
use sampark.Policy.Hard.{HardRule}
use sampark.Policy.Compiler.Ir.{
  PredicateFamily, contact_frequency_cap, time_of_day_window, incentive_prohibition,
  intent_suppression, channel_restriction, Value, text, get, as_int,
}
use sampark.Policy.Compiler.Validate.{
  accepted, fact_unavailable, rejected, ValidationResult, is_null, is_text,
}

-- `count >= value`
unfoldable pub at_least : ℕ → Value → Result Bool
at_least count value = elim (as_int value) [
  | none ↦ err type_error
  | some z ↦ ok (leb_ℤ z (pos count))
]

abbrev text_ltb : String → String → Bool
text_ltb s t = elim (Prim.Native.String.compare s t) [ Ordering.lt ↦ true | _ ↦ false ]

-- `s < value`
unfoldable pub text_below : String → Value → Result Bool
text_below s (text t) = ok (text_ltb s t)
text_below s _ = err type_error

-- `instant.astimezone(IST).strftime("%H:%M")`
abbrev pub two_places : ℕ → String
two_places n =
    String.◌∷◌ (Prim.Native.String.char_at "0123456789" (n / 10))
      (String.◌∷◌ (Prim.Native.String.char_at "0123456789" (n % 10)) String.[])

abbrev usec_per_minute : ℕ
usec_per_minute = 60_000_000

unfoldable pub local_hhmm : Instant → String
unfolding local_hour
local_hhmm instant =
    let minute = ((instant + ist_offset) % usec_per_day) / usec_per_minute % 60 in
    Prim.Native.String.◌++◌ (two_places (local_hour instant))
      (Prim.Native.String.◌++◌ ":" (two_places minute))

-- `forbidden_before is not None and local_hhmm < forbidden_before`
unfoldable pub is_too_early : String → Value → Result Bool
unfolding text_below
is_too_early hhmm value = if is_null value then ok false else text_below hhmm value

-- `forbidden_after is not None and local_hhmm >= forbidden_after`
unfoldable pub is_too_late : String → Value → Result Bool
unfolding text_below
is_too_late hhmm value =
    if is_null value then ok false else (do below ← text_below hhmm value; ok (not below))

-- The five closures. The reason is `compiled.` and the rule's id.
module _ (reason : ReasonCode) where
  unfoldable pub frequency_rule : Value → Value → Value → HardRule
  unfolding at_least
  frequency_rule window max_contacts channel c ctx =
      if not (is_null channel) && not (is_text c.request.requested_channel channel)
      then ok admissible
      else (do
        (c24, c7) ← ctx.ledger.contact_counts c.customer_id ctx.decision_at
        reached ← at_least (if is_text "24h" window then c24 else c7) max_contacts
        ok (if reached then defer reason (next_window_start c.window_id) else admissible))

  -- `or` looks at the second bound only when the first is kept.
  unfoldable pub time_rule : Value → Value → Value → HardRule
  unfolding is_too_early is_too_late local_hhmm
  time_rule channel forbidden_before forbidden_after c ctx =
      if not (is_text c.request.requested_channel channel) then ok admissible else (do
        early ← is_too_early (local_hhmm c.proposed_send_after) forbidden_before
        out_of_window ←
            (if early
              then ok true
              else is_too_late (local_hhmm c.proposed_send_after) forbidden_after)
        ok (if out_of_window then defer reason (next_window_start c.window_id) else admissible))

  unfoldable pub incentive_rule : HardRule
  incentive_rule c ctx =
      ok (if ltb 0 c.request.requested_max_incentive_bps then deny reason else admissible)

  unfoldable pub intent_rule : Value → HardRule
  intent_rule intent c ctx =
      ok (if is_text "*" intent || is_text c.request.intent intent then deny reason else admissible)

  unfoldable pub channel_rule : Value → HardRule
  channel_rule channel c ctx =
      ok (if is_text c.request.requested_channel channel then deny reason else admissible)

  -- `rule.params["..."]` raises on an absent key.
  unfoldable pub generate_for : PredicateFamily → Dict String Value → Result HardRule
  unfolding frequency_rule time_rule incentive_rule intent_rule channel_rule get lookup
  generate_for contact_frequency_cap p = do
    window ← or_raise (lookup "window" p) key_error
    max_contacts ← or_raise (lookup "max_contacts" p) key_error
    ok (frequency_rule window max_contacts (get "channel" p))
  generate_for time_of_day_window p = do
    channel ← or_raise (lookup "channel" p) key_error
    ok (time_rule channel (get "forbidden_before" p) (get "forbidden_after" p))
  generate_for incentive_prohibition p = ok incentive_rule
  generate_for intent_suppression p = do
    intent ← or_raise (lookup "intent" p) key_error
    ok (intent_rule intent)
  generate_for channel_restriction p = do
    channel ← or_raise (lookup "channel" p) key_error
    ok (channel_rule channel)

-- `GenerationError` is a RuntimeError.
unfoldable pub generate_rule_function : ValidationResult → Result HardRule
unfolding generate_for
generate_rule_function result = elim result.verdict [
  | accepted ↦ generate_for (compiled result.rule.rule_id) result.rule.family result.rule.params
  | fact_unavailable ↦ err runtime_error
  | rejected ↦ err runtime_error
]
