-- ===== src/Policy/Compiler/Validate.antt =====
-- sampark/policy/compiler/validate.py. A reason is the name of the check that failed, in place of its
-- message. What `str.isdigit` and `int` know of a character is an argument.
use sampark.Base.{
  ℕ, ◌+◌, ◌*◌, Bool, true, false, not, ◌&&◌, Option, none, some, List, [], ◌∷◌, ◌++◌, String,
  str_eq, string_eq, contains, leb, if◌then◌else◌, Result, ok, err, value_error, type_error, ◌>>=◌,
  ◌==◌, or_raise, ◌≡◌, refl, ◌⊎◌, inl, inr, arith,
}
use Prim.Native.Char.{Char, code}
use sampark.Base.Int.{ℤ, pos, leb_ℤ}
use sampark.Base.Dict.{Dict, lookup_or}
use sampark.Policy.Compiler.Ir.{
  PredicateFamily, contact_frequency_cap, time_of_day_window, incentive_prohibition,
  intent_suppression, channel_restriction, fact_availability, valid_channels, valid_intents,
  valid_windows, Value, null, boolean, number, text, unhashable, PolicyRule, get, as_int,
}

pub data Verdict : Type 0 where
  accepted fact_unavailable rejected : Verdict

pub data Reason : Type 0 where
  fact_not_readable window_unknown max_contacts_not_a_count channel_unknown : Reason
  no_forbidden_time forbidden_before_malformed forbidden_after_malformed tz_unsupported : Reason
  intent_unknown cap_redundant : Reason

pub record ValidationResult : Type 0 where
  pub verdict : Verdict
  pub rule : PolicyRule
  pub reasons : List Reason

-- `c.isdigit()`, and the value of a character that `int` accepts.
pub record Digits : Type 0 where
  pub isdigit : Char → Bool
  pub decimal : Char → Option ℕ

abbrev pub existing_contact_cap : String → Option ℕ
existing_contact_cap window =
    if str_eq window "24h" then some 1 else if str_eq window "7d" then some 2 else none

-- `value in names`, which asks for the hash of the value.
unfoldable pub is_one_of : List String → Value → Result Bool
is_one_of names (text s) = ok (contains s names)
is_one_of names unhashable = err type_error
is_one_of names null = ok false
is_one_of names (boolean b) = ok false
is_one_of names (number z) = ok false

abbrev pub unless : Bool → Reason → List Reason
unless true reason = []
unless false reason = reason ∷ []

abbrev pub is_null : Value → Bool
is_null null = true
is_null (boolean b) = false
is_null (number z) = false
is_null (text s) = false
is_null unhashable = false

-- `isinstance(value, int) and value >= 0`
abbrev pub is_count : Option ℤ → Bool
is_count none = false
is_count (some z) = leb_ℤ (pos 0) z

abbrev pub is_text : String → Value → Bool
is_text s (text t) = str_eq t s
is_text s null = false
is_text s (boolean b) = false
is_text s (number z) = false
is_text s unhashable = false

abbrev pub is_redundant : Option ℕ → Option ℤ → Bool
is_redundant (some existing) (some max_contacts) = leb_ℤ (pos existing) max_contacts
is_redundant none max_contacts = false
is_redundant (some existing) none = false

-- `_EXISTING_CONTACT_CAPS.get(window)`
unfoldable pub cap_of : Value → Result (Option ℕ)
cap_of (text window) = ok (existing_contact_cap window)
cap_of unhashable = err type_error
cap_of null = ok none
cap_of (boolean b) = ok none
cap_of (number z) = ok none

-- `_validate_conflict`
unfoldable pub validate_conflict : PredicateFamily → Dict String Value → Result (List Reason)
unfolding cap_of get
validate_conflict contact_frequency_cap p = do
  existing ← cap_of (get "window" p)
  ok (unless (not (is_redundant existing (as_int (get "max_contacts" p)))) cap_redundant)
validate_conflict time_of_day_window p = ok []
validate_conflict intent_suppression p = ok []
validate_conflict channel_restriction p = ok []
validate_conflict incentive_prohibition p = ok []

abbrev pub is_readable : PolicyRule → Bool
is_readable rule = elim rule.condition [
  | none ↦ true
  | some condition ↦ fact_availability condition.fact
]

-- A reason that was found rejects the rule.
abbrev pub or_reject : PolicyRule → List Reason → Result ValidationResult → Result ValidationResult
or_reject rule [] next = next
or_reject rule (reason ∷ more) next =
    ok (record { verdict = rejected; rule = rule; reasons = reason ∷ more })

unfoldable pub characters : String → List Char
characters String.[] = []
characters (String.◌∷◌ c s) = c ∷ characters s

module _ (digits : Digits) where
  -- `int(text)` of two characters.
  abbrev pub two_digits : Char → Char → Result ℕ
  two_digits c d = do
    tens ← or_raise (digits.decimal c) value_error
    ones ← or_raise (digits.decimal d) value_error
    ok (10 * tens + ones)

  abbrev pub both_digits : Char → Char → Bool
  both_digits c d = digits.isdigit c && digits.isdigit d

  -- Exactly five characters, `HH:MM`.
  unfoldable pub is_hhmm : List Char → Result Bool
  is_hhmm (h ∷ i ∷ sep ∷ m ∷ n ∷ []) =
      if not (code sep == 58)
      then ok false
      else if not (both_digits h i && both_digits m n)
      then ok false
      else (do
        hour ← two_digits h i
        if leb hour 23 then (do minute ← two_digits m n; ok (leb minute 59)) else ok false)
  is_hhmm _ = ok false

  -- `_is_valid_hhmm`
  unfoldable pub is_valid_hhmm : Value → Result Bool
  unfolding is_hhmm characters
  is_valid_hhmm (text s) = is_hhmm (characters s)
  is_valid_hhmm _ = ok false

  -- Both keys of the loop: an absent one is not checked.
  unfoldable pub check_hhmm : Value → Reason → Result (List Reason)
  unfolding is_valid_hhmm
  check_hhmm null reason = ok []
  check_hhmm value reason = do valid ← is_valid_hhmm value; ok (unless valid reason)

  -- `_validate_bounds`
  unfoldable pub validate_bounds : PredicateFamily → Dict String Value → Result (List Reason)
  unfolding is_one_of check_hhmm get lookup_or
  validate_bounds contact_frequency_cap p = do
    window_valid ← is_one_of valid_windows (get "window" p)
    let window = unless window_valid window_unknown
    let max_contacts = unless (is_count (as_int (get "max_contacts" p))) max_contacts_not_a_count
    channel_valid ←
        (if is_null (get "channel" p) then ok true else is_one_of valid_channels (get "channel" p))
    ok (window ++ max_contacts ++ unless channel_valid channel_unknown)
  validate_bounds time_of_day_window p = do
    channel_valid ← is_one_of valid_channels (get "channel" p)
    let given =
        unless (not (is_null (get "forbidden_before" p) && is_null (get "forbidden_after" p)))
          no_forbidden_time
    before ← check_hhmm (get "forbidden_before" p) forbidden_before_malformed
    after ← check_hhmm (get "forbidden_after" p) forbidden_after_malformed
    let tz = unless (is_text "Asia/Kolkata" (lookup_or (text "Asia/Kolkata") "tz" p)) tz_unsupported
    ok (unless channel_valid channel_unknown ++ given ++ before ++ after ++ tz)
  validate_bounds intent_suppression p = do
    valid ←
        (if is_text "*" (get "intent" p) then ok true else is_one_of valid_intents (get "intent" p))
    ok (unless valid intent_unknown)
  validate_bounds channel_restriction p = do
    valid ← is_one_of valid_channels (get "channel" p)
    ok (unless valid channel_unknown)
  validate_bounds incentive_prohibition p = ok []

  -- The checks behind the first, which asks for the fact.
  unfoldable pub check_rule : PolicyRule → Result ValidationResult
  unfolding validate_bounds validate_conflict
  check_rule rule = do
    bounds ← validate_bounds rule.family rule.params
    or_reject rule bounds (do
      conflict ← validate_conflict rule.family rule.params
      or_reject rule conflict (ok (record { verdict = accepted; rule = rule; reasons = [] })))

  unfoldable pub validate : PolicyRule → Result ValidationResult
  unfolding check_rule
  validate rule =
      if is_readable rule
      then check_rule rule
      else ok (record { verdict = fact_unavailable; rule = rule; reasons = fact_not_readable ∷ [] })

pub or_reject-cases :
    (rule : PolicyRule) (found : List Reason) (next : Result ValidationResult)
    (result : ValidationResult)
    → or_reject rule found next ≡ ok result
    → ((found ≡ []) × (next ≡ ok result))
      ⊎ ((reason : Reason) × (more : List Reason) × (found ≡ reason ∷ more)
          × (result.verdict ≡ rejected)
          × (result.reasons ≡ reason ∷ more))
or_reject-cases rule [] next result e = inl (refl, e)
or_reject-cases rule (reason ∷ more) next result e =
    inr (reason, more, refl, ground arith, ground arith)
