-- ===== src/Policy/Compiler/Ir.antt =====
-- sampark/policy/compiler/ir.py: the shape of a rule. A rule's parameters are what a JSON object
-- holds, without fractions.
use sampark.Base.{Bool, true, false, Option, none, some, List, [], ◌∷◌, String, string_eq}
use sampark.Base.Int.{ℤ, pos}
use sampark.Base.Dict.{Dict, lookup_or}

pub data PredicateFamily : Type 0 where
  contact_frequency_cap time_of_day_window incentive_prohibition : PredicateFamily
  intent_suppression channel_restriction : PredicateFamily

pub data FactRef : Type 0 where
  contacts_24h contacts_7d chargeback_90d rto_flagged consent_scope : FactRef

-- `FACT_AVAILABILITY[fact]`
abbrev pub fact_availability : FactRef → Bool
fact_availability contacts_24h = true
fact_availability contacts_7d = true
fact_availability chargeback_90d = false
fact_availability rto_flagged = false
fact_availability consent_scope = false

abbrev pub valid_channels : List String
valid_channels = "sms" ∷ "whatsapp" ∷ "voice" ∷ []

abbrev pub valid_intents : List String
valid_intents = "payment_retry" ∷ "cart_recovery" ∷ "mandate_retry" ∷ "receivables_followup" ∷ []

abbrev pub valid_windows : List String
valid_windows = "24h" ∷ "7d" ∷ []

-- `Any`: a list and an object have no hash.
pub data Value : Type 0 where
  null : Value
  boolean : Bool → Value
  number : ℤ → Value
  text : String → Value
  unhashable : Value

pub record Condition : Type 0 where
  pub fact : FactRef
  pub op : String
  pub value : Value

pub record PolicyRule : Type 0 where
  pub rule_id : String
  pub family : PredicateFamily
  pub params : Dict String Value
  pub condition : Option Condition
  pub source_text : String

-- `p.get(key)`
unfoldable pub get : String → Dict String Value → Value
unfolding lookup_or
get key p = lookup_or null key p

-- A `bool` is an `int` too.
abbrev pub as_int : Value → Option ℤ
as_int (number z) = some z
as_int (boolean true) = some (pos 1)
as_int (boolean false) = some (pos 0)
as_int null = none
as_int (text s) = none
as_int unhashable = none
