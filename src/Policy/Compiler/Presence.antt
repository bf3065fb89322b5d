-- ===== src/Policy/Compiler/Presence.antt =====
-- The parameters that the checks of sampark/policy/compiler/validate.py find present.
use sampark.Base.{
  ◌≡◌, refl, ap, sym, ◌∙◌, inl, inr, true, false, some, List, [], ok, arith, String, string_eq,
  ◌>>=◌, Option-cases, if◌then◌else◌,
}
use sampark.Base.Int.{ℤ, pos}
use sampark.Base.Dict.{Dict, lookup, lookup_or}
use sampark.Policy.Compiler.Ir.{
  Value, null, boolean, number, text, unhashable, get, as_int, valid_intents,
}
use sampark.Policy.Compiler.Validate.{intent_unknown, is_one_of, unless, is_count, is_null, is_text}

-- A key with a value is there.
pub lookup-get :
    (key : String) (p : Dict String Value)
    → is_null (get key p) ≡ false
    → lookup key p ≡ some (get key p)
unfolding get lookup_or
lookup-get key p h = elim (Option-cases (lookup key p)) [
  | inl absent ↦ absurd (ground arith)
  | inr (v, found) ↦ found ∙ ap some (sym (ground arith))
]

pub one_of_present :
    (names : List String) (v : Value) → is_one_of names v ≡ ok true → is_null v ≡ false
unfolding is_one_of
one_of_present names null e = absurd (ground arith)
one_of_present names (boolean b) e = refl
one_of_present names (number z) e = refl
one_of_present names (text s) e = refl
one_of_present names unhashable e = refl

pub intent_present :
    (v : Value)
    → ((if is_text "*" v then ok true else is_one_of valid_intents v) >>= λ valid.
        ok (unless valid intent_unknown))
      ≡ ok []
    → is_null v ≡ false
unfolding is_one_of
intent_present null e = absurd (ground arith)
intent_present (boolean b) e = refl
intent_present (number z) e = refl
intent_present (text s) e = refl
intent_present unhashable e = refl

pub count_present :
    (v : Value) → is_count (as_int v) ≡ true → (is_null v ≡ false) × (z : ℤ) × (as_int v ≡ some z)
count_present null e = absurd (ground arith)
count_present (boolean true) e = (refl, pos 1, refl)
count_present (boolean false) e = (refl, pos 0, refl)
count_present (number z) e = (refl, z, refl)
count_present (text s) e = absurd (ground arith)
count_present unhashable e = absurd (ground arith)
