-- ===== src/Base/Raise.antt =====
-- Python exceptions as values. The constructors of `Error` are the exceptions that the modelled
-- code raises, by class.
use mathlib.Core.Path.{◌≡◌, refl}
use mathlib.Core.Option.{Option, none, some}
use mathlib.Core.Bool.{Bool, true, false}

pub data Error : Type 0 where
  key_error value_error type_error runtime_error assertion_error : Error
  illegal_transition unknown_grant : Error
  registration_conflict missing_migration chain_fork insufficient_holdout : Error

-- What a call does: it raises or it returns.
pub data Result {μ} (T : Type μ) : Type μ where
  err : Error → Result T
  ok : T → Result T

module _ {μ ν} {T : Type μ} {U : Type ν} where
  infixl 5 ◌>>=◌
  abbrev pub ◌>>=◌ : Result T → (T → Result U) → Result U
  err raised >>= next = err raised
  ok value >>= next = next value

  pub >>=-eq-ok :
      (call : Result T) (next : T → Result U) {u : U}
      → (call >>= next) ≡ ok u
      → (t : T) × (call ≡ ok t) × (next t ≡ ok u)
  >>=-eq-ok (err raised) next e = cc
  >>=-eq-ok (ok value) next e = (value, refl, e)

abbrev pub or_raise {μ} : {T : Type μ} → Option T → Error → Result T
or_raise (some value) raised = ok value
or_raise none raised = err raised

abbrev pub raise_if : Bool → Error → Result (Unit {0})
raise_if false raised = ok tt
raise_if true raised = err raised

infixl 5 ◌>>◌
abbrev pub ◌>>◌ {μ} : {U : Type μ} → Result (Unit {0}) → Result U → Result U
call >> then_call = call >>= λ _. then_call

-- Equal results hold equal values.
pub ok_injective {μ} : {T : Type μ} {a b : T} → ok a ≡ ok b → a ≡ b
ok_injective e = cc

pub ok_first :
    {A B : Type 0} (a a' : A) (b b' : B)
    → ◌≡◌ {A = Result (A × B)} (ok (a, b)) (ok (a', b'))
    → a ≡ a'
ok_first a a' b b' e = cc

pub ok_second :
    {A B : Type 0} (a a' : A) (b b' : B)
    → ◌≡◌ {A = Result (A × B)} (ok (a, b)) (ok (a', b'))
    → b ≡ b'
ok_second a a' b b' e = cc

pub ok_first_of_three :
    {A B C : Type 0} (a a' : A) (b b' : B) (c c' : C)
    → ◌≡◌ {A = Result (A × B × C)} (ok (a, b, c)) (ok (a', b', c'))
    → a ≡ a'
ok_first_of_three a a' b b' c c' e = cc

pub some_injective {μ} : {T : Type μ} {a b : T} → some a ≡ some b → a ≡ b
some_injective e = cc
