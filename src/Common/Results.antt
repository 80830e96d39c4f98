-- ===== src/Common/Results.antt =====
-- Python functions that may raise: a result is a value or the class of the exception.
use mathlib.Core.Path.{◌≡◌, refl, ap}
use mathlib.Core.Bool.{Bool, true, false}
use mathlib.Core.Option.{Option, none, some}

-- The classes that the modelled code raises; `fuel` is none of Python's and says that a loop of the
-- model ran out of its rounds.
pub data Error : Type 0 where
  value_error index_error key_error type_error attribute_error : Error
  cbor_error availability_error runtime_error struct_error os_error timeout_error extraction_error
        overflow_error zero_division_error fuel :
      Error

pub data Result {ℓ} (V : Type ℓ) : Type ℓ where
  err : Error → Result V
  ok : V → Result V

-- `if test: raise e`
abbrev pub raise_if : Bool → Error → Result (Unit {0})
raise_if true e = err e
raise_if false e = ok tt

-- A lookup that raises where there is nothing.
abbrev pub or_raise {ℓ} : {V : Type ℓ} → Error → Option V → Result V
or_raise e none = err e
or_raise e (some v) = ok v

-- The statements of a function's body in a row; an exception ends it.
infixl 5 ◌>>=◌
abbrev pub ◌>>=◌ {ℓ κ} : {V : Type ℓ} {W : Type κ} → Result V → (V → Result W) → Result W
err raised >>= next = err raised
ok v >>= next = next v

infixl 5 ◌>>◌
abbrev pub ◌>>◌ {ℓ} : {W : Type ℓ} → Result (Unit {0}) → Result W → Result W
check >> next = check >>= λ _. next

abbrev pub value_or_default {ℓ} : {A : Type ℓ} → A → Result A → A
value_or_default d (ok x) = x
value_or_default d (err e) = d

-- A result has one value.
pub ok_value {ℓ} : {A : Type ℓ} (a b : A) → ok a ≡ ok b → a ≡ b
ok_value a b e = ap (value_or_default a) e

-- A body that returns has passed each statement.
pub >>=-eq-ok {ℓ κ} :
    {V : Type ℓ} {W : Type κ} (first : Result V) (next : V → Result W) {out : W}
    → (first >>= next) ≡ ok out
    → (v : V) × (first ≡ ok v) × (next v ≡ ok out)
>>=-eq-ok (err raised) next returned = cc
>>=-eq-ok (ok v) next returned = (v, refl, returned)

pub raise_if-eq-ok {ℓ} :
    {A : Type ℓ} (test : Bool) (e : Error) (rest : Result A) {a : A}
    → (raise_if test e >> rest) ≡ ok a
    → (test ≡ false) × (rest ≡ ok a)
raise_if-eq-ok true e rest h = cc
raise_if-eq-ok false e rest h = (refl, h)
