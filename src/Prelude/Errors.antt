-- ===== src/Prelude/Errors.antt =====
-- Exceptions as values: a call returns or raises.
use Prim.Native.String.{String}
use mathlib.Core.Path.{◌≡◌, refl}
use mathlib.Core.Logic.{◌⊎◌, inl, inr}
use mathlib.Core.Bool.{Bool, true, false}
use mathlib.Core.Option.{Option, none, some}

-- `ValueError` with its message, sqlite's `IntegrityError` and pydantic's `ValidationError`;
-- `TypeError` is what the program raises on a NULL that it parses, and `KeyError` on a missing key.
pub data Error : Type 0 where
  value_error : String → Error
  integrity_error validation_error type_error key_error : Error

-- What a call gives: the exception that it raises, or its value.
pub data Result {ℓ} (A : Type ℓ) : Type ℓ where
  err : (exception : Error) → Result A
  ok : (value : A) → Result A

pub Result-cases {ℓ} :
    {A : Type ℓ} (r : Result A) → ((e : Error) × (r ≡ err e)) ⊎ ((a : A) × (r ≡ ok a))
Result-cases (err e) = inl (e, refl)
Result-cases (ok a) = inr (a, refl)

-- The value, or the error where there is none.
abbrev pub require {ℓ} : {A : Type ℓ} → Option A → Error → Result A
require none e = err e
require (some a) e = ok a

infixl 5 ◌>>=◌ ◌>>◌
abbrev pub ◌>>=◌ {ℓ κ} : {A : Type ℓ} {B : Type κ} → Result A → (A → Result B) → Result B
err exception >>= rest = err exception
ok value >>= rest = rest value

-- `if test: raise error`
abbrev pub raise_if : Bool → Error → Result (Unit {0})
raise_if test e = elim test [ true ↦ err e | false ↦ ok tt ]

abbrev pub ◌>>◌ {ℓ} : {B : Type ℓ} → Result (Unit {0}) → Result B → Result B
first >> rest = first >>= λ _. rest
