-- ===== src/Failure.antt =====
-- The exceptions that the modelled operations raise, and results that may be one
-- (resourcey/core/errors.py and the errors of resourcey/core/service.py).
use Prim.Native.String.{String}
use resourcey.Prelude.{◌≡◌, refl, ap}
use resourcey.Value.{Value}

pub data Failure : Type 0 where
  type_error value_error key_error stop_iteration : Failure
  service_error config_error invalid_input unsupported_filter argument_error : Failure
  not_found : Value → Failure
  forbidden : String → String → Failure

-- What an operation returns, or the exception that it raises.
pub data Result {ℓ} (T : Type ℓ) : Type ℓ where
  ok : T → Result T
  err : Failure → Result T

-- An exception skips the rest of a block.
infixl 5 ◌>>=◌
abbrev pub ◌>>=◌ {ℓ μ} : {T : Type ℓ} {U : Type μ} → Result T → (T → Result U) → Result U
err raised >>= next = err raised
ok value >>= next = next value

-- A block that returns went through its first operation.
pub >>=-eq-ok {ℓ μ} :
    {T : Type ℓ} {U : Type μ} (first : Result T) (next : T → Result U) {result : U}
    → (first >>= next) ≡ ok result
    → (value : T) × (first ≡ ok value) × (next value ≡ ok result)
>>=-eq-ok (err raised) next e = cc
>>=-eq-ok (ok value) next e = (value, refl, e)

abbrev or_value {ℓ} : {A : Type ℓ} → A → Result A → A
or_value d (ok a) = a
or_value d (err e) = d

pub ok-injective {ℓ} : {A : Type ℓ} {a b : A} → ◌≡◌ {A = Result A} (ok a) (ok b) → a ≡ b
ok-injective {a} e = ap (or_value a) e
