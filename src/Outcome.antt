-- ===== src/Outcome.antt =====
-- What a Python call gives back: a value, or the class of the exception that it raises. The text of
-- an exception is not modelled.
use hivescope.Prelude.{Bool, true, false, Option, none, some}

pub data Exception : Type 0 where
  timeout_error assertion_error value_error type_error attribute_error key_error runtime_error
        import_error :
      Exception
  -- raised by a package that the repository only calls
  foreign_error : Exception

pub data Outcome {ℓ} (A : Type ℓ) : Type ℓ where
  ok : A → Outcome A
  raise : Exception → Outcome A

infixl 5 ◌>>=◌ ◌>>◌
abbrev pub ◌>>=◌ {ℓ κ} : {A : Type ℓ} {B : Type κ} → Outcome A → (A → Outcome B) → Outcome B
ok a >>= f = f a
raise e >>= f = raise e

abbrev pub ◌>>◌ {ℓ} : {B : Type ℓ} → Outcome (Unit {0}) → Outcome B → Outcome B
m >> k = m >>= λ _. k

-- assert test, or: if not test: raise e
abbrev pub require : Bool → Exception → Outcome (Unit {0})
require true e = ok tt
require false e = raise e

abbrev pub or_raise {ℓ} : {A : Type ℓ} → Option A → Exception → Outcome A
or_raise none e = raise e
or_raise (some a) e = ok a

-- Whether a check passes.
abbrev pub passes {ℓ} : {A : Type ℓ} → Outcome A → Bool
passes (ok a) = true
passes (raise e) = false
