-- ===== src/Domain/Errors.antt =====
-- src/shared/errors.py, and the exceptions of other packages that the program lets pass: each with
-- its message. A raise is a value of `Result`.
use agentic_ai.Base.{◌≡◌, refl, ℕ, String, Bool, true, false, Option, none, some}

pub data Error : Type 0 where
  -- the subclasses of `AppError`
  validation authorization not_found conflict external_service workflow : String → Error
  -- `sqlalchemy.exc.IntegrityError`, raised by a flush
  integrity : String → Error
  -- `pydantic.ValidationError`, or the `ValueError` of an enum
  bad_value : String → Error
  -- `KeyError`
  missing_key : String → Error
  -- `fastapi.HTTPException`
  http : ℕ → String → Error

pub data Result {ℓ} (A : Type ℓ) : Type ℓ where
  ok : A → Result A
  err : Error → Result A

abbrev pub is_ok {ℓ} : {A : Type ℓ} → Result A → Bool
is_ok (ok _) = true
is_ok (err _) = false

abbrev pub or_err {ℓ} : {A : Type ℓ} → Option A → Error → Result A
or_err none e = err e
or_err (some a) e = ok a

pub ok_inj {ℓ} : {A : Type ℓ} {a b : A} → ok a ≡ ok b → a ≡ b
ok_inj h = cc

-- What follows on success.
abbrev pub and_then {ℓ κ} : {A : Type ℓ} {B : Type κ} → Result A → (A → Result B) → Result B
and_then (ok a) f = f a
and_then (err e) f = err e

pub and_then-ok {ℓ κ} :
    {A : Type ℓ} {B : Type κ} (r : Result A) (f : A → Result B) {b : B}
    → and_then r f ≡ ok b
    → (a : A) × (r ≡ ok a) × (f a ≡ ok b)
and_then-ok (ok a) f e = (a, refl, e)
and_then-ok (err x) f e = cc
