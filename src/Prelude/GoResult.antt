-- ===== src/Prelude/GoResult.antt =====
-- A Go function that returns `(T, error)`, where one of the two is nil.
use Prim.Native.String.{String}
use mathlib.Core.Logic.{◌⊎◌, inl, inr}
use mathlib.Core.Path.{◌≡◌, refl}

-- An error is its text, or, for an API call, the reason that `errors.IsNotFound` looks at.
pub data Error : Type 0 where
  failure : String → Error
  not_found : Error

pub data Result {ℓ} (T : Type ℓ) : Type ℓ where
  err : Error → Result T
  ok : T → Result T

module _ {ℓ κ} {T : Type ℓ} {U : Type κ} where
  infixl 4 ◌>>=◌
  -- `if err != nil { return nil, err }`, and on with the value
  abbrev pub ◌>>=◌ : Result T → (T → Result U) → Result U
  ◌>>=◌ (err failed) rest = err failed
  ◌>>=◌ (ok value) rest = rest value

pub Result-cases {ℓ} :
    {T : Type ℓ} (r : Result T) → ((v : T) × (r ≡ ok v)) ⊎ ((e : Error) × (r ≡ err e))
Result-cases (err e) = inr (e, refl)
Result-cases (ok v) = inl (v, refl)
