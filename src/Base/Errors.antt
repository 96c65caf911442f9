-- ===== src/Base/Errors.antt =====
-- Go's `error` values and formatted texts, and the `(value, error)` pairs that functions return.
use Prim.Native.String.{String}
use mathlib.Core.Path.{◌≡◌, refl}
use mathlib.Core.Bool.{Bool, true, false}
use mathlib.Core.Logic.{◌⊎◌, inl, inr}

-- A text as its format strings and arguments: `%w`, `%s` and `%v` append the text of an argument,
-- `%q` appends it quoted. The rendering is not modelled.
pub data Text : Type 0 where
  lit : String → Text
  fmt : String → Text → Text
  fmt_quoted : String → String → Text

-- `(value, nil)` or `(zero value, err)`.
pub data Result {ℓ} (A : Type ℓ) : Type ℓ where
  ok : A → Result A
  err : Text → Result A

abbrev pub is_ok : {A : Type 0} → Result A → Bool
is_ok (ok a) = true
is_ok (err e) = false

pub Result-cases {ℓ} :
    {A : Type ℓ} (r : Result A) → ((a : A) × (r ≡ ok a)) ⊎ ((e : Text) × (r ≡ err e))
Result-cases (ok a) = inl (a, refl)
Result-cases (err e) = inr (e, refl)
