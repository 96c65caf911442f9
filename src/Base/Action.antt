-- ===== src/Base/Action.antt =====
-- Functions that return `(value, error)` and change the state `W` of what they call. What was
-- changed before an error stays changed.
use Prim.Native.String.{String}
use cilium_dhcp_wanip_operat.Base.Errors.{Text, fmt, Result, ok, err}

abbrev pub Action : Type 0 → Type 0 → Type 0
Action W A = W → Result A × W

abbrev pub wrap_result {ℓ} : {A : Type ℓ} → String → Result A → Result A
wrap_result s (ok a) = ok a
wrap_result s (err e) = err (fmt s e)

module _ {W A : Type 0} where
  -- `return a, nil`
  abbrev pub returns : A → Action W A
  returns a w = (ok a, w)

  -- `return fmt.Errorf(…)`
  abbrev pub fails : Text → Action W A
  fails e w = (err e, w)

  -- `if err != nil { return fmt.Errorf("s %w", err) }`
  abbrev pub wrapping : String → Action W A → Action W A
  wrapping s m w = let (r, w') = m w in (wrap_result s r, w')

  -- The error of a call is a value, for the code to look at.
  abbrev pub attempt : Action W A → Action W (Result A)
  attempt m w = let (a, w') = m w in (ok a, w')

module _ {W A B : Type 0} where
  abbrev pub continue : Result A × W → (A → Action W B) → Result B × W
  continue (ok a, w) f = f a w
  continue (err e, w) f = (err e, w)

  infixl 5 ◌>>=◌ ◌>>◌
  abbrev pub ◌>>=◌ : Action W A → (A → Action W B) → Action W B
  ◌>>=◌ m f w = continue (m w) f

  abbrev pub ◌>>◌ : Action W A → Action W B → Action W B
  m >> n = m >>= λ _. n
