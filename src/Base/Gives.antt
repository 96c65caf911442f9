-- ===== src/Base/Gives.antt =====
-- What holds of a result and of the state after an action, over the steps of an action.
use cilium_dhcp_wanip_operat.Base.Errors.{Result, ok, err}
use cilium_dhcp_wanip_operat.Base.Action.{Action, continue, wrapping, ◌>>=◌}
use mathlib.Core.Path.{◌≡◌, refl}
use Prim.Native.String.{String}

-- A predicate on the value of a result that has one.
abbrev pub Of : {A : Type 0} → (A → Type 0) → Result A → Type 0
Of P (ok a) = P a
Of P (err e) = Unit {0}

-- From a state where `I` holds, `I` holds of the state after the action and `P` of its value.
unfoldable pub Gives : {S A : Type 0} → (S → Type 0) → (A → Type 0) → Action S A → Type 0
Gives {S} I P m = (s : S) → I s → I (m s).1 × Of P (m s).0

module _ {A : Type 0} (P : A → Type 0) where
  pub of_each : (r : Result A) → ((a : A) → r ≡ ok a → P a) → Of P r
  of_each (ok a) h = h a refl
  of_each (err e) h = tt

module _ {S A : Type 0} (I : S → Type 0) (P : A → Type 0) where
  pub wrapping-Gives : (text : String) (m : Action S A) → Gives I P m → Gives I P (wrapping text m)
  unfolding Gives
  wrapping-Gives text m g s i = wrapped (m s) (g s i)
    where
      wrapped : (r : Result A × S) → I r.1 × Of P r.0 → I r.1 × Of P (wrapping text (λ _. r) s).0
      wrapped (ok a, t) h = h
      wrapped (err e, t) h = h

module _ {S A B : Type 0} (I : S → Type 0) (P : A → Type 0) (Q : B → Type 0) where
  pub continue-Gives :
      (r : Result A × S) (f : A → Action S B)
      → I r.1 × Of P r.0
      → ((a : A) → P a → Gives I Q (f a))
      → I (continue r f).1 × Of Q (continue r f).0
  unfolding Gives
  continue-Gives (ok a, s) f h g = g a h.1 s h.0
  continue-Gives (err e, s) f h g = h

  pub bind-Gives :
      (m : Action S A) (f : A → Action S B)
      → Gives I P m
      → ((a : A) → P a → Gives I Q (f a))
      → Gives I Q (m >>= f)
  unfolding Gives
  bind-Gives m f g h s i = continue-Gives (m s) f (g s i) h
