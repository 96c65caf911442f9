-- ===== src/Agent/Quiet.antt =====
-- Actions that leave a part of the state as it is: `has` is what is seen of a state, at a point
-- such as the name of an interface.
use cilium_dhcp_wanip_operat.Base.{◌≡◌, ◌∙◌, Result, ok, err}
use cilium_dhcp_wanip_operat.Base.Action.{Action, continue, ◌>>=◌}

module _ {W J O : Type 0} (has : W → J → O) where
  abbrev pub Quiet : {A : Type 0} → (W → A × W) → Type 0
  Quiet m = (w : W) (j : J) → has (m w).1 j ≡ has w j

  continue-Quiet :
      {A B : Type 0} (r : Result A) (v w : W) (f : A → Action W B)
      → ((j : J) → has v j ≡ has w j)
      → ((a : A) → Quiet (f a))
      → (j : J) → has (continue (r, v) f).1 j ≡ has w j
  continue-Quiet (ok a) v w f same next j = next a v j ∙ same j
  continue-Quiet (err e) v w f same next j = same j

  pub bind-Quiet :
      {A B : Type 0} (m : Action W A) (f : A → Action W B)
      → Quiet m
      → ((a : A) → Quiet (f a))
      → Quiet (m >>= f)
  bind-Quiet m f q next w = continue-Quiet (m w).0 (m w).1 w f (q w) next
