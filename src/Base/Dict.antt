-- ===== src/Base/Dict.antt =====
-- Go's `map[string]V` as an association list with distinct keys. The program's results do not
-- depend on the order in which a map is ranged over, so the order of entries is the list's.
use Prim.Native.String.{String}
use mathlib.Core.Path.{◌≡◌, refl}
use mathlib.Core.Bool.{false}
use mathlib.Core.Option.{Option, none, some}
use mathlib.Core.List.{List, [], ◌∷◌}
use native.Mathlib.Omega.{arith}
use text.Mathlib.Text.{◌==◌}
use text.Mathlib.TextEquality.{eq_iff}
use text.Mathlib.TextPositions.{eq_refl}
use cilium_dhcp_wanip_operat.Base.Tests.{if◌then◌else◌}

abbrev pub Dict {ℓ} : Type ℓ → Type ℓ
Dict V = List (String × V)

module _ {ℓ} {V : Type ℓ} where
  unfoldable pub lookup : String → Dict V → Option V
  lookup key [] = none
  lookup key (e ∷ rest) = let below = lookup key rest in if e.0 == key then some e.1 else below

  -- `m[k] = v`
  unfoldable pub insert : String → V → Dict V → Dict V
  insert key value [] = (key, value) ∷ []
  insert key value (e ∷ rest) =
      let below = insert key value rest in if e.0 == key then (key, value) ∷ rest else e ∷ below

  -- `delete(m, k)`
  unfoldable pub delete : String → Dict V → Dict V
  delete key [] = []
  delete key (e ∷ rest) = let below = delete key rest in if e.0 == key then below else e ∷ below

  pub lookup-insert :
      (key other : String) (value : V) (entries : Dict V)
      → lookup other (insert key value entries)
        ≡ (if key == other then some value else lookup other entries)
  unfolding lookup insert
  lookup-insert key other value [] = refl
  lookup-insert key other value (e ∷ rest) = ground (
    arith,
    lookup-insert key other value rest,
    eq_iff e.0 key,
    eq_iff key other,
    eq_iff e.0 other,
  )

  pub lookup-delete :
      (key other : String) (entries : Dict V)
      → lookup other (delete key entries) ≡ (if key == other then none else lookup other entries)
  unfolding lookup delete
  lookup-delete key other [] = ground arith
  lookup-delete key other (e ∷ rest) =
      ground
        (arith, lookup-delete key other rest, eq_iff e.0 key, eq_iff e.0 other, eq_iff key other)

  pub lookup-insert_self :
      (key : String) (value : V) (entries : Dict V)
      → lookup key (insert key value entries) ≡ some value
  lookup-insert_self key value entries = simp (lookup-insert, eq_refl)

  pub lookup-delete_self :
      (key : String) (entries : Dict V) → lookup key (delete key entries) ≡ none
  lookup-delete_self key entries = simp (lookup-delete, eq_refl)

  pub lookup-insert_other :
      (key other : String) (value : V) (entries : Dict V)
      → (key == other) ≡ false
      → lookup other (insert key value entries) ≡ lookup other entries
  lookup-insert_other key other value entries d = simp (lookup-insert, d)

  pub lookup-delete_other :
      (key other : String) (entries : Dict V)
      → (key == other) ≡ false
      → lookup other (delete key entries) ≡ lookup other entries
  lookup-delete_other key other entries d = simp (lookup-delete, d)

pub ruleset dict_laws = (lookup-insert, lookup-delete, eq_refl)
