-- ===== src/Controller/Pool/Blocks.antt =====
-- internal/controller/publicipclaim_controller.go: the loops of `defaultEnsureIPInPool` and
-- `defaultRemoveIPFromPool` over the blocks of a pool.
use Prim.Native.String
use cilium_dhcp_wanip_operat.Base.{
  String, Bool, true, false, Option, none, some, List, [], ◌∷◌, ◌++◌, ◌==◌, if◌then◌else◌,
}
use cilium_dhcp_wanip_operat.Base.Dict.{Dict}

-- A map of the list `spec.blocks`: its `cidr`, if that is a string, and its other fields.
pub record Block : Type 0 where
  pub cidr : Option String
  pub other : Dict String

-- `fmt.Sprintf("%s/32", ip)`
abbrev pub cidr_of : String → String
cidr_of ip = String.◌++◌ ip "/32"

-- `m["cidr"] == cidr`
abbrev pub has_cidr : String → Block → Bool
has_cidr c b = elim b.cidr [ none ↦ false | some d ↦ d == c ]

-- `map[string]interface{}{"cidr": cidr}`
abbrev pub block_of : String → Block
block_of c = record { cidr = some c; other = [] }

-- The loop that looks for a block that is already present.
unfoldable pub contains_cidr : String → List Block → Bool
contains_cidr c [] = false
contains_cidr c (b ∷ bs) = if has_cidr c b then true else contains_cidr c bs

-- The loop that copies the blocks but for the matching ones: the copy, and whether it left one out.
unfoldable pub drop_cidr : String → List Block → List Block → Bool → List Block × Bool
drop_cidr c [] new_spec removed = (new_spec, removed)
drop_cidr c (b ∷ bs) new_spec removed =
    let hit = has_cidr c b in
    drop_cidr c bs (if hit then new_spec else new_spec ++ b ∷ []) (if hit then true else removed)

-- The blocks that have another cidr, in their order.
abbrev pub without_cidr : String → List Block → List Block
without_cidr c [] = []
without_cidr c (b ∷ bs) = let rest = without_cidr c bs in if has_cidr c b then rest else b ∷ rest
