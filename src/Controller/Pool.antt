-- ===== src/Controller/Pool.antt =====
-- internal/controller/publicipclaim_controller.go: the two operations that put an address into
-- the blocks of a CiliumLoadBalancerIPPool and take it out.
pub mod Blocks
mod Loops
pub mod Contract
mod Updates
pub mod Ensure
pub mod Remove
pub mod RoundTrip
mod Samples
use cilium_dhcp_wanip_operat.Base.{
  ◌≡◌, refl, ◌⊎◌, inl, inr, String, Bool, true, false, Option, none, some, List, [], ◌∷◌, ◌++◌,
  Text, lit, fmt, Result, ok, err, is_empty, if◌then◌else◌,
}
use cilium_dhcp_wanip_operat.Base.Action.{Action, returns, ◌>>=◌}
use Blocks.{Block, cidr_of, block_of, contains_cidr, drop_cidr}

-- The two API versions under which Cilium serves the pools, `gvrPoolV2` and `gvrPoolV2a`.
pub data Version : Type 0 where
  v2 v2alpha1 : Version

-- An answer to a GET: `absent` is the error that `IsNotFound` recognises.
pub data Reply (O : Type 0) : Type 0 where
  found : O → Reply O
  absent : Reply O
  refused : Text → Reply O

pub Reply-cases :
    {O : Type 0} (r : Reply O)
    → ((p : O) × (r ≡ found p)) ⊎ (r ≡ absent) ⊎ ((e : Text) × (r ≡ refused e))
Reply-cases (found p) = inl (p, refl)
Reply-cases absent = inr (inl refl)
Reply-cases (refused e) = inr (inr (e, refl))

-- The dynamic client over the state `W` of the cluster, and apimachinery's access to the field
-- `spec.blocks` of an unstructured object `O`. `nested_blocks` is `none` where the field is
-- missing or no list.
pub record PoolApi (W O : Type 0) : Type 0 where
  pub get_pool : Version → String → W → Reply O × W
  pub update_pool : Version → O → W → Option Text × W
  pub nested_blocks : O → Option (List Block)
  pub set_nested_blocks : O → List Block → Result O

abbrev pub blocks_or_nil : Option (List Block) → List Block
blocks_or_nil none = []
blocks_or_nil (some bs) = bs

module _ {W O : Type 0} (api : PoolApi W O) where
  open api use {get_pool, update_pool, nested_blocks, set_nested_blocks}

  -- The first GET of `defaultEnsureIPInPool` picks the version.
  pub pick_version : Reply O × W → Result Version × W
  pick_version (found p, w) = (ok v2, w)
  pick_version (absent, w) = (ok v2alpha1, w)
  pick_version (refused e, w) = (err (fmt "failed to check pool: %w" e), w)

  -- The second GET, whose every error is returned.
  pub must_get : String → Reply O × W → Result O × W
  must_get name (found p, w) = (ok p, w)
  must_get name (absent, w) = (err (fmt "failed to get pool %s: not found" (lit name)), w)
  must_get name (refused e, w) = (err (fmt "failed to get pool %s: %w" e), w)

  pub update_reply : Option Text × W → Result (Unit {0}) × W
  update_reply (none, w) = (ok tt, w)
  update_reply (some e, w) = (err (fmt "failed to update pool %s: %w" e), w)

  pub put_object : Version → Result O → Action W (Unit {0})
  unfolding update_reply
  put_object v (ok p) w = update_reply (update_pool v p w)
  put_object v (err e) w = (err (fmt "failed to set blocks in pool: %w" e), w)

  -- `SetNestedSlice`, then `Update`.
  pub put_blocks : Version → O → List Block → Action W (Unit {0})
  unfolding put_object
  put_blocks v p bs = put_object v (set_nested_blocks p bs)

  pub add_block : Version → String → O → Action W (Unit {0})
  unfolding put_blocks
  add_block v cidr p =
      let spec = blocks_or_nil (nested_blocks p) in
      if contains_cidr cidr spec then returns tt else put_blocks v p (spec ++ block_of cidr ∷ [])

  -- The rest once the version is known.
  pub add_at : Version → String → String → Action W (Unit {0})
  unfolding must_get add_block
  add_at gvr pool_name cidr = do
    pool ← (λ w. must_get pool_name (get_pool gvr pool_name w))
    add_block gvr cidr pool

  unfoldable pub default_ensure_ip_in_pool : String → String → Action W (Unit {0})
  unfolding pick_version add_at
  default_ensure_ip_in_pool pool_name ip = do
    gvr ← (λ w. pick_version (get_pool v2 pool_name w))
    add_at gvr pool_name (cidr_of ip)

  -- The blocks that are left and whether one was removed; with none removed there is no update.
  pub put_rest : Version → O → List Block × Bool → Action W (Unit {0})
  unfolding put_blocks
  put_rest v p (new_spec, true) = put_blocks v p new_spec
  put_rest v p (new_spec, false) = returns tt

  -- `!found || len(spec) == 0` returns early.
  pub remove_block : Version → String → O → Option (List Block) → Action W (Unit {0})
  unfolding put_rest
  remove_block v cidr p none = returns tt
  remove_block v cidr p (some []) = returns tt
  remove_block v cidr p (some (b ∷ bs)) = put_rest v p (drop_cidr cidr (b ∷ bs) [] false)

  pub remove_at_v2alpha1 : String → Reply O × W → Result (Unit {0}) × W
  unfolding remove_block
  remove_at_v2alpha1 cidr (found p, w) = remove_block v2alpha1 cidr p (nested_blocks p) w
  remove_at_v2alpha1 cidr (absent, w) = (ok tt, w)
  remove_at_v2alpha1 cidr (refused e, w) = (err (fmt "failed to get pool %s: %w" e), w)

  pub remove_at_v2 : String → String → Reply O × W → Result (Unit {0}) × W
  unfolding remove_block remove_at_v2alpha1
  remove_at_v2 name cidr (found p, w) = remove_block v2 cidr p (nested_blocks p) w
  remove_at_v2 name cidr (absent, w) = remove_at_v2alpha1 cidr (get_pool v2alpha1 name w)
  remove_at_v2 name cidr (refused e, w) = (err (fmt "failed to get pool %s: %w" e), w)

  unfoldable pub default_remove_ip_from_pool : String → String → Action W (Unit {0})
  unfolding remove_at_v2
  default_remove_ip_from_pool pool_name ip w =
      if is_empty ip
      then (ok tt, w)
      else remove_at_v2 pool_name (cidr_of ip) (get_pool v2 pool_name w)
