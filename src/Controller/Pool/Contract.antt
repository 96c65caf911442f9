-- ===== src/Controller/Pool/Contract.antt =====
-- What the pool operations rely on: the API server's answers, and apimachinery's field access.
use cilium_dhcp_wanip_operat.Base.{
  ◌≡◌, ◌≢◌, refl, arith, Bool, false, ◌||◌, String, Option, none, some, List, [], ◌∷◌, ◌++◌, ok,
  if◌then◌else◌,
}
use cilium_dhcp_wanip_operat.Controller.Pool.{
  Version, v2, v2alpha1, found, absent, PoolApi, blocks_or_nil,
}
use cilium_dhcp_wanip_operat.Controller.Pool.Blocks.{Block, block_of, contains_cidr, has_cidr}

-- `blocks_at v n w` is what the cluster serves as pool `n` under version `v`: `none` where the
-- version or the pool is not there. No other client writes between the calls of one operation;
-- the resource version makes an update fail otherwise.
pub record PoolContract {W O : Type 0} (api : PoolApi W O) : Type 0 where
  pub blocks_at : Version → String → W → Option (Option (List Block))
  pub name_of : O → String
  pub get_found :
      (v : Version) (n : String) (w : W) (p : O)
      → (api.get_pool v n w).0 ≡ found p
      → (blocks_at v n w ≡ some (api.nested_blocks p)) × (name_of p ≡ n)
  pub get_absent :
      (v : Version) (n : String) (w : W) → (api.get_pool v n w).0 ≡ absent → blocks_at v n w ≡ none
  pub get_keeps :
      (u v : Version) (m n : String) (w : W)
      → blocks_at u m (api.get_pool v n w).1 ≡ blocks_at u m w
  pub update_done :
      (v : Version) (p : O) (w : W)
      → (api.update_pool v p w).0 ≡ none
      → blocks_at v (name_of p) (api.update_pool v p w).1 ≡ some (api.nested_blocks p)
  pub update_unserved :
      (u v : Version) (m : String) (p : O) (w : W)
      → u ≢ v
      → blocks_at u m w ≡ none
      → blocks_at u m (api.update_pool v p w).1 ≡ none
  pub update_failed :
      (u v : Version) (m : String) (p : O) (w : W)
      → (api.update_pool v p w).0 ≢ none
      → blocks_at u m (api.update_pool v p w).1 ≡ blocks_at u m w
  pub set_done :
      (p q : O) (bs : List Block)
      → api.set_nested_blocks p bs ≡ ok q
      → (api.nested_blocks q ≡ some bs) × (name_of q ≡ name_of p)

-- The version that serves a pool, v2 where both do.
abbrev pub version_of : Option (Option (List Block)) → Version
version_of none = v2alpha1
version_of (some bs) = v2

abbrev pub blocks_of : Option (Option (List Block)) → List Block
blocks_of none = []
blocks_of (some bs) = blocks_or_nil bs

-- Whether some block has a cidr.
abbrev pub some_cidr : String → List Block → Bool
some_cidr c [] = false
some_cidr c (b ∷ bs) = has_cidr c b || some_cidr c bs

-- The abstract insertion: a cidr that is there is not added again.
abbrev pub with_cidr : String → List Block → List Block
with_cidr c bs = if some_cidr c bs then bs else bs ++ block_of c ∷ []

pub contains_cidr-some_cidr : (c : String) (bs : List Block) → contains_cidr c bs ≡ some_cidr c bs
unfolding contains_cidr
contains_cidr-some_cidr c [] = refl
contains_cidr-some_cidr c (b ∷ bs) = ground (arith, contains_cidr-some_cidr c bs)

module _ {W O : Type 0} {api : PoolApi W O} (c : PoolContract api) where
  abbrev pub serving : String → W → Version
  serving n w = version_of (c.blocks_at v2 n w)

  -- The blocks of the pool that the operations work on.
  abbrev pub stored : String → W → List Block
  stored n w = blocks_of (c.blocks_at (serving n w) n w)
