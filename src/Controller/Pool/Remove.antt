-- ===== src/Controller/Pool/Remove.antt =====
-- internal/controller/publicipclaim_controller.go: what `defaultRemoveIPFromPool` does to the pool.
use cilium_dhcp_wanip_operat.Base.{
  ◌≡◌, ◌≢◌, refl, String, Option, none, some, List, [], ◌∷◌, ok, arith, inl, inr, false, Bool-cases,
  is_empty,
}
use cilium_dhcp_wanip_operat.Controller.Pool
use cilium_dhcp_wanip_operat.Controller.Pool.{
  Version, v2, v2alpha1, PoolApi, Reply-cases, blocks_or_nil, default_remove_ip_from_pool,
}
use cilium_dhcp_wanip_operat.Controller.Pool.Blocks.{Block, cidr_of, contains_cidr, without_cidr}
use cilium_dhcp_wanip_operat.Controller.Pool.Loops.{drop_cidr-eq, without-of_not_contains}
use cilium_dhcp_wanip_operat.Controller.Pool.Contract.{PoolContract, serving, stored}
use cilium_dhcp_wanip_operat.Controller.Pool.Updates.{
  v2≢v2alpha1, put-blocks_at, put_unserved, put_failed,
}

module _ {W O : Type 0} {api : PoolApi W O} (c : PoolContract api) where
  -- A cidr is taken out of the blocks that were read.
  remove_done_at :
      (v : Version) (n cidr : String) (p : O) (o : Option (List Block)) (w : W)
      → c.name_of p ≡ n
      → c.blocks_at v n w ≡ some o
      → (Pool.remove_block api v cidr p o w).0 ≡ ok tt
      → (bs : Option (List Block)) × (c.blocks_at v n (Pool.remove_block api v cidr p o w).1
          ≡ some bs)
        × (blocks_or_nil bs ≡ without_cidr cidr (blocks_or_nil o))
  unfolding Pool.remove_block
  remove_done_at v n cidr p none w m e h = (none, e, refl)
  remove_done_at v n cidr p (some []) w m e h = (some [], e, refl)
  remove_done_at v n cidr p (some (b ∷ bs)) w m e h =
      let spec : List Block = b ∷ bs in
      let rest = without_cidr cidr spec in
      elim (Bool-cases (contains_cidr cidr spec)) [
        | inl present ↦ (
          some rest,
          ground (arith, drop_cidr-eq cidr spec [] false, put-blocks_at c v n p rest w),
          refl,
        )
        | inr missing ↦ (
          some spec,
          ground (arith, drop_cidr-eq cidr spec [] false),
          ground (arith, without-of_not_contains cidr spec),
        )
      ]

  remove_unserved :
      (u v : Version) (n cidr : String) (p : O) (o : Option (List Block)) (w : W)
      → u ≢ v
      → c.blocks_at u n w ≡ none
      → c.blocks_at u n (Pool.remove_block api v cidr p o w).1 ≡ none
  unfolding Pool.remove_block
  remove_unserved u v n cidr p none w d m = m
  remove_unserved u v n cidr p (some []) w d m = m
  remove_unserved u v n cidr p (some (b ∷ bs)) w d m = ground (
    arith,
    drop_cidr-eq cidr (b ∷ bs) [] false,
    put_unserved c u v n p (without_cidr cidr (b ∷ bs)) w d,
  )

  remove_failed_at :
      (u v : Version) (n cidr : String) (p : O) (o : Option (List Block)) (w : W)
      → (Pool.remove_block api v cidr p o w).0 ≢ ok tt
      → c.blocks_at u n (Pool.remove_block api v cidr p o w).1 ≡ c.blocks_at u n w
  unfolding Pool.remove_block
  remove_failed_at u v n cidr p none w h = refl
  remove_failed_at u v n cidr p (some []) w h = refl
  remove_failed_at u v n cidr p (some (b ∷ bs)) w h = ground (
    arith,
    drop_cidr-eq cidr (b ∷ bs) [] false,
    put_failed c u v n p (without_cidr cidr (b ∷ bs)) w,
  )

  -- Removing an address, if it succeeds, leaves the version that serves the pool as it is, and keeps the blocks with another cidr in their order; a pool that is not there counts as one with no blocks.
  pub remove_done :
      (n ip : String) (w : W)
      → is_empty ip ≡ false
      → (default_remove_ip_from_pool api n ip w).0 ≡ ok tt
      → let w' = (default_remove_ip_from_pool api n ip w).1 in
        (serving c n w' ≡ serving c n w)
        × (stored c n w' ≡ without_cidr (cidr_of ip) (stored c n w))
  unfolding default_remove_ip_from_pool
  remove_done n ip w i h =
      let w' = (api.get_pool v2 n w).1 in
      elim (Reply-cases (api.get_pool v2 n w).0) [
        | inl (p, e) ↦ ground (
          arith,
          c.get_found v2 n w p e,
          c.get_keeps v2 v2 n n w,
          remove_done_at v2 n (cidr_of ip) p (api.nested_blocks p) w',
        )
        | inr (inl e) ↦
            let w'' = (api.get_pool v2alpha1 n w').1 in
            elim (Reply-cases (api.get_pool v2alpha1 n w').0) [
              | inl (p, e') ↦ ground (
                arith,
                c.get_absent v2 n w e,
                c.get_keeps v2 v2 n n w,
                c.get_keeps v2alpha1 v2 n n w,
                c.get_found v2alpha1 n w' p e',
                c.get_keeps v2alpha1 v2alpha1 n n w',
                c.get_keeps v2 v2alpha1 n n w',
                remove_done_at v2alpha1 n (cidr_of ip) p (api.nested_blocks p) w'',
                remove_unserved v2 v2alpha1 n (cidr_of ip) p (api.nested_blocks p) w'' v2≢v2alpha1,
              )
              | inr (inl e') ↦ ground (
                arith,
                c.get_absent v2 n w e,
                c.get_keeps v2 v2 n n w,
                c.get_keeps v2alpha1 v2 n n w,
                c.get_absent v2alpha1 n w' e',
                c.get_keeps v2alpha1 v2alpha1 n n w',
                c.get_keeps v2 v2alpha1 n n w',
              )
              | inr (inr (x, e')) ↦ ground arith
            ]
        | inr (inr (x, e)) ↦ ground arith
      ]

  -- Where removing an address fails, the stored pool is what it was, under both versions.
  pub remove_failed :
      (u : Version) (n ip : String) (w : W)
      → (default_remove_ip_from_pool api n ip w).0 ≢ ok tt
      → c.blocks_at u n (default_remove_ip_from_pool api n ip w).1 ≡ c.blocks_at u n w
  unfolding default_remove_ip_from_pool
  remove_failed u n ip w h =
      let w' = (api.get_pool v2 n w).1 in
      elim (Reply-cases (api.get_pool v2 n w).0) [
        | inl (p, e) ↦ ground (
          arith,
          c.get_keeps u v2 n n w,
          remove_failed_at u v2 n (cidr_of ip) p (api.nested_blocks p) w',
        )
        | inr (inl e) ↦
            let w'' = (api.get_pool v2alpha1 n w').1 in
            elim (Reply-cases (api.get_pool v2alpha1 n w').0) [
              | inl (p, e') ↦ ground (
                arith,
                c.get_keeps u v2 n n w,
                c.get_keeps u v2alpha1 n n w',
                remove_failed_at u v2alpha1 n (cidr_of ip) p (api.nested_blocks p) w'',
              )
              | inr (inl e') ↦ ground (arith, c.get_keeps u v2 n n w, c.get_keeps u v2alpha1 n n w')
              | inr (inr (x, e')) ↦
                  ground (arith, c.get_keeps u v2 n n w, c.get_keeps u v2alpha1 n n w')
            ]
        | inr (inr (x, e)) ↦ ground (arith, c.get_keeps u v2 n n w)
      ]
