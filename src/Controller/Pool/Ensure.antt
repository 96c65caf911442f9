-- ===== src/Controller/Pool/Ensure.antt =====
-- internal/controller/publicipclaim_controller.go: what `defaultEnsureIPInPool` does to the pool.
use cilium_dhcp_wanip_operat.Base.{
  ◌≡◌, ◌≢◌, ◌∙◌, String, Option, none, some, List, [], ◌∷◌, ◌++◌, ok, arith, inl, inr, Bool-cases,
  is_some, true,
}
use cilium_dhcp_wanip_operat.Controller.Pool
use cilium_dhcp_wanip_operat.Controller.Pool.{
  Version, v2, v2alpha1, PoolApi, Reply-cases, blocks_or_nil, default_ensure_ip_in_pool,
}
use cilium_dhcp_wanip_operat.Controller.Pool.Blocks.{Block, cidr_of, contains_cidr, block_of}
use cilium_dhcp_wanip_operat.Controller.Pool.Contract.{
  PoolContract, with_cidr, contains_cidr-some_cidr, serving, stored, blocks_of,
}
use cilium_dhcp_wanip_operat.Controller.Pool.Updates.{
  v2≢v2alpha1, put-blocks_at, put_unserved, put_failed,
}

module _ {W O : Type 0} {api : PoolApi W O} (c : PoolContract api) where
  -- A cidr is added to the blocks that were read.
  add_done :
      (v : Version) (n cidr : String) (p : O) (w : W)
      → c.name_of p ≡ n
      → c.blocks_at v n w ≡ some (api.nested_blocks p)
      → (Pool.add_block api v cidr p w).0 ≡ ok tt
      → (bs : Option (List Block)) × (c.blocks_at v n (Pool.add_block api v cidr p w).1 ≡ some bs)
        × (blocks_or_nil bs ≡ with_cidr cidr (blocks_or_nil (api.nested_blocks p)))
  unfolding Pool.add_block
  add_done v n cidr p w m e h =
      let spec = blocks_or_nil (api.nested_blocks p) in
      elim (Bool-cases (contains_cidr cidr spec)) [
        | inl present ↦
            (api.nested_blocks p, ground arith, ground (arith, contains_cidr-some_cidr cidr spec))
        | inr missing ↦ (
          some (spec ++ block_of cidr ∷ []),
          ground (arith, put-blocks_at c v n p (spec ++ block_of cidr ∷ []) w),
          ground (arith, contains_cidr-some_cidr cidr spec),
        )
      ]

  add_unserved :
      (u v : Version) (n cidr : String) (p : O) (w : W)
      → u ≢ v
      → c.blocks_at u n w ≡ none
      → c.blocks_at u n (Pool.add_block api v cidr p w).1 ≡ none
  unfolding Pool.add_block
  add_unserved u v n cidr p w m h = ground (
    arith,
    put_unserved c u v n p (blocks_or_nil (api.nested_blocks p) ++ block_of cidr ∷ []) w m,
  )

  add_failed :
      (u v : Version) (n cidr : String) (p : O) (w : W)
      → (Pool.add_block api v cidr p w).0 ≢ ok tt
      → c.blocks_at u n (Pool.add_block api v cidr p w).1 ≡ c.blocks_at u n w
  unfolding Pool.add_block
  add_failed u v n cidr p w h =
      ground
        (arith, put_failed c u v n p (blocks_or_nil (api.nested_blocks p) ++ block_of cidr ∷ []) w)

  add_at_done :
      (v : Version) (n cidr : String) (w : W)
      → (Pool.add_at api v n cidr w).0 ≡ ok tt
      → (is_some (c.blocks_at v n w) ≡ true)
        × (bs : Option (List Block)) × (c.blocks_at v n (Pool.add_at api v n cidr w).1 ≡ some bs)
        × (blocks_or_nil bs ≡ with_cidr cidr (blocks_of (c.blocks_at v n w)))
  unfolding Pool.add_at Pool.must_get
  add_at_done v n cidr w h =
      let w' = (api.get_pool v n w).1 in
      elim (Reply-cases (api.get_pool v n w).0) [
        | inl (p, e) ↦
            let (bs, at_bs, eq) =
              add_done v n cidr p w' (c.get_found v n w p e).1
                (c.get_keeps v v n n w ∙ (c.get_found v n w p e).0) (ground arith) in
            (
              ground (arith, c.get_found v n w p e),
              bs,
              ground arith,
              ground (arith, c.get_found v n w p e),
            )
        | inr (inl e) ↦ ground arith
        | inr (inr (x, e)) ↦ ground arith
      ]

  add_at_unserved :
      (u v : Version) (n cidr : String) (w : W)
      → u ≢ v
      → c.blocks_at u n w ≡ none
      → c.blocks_at u n (Pool.add_at api v n cidr w).1 ≡ none
  unfolding Pool.add_at Pool.must_get
  add_at_unserved u v n cidr w d m =
      let w' = (api.get_pool v n w).1 in
      elim (Reply-cases (api.get_pool v n w).0) [
        | inl (p, e) ↦ ground (arith, add_unserved u v n cidr p w' d, c.get_keeps u v n n w)
        | inr (inl e) ↦ ground (arith, c.get_keeps u v n n w)
        | inr (inr (x, e)) ↦ ground (arith, c.get_keeps u v n n w)
      ]

  add_at_failed :
      (u v : Version) (n cidr : String) (w : W)
      → (Pool.add_at api v n cidr w).0 ≢ ok tt
      → c.blocks_at u n (Pool.add_at api v n cidr w).1 ≡ c.blocks_at u n w
  unfolding Pool.add_at Pool.must_get
  add_at_failed u v n cidr w h =
      let w' = (api.get_pool v n w).1 in
      elim (Reply-cases (api.get_pool v n w).0) [
        | inl (p, e) ↦ ground (arith, add_failed u v n cidr p w', c.get_keeps u v n n w)
        | inr (inl e) ↦ ground (arith, c.get_keeps u v n n w)
        | inr (inr (x, e)) ↦ ground (arith, c.get_keeps u v n n w)
      ]

  -- Ensuring an address succeeds only on a pool that is there, under the version that it works on; it leaves that version as it is, and adds the cidr of the address unless it is there.
  pub ensure_done :
      (n ip : String) (w : W)
      → (default_ensure_ip_in_pool api n ip w).0 ≡ ok tt
      → let w' = (default_ensure_ip_in_pool api n ip w).1 in
        (is_some (c.blocks_at (serving c n w) n w) ≡ true)
        × (serving c n w' ≡ serving c n w)
        × (stored c n w' ≡ with_cidr (cidr_of ip) (stored c n w))
  unfolding default_ensure_ip_in_pool
  ensure_done n ip w h =
      let w' = (api.get_pool v2 n w).1 in
      elim (Reply-cases (api.get_pool v2 n w).0) [
        | inl (p, e) ↦ ground (
          arith,
          c.get_found v2 n w p e,
          c.get_keeps v2 v2 n n w,
          add_at_done v2 n (cidr_of ip) w',
        )
        | inr (inl e) ↦ ground (
          arith,
          c.get_absent v2 n w e,
          c.get_keeps v2 v2 n n w,
          c.get_keeps v2alpha1 v2 n n w,
          add_at_done v2alpha1 n (cidr_of ip) w',
          add_at_unserved v2 v2alpha1 n (cidr_of ip) w' v2≢v2alpha1,
        )
        | inr (inr (x, e)) ↦ ground arith
      ]

  -- Where ensuring an address fails, the stored pool is what it was, under both versions.
  pub ensure_failed :
      (u : Version) (n ip : String) (w : W)
      → (default_ensure_ip_in_pool api n ip w).0 ≢ ok tt
      → c.blocks_at u n (default_ensure_ip_in_pool api n ip w).1 ≡ c.blocks_at u n w
  unfolding default_ensure_ip_in_pool
  ensure_failed u n ip w h =
      let w' = (api.get_pool v2 n w).1 in
      elim (Reply-cases (api.get_pool v2 n w).0) [
        | inl (p, e) ↦ ground (arith, c.get_keeps u v2 n n w, add_at_failed u v2 n (cidr_of ip) w')
        | inr (inl e) ↦
            ground (arith, c.get_keeps u v2 n n w, add_at_failed u v2alpha1 n (cidr_of ip) w')
        | inr (inr (x, e)) ↦ ground (arith, c.get_keeps u v2 n n w)
      ]
