-- ===== src/Controller/Pool/RoundTrip.antt =====
-- internal/controller/publicipclaim_controller.go: an address put into a pool and taken out again.
use cilium_dhcp_wanip_operat.Base.{
  ◌≡◌, ◌∙◌, [], ◌∷◌, ◌++◌, String, false, Bool-cases, inl, inr, ok, arith, is_empty,
}
use cilium_dhcp_wanip_operat.Controller.Pool.{
  PoolApi, default_ensure_ip_in_pool, default_remove_ip_from_pool,
}
use cilium_dhcp_wanip_operat.Controller.Pool.Blocks.{cidr_of, contains_cidr, block_of}
use cilium_dhcp_wanip_operat.Controller.Pool.Loops.{
  contains-append_self, without-append, without-of_not_contains,
}
use cilium_dhcp_wanip_operat.Controller.Pool.Contract.{
  PoolContract, stored, some_cidr, contains_cidr-some_cidr,
}
use cilium_dhcp_wanip_operat.Controller.Pool.Ensure.{ensure_done}
use cilium_dhcp_wanip_operat.Controller.Pool.Remove.{remove_done}

module _ {W O : Type 0} {api : PoolApi W O} (c : PoolContract api) (n ip : String) (w : W) where
  abbrev pub ensured : W
  ensured = (default_ensure_ip_in_pool api n ip w).1

  -- Once an address is in the pool, ensuring it again changes no block.
  pub ensure-ensure :
      (default_ensure_ip_in_pool api n ip w).0 ≡ ok tt
      → (default_ensure_ip_in_pool api n ip ensured).0 ≡ ok tt
      → stored c n (default_ensure_ip_in_pool api n ip ensured).1 ≡ stored c n ensured
  ensure-ensure h k =
      let cidr = cidr_of ip in
      let bs = stored c n w in
      let (x, y, first) = ensure_done c n ip w h in
      let (z, v, again) = ensure_done c n ip ensured k in
      again
      ∙ rw first (elim (Bool-cases (some_cidr cidr bs)) [
        | inl p ↦ ground (arith, p)
        | inr p ↦ ground (
          arith,
          p,
          contains-append_self cidr bs,
          contains_cidr-some_cidr cidr (bs ++ block_of cidr ∷ []),
        )
      ])

  -- Removing an address that was not in the pool before it was ensured gives back the blocks of the pool.
  pub remove-ensure :
      is_empty ip ≡ false
      → contains_cidr (cidr_of ip) (stored c n w) ≡ false
      → (default_ensure_ip_in_pool api n ip w).0 ≡ ok tt
      → (default_remove_ip_from_pool api n ip ensured).0 ≡ ok tt
      → stored c n (default_remove_ip_from_pool api n ip ensured).1 ≡ stored c n w
  remove-ensure i m h k = ground (
    arith,
    contains_cidr-some_cidr (cidr_of ip) (stored c n w),
    ensure_done c n ip w h,
    remove_done c n ip ensured i k,
    without-append (cidr_of ip) (stored c n w),
    without-of_not_contains (cidr_of ip) (stored c n w) m,
  )
