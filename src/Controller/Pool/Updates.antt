-- ===== src/Controller/Pool/Updates.antt =====
-- internal/controller/publicipclaim_controller.go: the stored pool after its update.
use cilium_dhcp_wanip_operat.Base.{
  ◌≡◌, ◌≢◌, String, none, some, List, ok, arith, inl, inr, Result-cases,
}
use cilium_dhcp_wanip_operat.Controller.Pool
use cilium_dhcp_wanip_operat.Controller.Pool.{Version, v2, v2alpha1, PoolApi}
use cilium_dhcp_wanip_operat.Controller.Pool.Blocks.{Block}
use cilium_dhcp_wanip_operat.Controller.Pool.Contract.{PoolContract}

pub v2≢v2alpha1 : v2 ≢ v2alpha1
v2≢v2alpha1 e = cc

module _ {W O : Type 0} {api : PoolApi W O} (c : PoolContract api) where
  pub put-blocks_at :
      (v : Version) (n : String) (p : O) (bs : List Block) (w : W)
      → c.name_of p ≡ n
      → (Pool.put_blocks api v p bs w).0 ≡ ok tt
      → c.blocks_at v n (Pool.put_blocks api v p bs w).1 ≡ some (some bs)
  unfolding Pool.put_blocks
  put-blocks_at v n p bs w m h = elim (Result-cases (api.set_nested_blocks p bs)) [
    | inl (q, e) ↦ ground (arith, c.set_done p q bs, c.update_done v q w)
    | inr (x, e) ↦ ground arith
  ]

  pub put_unserved :
      (u v : Version) (n : String) (p : O) (bs : List Block) (w : W)
      → u ≢ v
      → c.blocks_at u n w ≡ none
      → c.blocks_at u n (Pool.put_blocks api v p bs w).1 ≡ none
  unfolding Pool.put_blocks
  put_unserved u v n p bs w m h = elim (Result-cases (api.set_nested_blocks p bs)) [
    | inl (q, e) ↦ ground (arith, c.update_unserved u v n q w)
    | inr (x, e) ↦ ground arith
  ]

  pub put_failed :
      (u v : Version) (n : String) (p : O) (bs : List Block) (w : W)
      → (Pool.put_blocks api v p bs w).0 ≢ ok tt
      → c.blocks_at u n (Pool.put_blocks api v p bs w).1 ≡ c.blocks_at u n w
  unfolding Pool.put_blocks
  put_failed u v n p bs w h = elim (Result-cases (api.set_nested_blocks p bs)) [
    | inl (q, e) ↦ ground (arith, c.update_failed u v n q w)
    | inr (x, e) ↦ ground arith
  ]
