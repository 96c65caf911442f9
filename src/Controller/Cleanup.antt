-- ===== src/Controller/Cleanup.antt =====
-- internal/controller/publicipclaim_controller.go: `defaultCleanupRouterInterface`.
pub mod Forgotten
pub mod Leaks
use cilium_dhcp_wanip_operat.Base.{
  ℕ, String, Option, none, some, Result, ok, err, is_empty, if◌then◌else◌,
}
use cilium_dhcp_wanip_operat.Base.Dict.{lookup, delete}
use cilium_dhcp_wanip_operat.Api.{Claim}
use cilium_dhcp_wanip_operat.Ssh.Manager.{unregister_handler}
use cilium_dhcp_wanip_operat.Router.Connection.Calls.{AgentCalls}
use cilium_dhcp_wanip_operat.Controller.Credentials.{Keys, ssh_signer, client_config}
use cilium_dhcp_wanip_operat.Controller.Tracking.{
  Tracking, handler_key, router_address, on_manager, close_if_unused,
}

module _ {W : Type 0} where
  -- The handler is unregistered if its manager is known, and forgotten in any case.
  unfoldable pub forget_handler : String → Option ℕ → Option ℕ → Tracking W → Tracking W
  unfolding on_manager
  forget_handler key (some id) (some n) t = record (on_manager n (unregister_handler id) t) {
    ssh_handlers = delete key t.ssh_handlers;
  }
  forget_handler key (some id) none t = record t { ssh_handlers = delete key t.ssh_handlers }
  forget_handler key none o t = t

  -- The address is that of the claim as it is now.
  unfoldable pub close_last : Claim → Option ℕ → Tracking W → Tracking W
  unfolding close_if_unused router_address
  close_last c none t = t
  close_last c (some n) t = close_if_unused n (router_address c) t

  unfoldable pub forget : Claim → Tracking W → Tracking W
  unfolding forget_handler close_last
  forget c t =
      let key = handler_key c in
      let mgr = lookup key t.claim_managers in
      let unhandled = forget_handler key (lookup key t.ssh_handlers) mgr t in
      close_last c mgr (record unhandled {
        router_assignments = delete key unhandled.router_assignments;
        claim_managers = delete key unhandled.claim_managers;
      })

module _ {W T : Type 0} (keys : Keys W) (agents : AgentCalls W T) where
  -- The lease is released, whether or not that succeeds, and the client closed at the end.
  unfoldable pub release_and_forget :
      Claim → Result T × W → Tracking W → Result (Unit {0}) × Tracking W
  unfolding forget
  release_and_forget c (err e, w) t = (ok tt, record t { world = w })
  release_and_forget c (ok client, w) t =
      let (_, w₁) = agents.release_lease client c.status.wan_interface w in
      let left = forget c (record t { world = w₁ }) in
      let (_, w₂) = agents.disconnect client left.world in (ok tt, record left { world = w₂ })

  unfoldable pub clean_with_signer :
      Claim → Result String × W → Tracking W → Result (Unit {0}) × Tracking W
  unfolding release_and_forget
  clean_with_signer c (err e, w) t = (ok tt, record t { world = w })
  clean_with_signer c (ok signer, w) t =
      release_and_forget c (agents.connect c.spec.router.host (client_config c signer) w) t

  -- Best effort: a router that cannot be reached is left as it is.
  unfoldable pub default_cleanup_router_interface :
      Claim → Tracking W → Result (Unit {0}) × Tracking W
  unfolding clean_with_signer ssh_signer
  default_cleanup_router_interface c t =
      if is_empty c.status.wan_interface
      then (ok tt, t)
      else clean_with_signer c (ssh_signer keys c t.world) t
