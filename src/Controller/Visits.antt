-- ===== src/Controller/Visits.antt =====
-- internal/controller/publicipclaim_controller.go: the maps of the reconciler over any sequence of
-- calls of `getSSHManager` and cleanups, by any claims.
use cilium_dhcp_wanip_operat.Base.{◌≡◌, ℕ, List, [], ◌∷◌, ok}
use cilium_dhcp_wanip_operat.Api.{Claim}
use cilium_dhcp_wanip_operat.Router.Connection.Calls.{AgentCalls}
use cilium_dhcp_wanip_operat.Controller.Tracking.{Tracking, new_tracking}
use cilium_dhcp_wanip_operat.Controller.Managers.{Managers, get_ssh_manager}
use cilium_dhcp_wanip_operat.Controller.Managers.Managed.{
  Consistent, Known, start-Consistent, get_ssh_manager-Managed,
}
use cilium_dhcp_wanip_operat.Controller.Cleanup.{default_cleanup_router_interface}
use cilium_dhcp_wanip_operat.Controller.Cleanup.Forgotten.{default_cleanup-Cleaned}

pub data Visit : Type 0 where
  manages : Claim → Visit
  cleans : Claim → Visit

module _ {W T : Type 0} (env : Managers W) (agents : AgentCalls W T) where
  unfoldable pub visit : Visit → Tracking W → Tracking W
  unfolding get_ssh_manager default_cleanup_router_interface
  visit (manages c) t = (get_ssh_manager env c t).1
  visit (cleans c) t = (default_cleanup_router_interface env.keys agents c t).1

  unfoldable pub visits : List Visit → Tracking W → Tracking W
  unfolding visit
  visits [] t = t
  visits (v ∷ vs) t = visits vs (visit v t)

  visits-Consistent : (vs : List Visit) (t : Tracking W) → Consistent t → Consistent (visits vs t)
  unfolding visits visit
  visits-Consistent [] t k = k
  visits-Consistent (manages c ∷ vs) t k =
      visits-Consistent vs (visit (manages c) t) (get_ssh_manager-Managed env c t k).consistent
  visits-Consistent (cleans c ∷ vs) t k =
      visits-Consistent vs (visit (cleans c) t)
        ((default_cleanup-Cleaned env.keys agents c t).consistent k)

  -- After any sequence of calls of `getSSHManager` and of cleanups, of any claims and whatever is answered in them, if `getSSHManager` gives a claim a manager, then the claim has a handler, that manager and its router's address in the maps of the reconciler, and the manager exists; and every number in the registry is that of a manager, and the three maps know the same claims.
  pub get_ssh_manager-tracked :
      (w : W) (vs : List Visit) (c : Claim) {n : ℕ}
      → (get_ssh_manager env c (visits vs (new_tracking w))).0.0 ≡ ok n
      → let t = (get_ssh_manager env c (visits vs (new_tracking w))).1 in Known c n t × Consistent t
  get_ssh_manager-tracked w vs c {n} e =
      let t = visits vs (new_tracking w) in
      let m =
        get_ssh_manager-Managed env c t
          (visits-Consistent vs (new_tracking w) (start-Consistent w)) in
      (m.known n e, m.consistent)
