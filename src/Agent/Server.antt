-- ===== src/Agent/Server.antt =====
-- internal/agent/agent.go: how the agent is made, started and shut down. `net/http` serves the routes
-- of `Handlers.serve`; starting it and its errors, which are logged, are not in the state.
use cilium_dhcp_wanip_operat.Base.{
  ◌≡◌, String, Bool, true, false, List, [], ◌∷◌, map, fmt, Result, ok, err, is_some, arith,
}
use cilium_dhcp_wanip_operat.Base.Action.{Action}
use cilium_dhcp_wanip_operat.Agent.State.{
  Lease, LeaseInfo, Loop, Store, Agent, Host, stale, in_world,
}
use cilium_dhcp_wanip_operat.Agent.Store.{get, list, set_lease, new_store, verify_interface_exists}
use cilium_dhcp_wanip_operat.Agent.Allocation.{start_renewal_loop}
use cilium_dhcp_wanip_operat.Agent.Renewal.{
  extended, loop_returns, after_check, check_found, verify_each, verify_leases,
}
use cilium_dhcp_wanip_operat.Agent.Rounds.{set-Stored}

abbrev pub agent_with : {W : Type 0} → Store → W → Agent W
agent_with s w = record {
  store = s;
  shut_down = false;
  renewal_cancels = [];
  loops = [];
  started_loops = 0;
  world = w;
}

abbrev pub cancelled_loop : Loop → Loop
cancelled_loop loop = record loop { cancelled = true }

module _ {W L D : Type 0} (h : Host W L D) where
  unfoldable pub with_store : Result Store × W → Result (Agent W) × W
  with_store (err e, w) = (err (fmt "failed to create lease store: %w" e), w)
  with_store (ok s, w) = (ok (agent_with s w), w)

  -- `New`, for the directory of the configuration.
  unfoldable pub new_agent : String → Action W (Agent W)
  unfolding with_store
  new_agent state_dir w = with_store (new_store h state_dir w)

  -- `Start`
  unfoldable pub start_agent : Agent W → Agent W
  unfolding verify_leases
  start_agent a = verify_leases h a

  unfoldable pub return_each : List Loop → Agent W → Agent W
  return_each [] a = a
  return_each (x ∷ xs) a = return_each xs (loop_returns h x a)

  -- `Shutdown`, once no request is served any more: every loop is cancelled, and those in `ended`
  -- return while it waits, at most thirty seconds.
  unfoldable pub shutdown : List Loop → Agent W → Agent W
  unfolding return_each
  shutdown ended a =
      return_each ended (record a { shut_down = true; loops = map cancelled_loop a.loops })

module _ {W L D : Type 0} (h : Host W L D) (j : String) where
  set-keeps :
      (l : Lease) (a : Agent W)
      → is_some (get j a.store) ≡ true
      → is_some (get j (set_lease h l a).1.store) ≡ true
  set-keeps l a e = ground (arith, e, set-Stored h l a j)

  checked-keeps :
      (l : Lease) (r : Result LeaseInfo × Agent W)
      → is_some (get j r.1.store) ≡ true
      → is_some (get j (after_check h l r).store) ≡ true
  unfolding after_check start_renewal_loop
  checked-keeps l (err e, a) k = set-keeps (record l { status = stale }) a k
  checked-keeps l (ok info, a) k =
      let (now, w) = h.now a.world in set-keeps (extended now info l) (record a { world = w }) k

  found-keeps :
      (l : Lease) (r : Result Bool × Agent W)
      → is_some (get j r.1.store) ≡ true
      → is_some (get j (check_found h l r).store) ≡ true
  unfolding check_found
  found-keeps l (err e, a) k = k
  found-keeps l (ok false, a) k =
      set-keeps (record l { status = stale; interface_exists = false }) a k
  found-keeps l (ok true, a) k =
      let seen : Lease = record l { interface_exists = true } in
      checked-keeps seen (in_world (h.renew_lease seen) a) k

  each-keeps :
      (ls : List Lease) (a : Agent W)
      → is_some (get j a.store) ≡ true
      → is_some (get j (verify_each h ls a).store) ≡ true
  unfolding verify_each
  each-keeps [] a k = k
  each-keeps (l ∷ ls) a k =
      each-keeps ls _ (found-keeps l (in_world (verify_interface_exists h l.iface) a) k)

  -- The start of the agent loses no lease: an interface that has a lease before has one afterwards, whatever the kernel, the DHCP server and the disk answer.
  pub start_agent-keeps :
      (a : Agent W)
      → is_some (get j a.store) ≡ true
      → is_some (get j (start_agent h a).store) ≡ true
  unfolding start_agent verify_leases
  start_agent-keeps a k = each-keeps (list a.store) a k
