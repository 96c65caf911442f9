-- ===== src/Agent/Life/Sound.antt =====
-- internal/agent with internal/agent/dhcp/client.go: the leases that the agent holds, whatever
-- happens to it.
use cilium_dhcp_wanip_operat.Base.{List, [], ◌∷◌, Result}
use cilium_dhcp_wanip_operat.Base.Gives.{of_each}
use cilium_dhcp_wanip_operat.Agent.State.{Agent, Host}
use cilium_dhcp_wanip_operat.Agent.Handlers.{LeaseRequest}
use cilium_dhcp_wanip_operat.Agent.Dhcp.Times.{Timed}
use cilium_dhcp_wanip_operat.Agent.Dhcp.Terms.{Usable, Yields, acquire-Yields, renew-Yields}
use cilium_dhcp_wanip_operat.Agent.Dhcp.{rebind_lease}
use cilium_dhcp_wanip_operat.Agent.Machine.{Machine, host}
use cilium_dhcp_wanip_operat.Agent.Life.{
  Occurrence, starts, request, timer_fires, ends, shuts_down, find_loop, happen, run_agent,
}
use cilium_dhcp_wanip_operat.Agent.Life.Stored.{Fine, find-Found}
use cilium_dhcp_wanip_operat.Agent.Life.Served.{UsableHost, serve-Fine}
use cilium_dhcp_wanip_operat.Agent.Life.Renewed.{
  tick-Fine, end-Fine, shutdown-Fine, start_agent-Fine,
}

module _ {W L D B : Type 0} (h : Host W L D) (u : UsableHost h) where
  happen-Fine :
      (decode : B → Result LeaseRequest) (o : Occurrence B) (a : Agent W)
      → Fine a
      → Fine (happen h decode o a)
  unfolding happen
  happen-Fine decode starts a f = start_agent-Fine h u a f
  happen-Fine decode (request route) a f = serve-Fine h u decode route a f
  happen-Fine decode (timer_fires n) a f =
      tick-Fine h u (find_loop n a.loops) a (find-Found n a.loops f.loops) f
  happen-Fine decode (ends n) a f = end-Fine h u (find_loop n a.loops) a f
  happen-Fine decode (shuts_down ended) a f = shutdown-Fine h u ended a f

  run-Fine :
      (decode : B → Result LeaseRequest) (os : List (Occurrence B)) (a : Agent W)
      → Fine a
      → Fine (run_agent h decode os a)
  unfolding run_agent
  run-Fine decode [] a f = f
  run-Fine decode (o ∷ os) a f = run-Fine decode os (happen h decode o a) (happen-Fine decode o a f)

module _ {W L D C P : Type 0} (m : Machine W L D C P) (timed : Timed m.dhcp) where
  host-UsableHost : UsableHost (host m)
  unfolding host Yields rebind_lease
  host-UsableHost = record {
    acquired = λ iface mac w. of_each Usable _ (acquire-Yields m.dhcp timed iface mac w);
    renewed = λ l w s. of_each Usable _ (renew-Yields m.dhcp timed l s.address s.server w);
    rebound = λ l w s. of_each Usable _ (acquire-Yields m.dhcp timed l.iface l.mac_address w);
  }

  -- On a host with the agent's own DHCP client, whatever the kernel, the DHCP server and the disk answer: if the agent holds only leases that are stored under their interface and that have an address, a server and a time that is not negative, then so it is after any starts, requests, timers, ends of loops and shutdowns, in any order; and each of its loops renews such a lease.
  pub run_agent-Fine :
      {B : Type 0} (decode : B → Result LeaseRequest) (os : List (Occurrence B)) (a : Agent W)
      → Fine a
      → Fine (run_agent (host m) decode os a)
  run_agent-Fine decode os a f = run-Fine (host m) host-UsableHost decode os a f
