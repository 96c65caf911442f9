-- ===== src/Agent/Allocation.antt =====
-- internal/agent/agent.go: `allocateLease`, `releaseLease`, and the loops that they start and stop.
use cilium_dhcp_wanip_operat.Base.{
  ℕ, ◌+◌, ◌*◌, ◌/◌, String, true, Option, none, some, [], ◌∷◌, ◌++◌, map, Result, ok, err, eqb,
  if◌then◌else◌,
}
use cilium_dhcp_wanip_operat.Base.Action.{Action, returns, wrapping, attempt, ◌>>=◌, ◌>>◌}
use cilium_dhcp_wanip_operat.Base.Dict.{lookup, insert, delete}
use cilium_dhcp_wanip_operat.Agent.Network.{
  create_macvlan, delete_macvlan, setup_interface, cleanup_interface,
}
use cilium_dhcp_wanip_operat.Agent.State.{active, Lease, LeaseInfo, Loop, Agent, Host, in_world}
use cilium_dhcp_wanip_operat.Agent.Store.{set_lease, delete_lease}

abbrev pub minute : ℕ
minute = 60 * 1000000000

abbrev pub cancel_loop : ℕ → Loop → Loop
cancel_loop n l = if eqb l.number n then record l { cancelled = true } else l

unfoldable pub cancel_found : {W : Type 0} → String → Agent W → Option ℕ → Agent W
cancel_found iface a none = a
cancel_found iface a (some n) = record a {
  loops = map (cancel_loop n) a.loops;
  renewal_cancels = delete iface a.renewal_cancels;
}

unfoldable pub stop_renewal_loop : {W : Type 0} → String → Agent W → Agent W
stop_renewal_loop iface a = cancel_found iface a (lookup iface a.renewal_cancels)

-- The new loop; the context of a shut down agent is cancelled.
unfoldable pub start_renewal_loop : {W : Type 0} → Lease → Agent W → Agent W
start_renewal_loop l a = record a {
  renewal_cancels = insert l.iface a.started_loops a.renewal_cancels;
  loops =
      a.loops
      ++ record {
        number = a.started_loops;
        lease = l;
        cancelled = a.shut_down;
        backoff = minute;
        timer = l.lease_time / 2;
      }
        ∷ [];
  started_loops = a.started_loops + 1;
}

-- The lease of a first exchange.
abbrev pub new_lease : String → String → String → LeaseInfo → ℕ → ℕ → Lease
new_lease iface wan_parent mac info expiry created = record {
  iface = iface;
  wan_parent = wan_parent;
  ip_address = info.ip_address;
  dhcp_server_ip = info.dhcp_server_ip;
  mac_address = mac;
  expires_at = expiry + info.lease_time;
  lease_time = info.lease_time;
  renewal_count = 0;
  status = active;
  interface_exists = true;
  created_at = created;
  dhcp_offer = info.offer;
  dhcp_ack = info.ack;
}

module _ {W L D : Type 0} (h : Host W L D) where
  -- `time.Now()`
  abbrev pub clock : Action W ℕ
  clock w = let (t, w') = h.now w in (ok t, w')

  unfoldable pub stamped : String → String → String → LeaseInfo → Action W Lease
  stamped iface wan_parent mac info = do
    expiry ← clock
    created ← clock
    returns (new_lease iface wan_parent mac info expiry created)

  -- The steps on the host once the interface is there.
  unfoldable pub lease_up : String → String → String → Action W Lease
  unfolding stamped
  lease_up iface wan_parent mac = do
    info ← wrapping "failed to acquire DHCP lease: %w" (h.acquire_lease iface mac)
    wrapping "gratuitous ARP failed: %w" (h.send_gratuitous_arp iface info.ip_address mac 3)
    wrapping "network setup failed: %w" (setup_interface h.kernel iface info.ip_address)
    stamped iface wan_parent mac info

  unfoldable pub after_macvlan : String → String → String → Action (Agent W) Lease
  unfolding lease_up
  after_macvlan iface wan_parent mac = do
    l ← in_world (lease_up iface wan_parent mac)
    wrapping "failed to save lease: %w" (set_lease h l)
    (λ a. (ok l, start_renewal_loop l a))

  -- The deferred call: `_ = network.DeleteMacvlan(iface)` unless `success`.
  unfoldable pub clean_up_on_failure : String → Result Lease × Agent W → Result Lease × Agent W
  clean_up_on_failure iface (ok l, a) = (ok l, a)
  clean_up_on_failure iface (err e, a) =
      let (_, a') = in_world (delete_macvlan h.kernel iface) a in (err e, a')

  unfoldable pub allocate_lease : String → String → String → Action (Agent W) Lease
  unfolding after_macvlan clean_up_on_failure
  allocate_lease iface wan_parent mac = do
    wrapping "failed to create macvlan: %w"
        (in_world (create_macvlan h.kernel iface wan_parent mac))
    (λ a. clean_up_on_failure iface (after_macvlan iface wan_parent mac a))

  -- The errors of the first three calls are only logged.
  unfoldable pub release_lease : Lease → Action (Agent W) (Unit {0})
  release_lease l = do
    (λ a. (ok tt, stop_renewal_loop l.iface a))
    attempt (in_world (h.release_lease l))
    attempt (in_world (cleanup_interface h.kernel l.iface l.ip_address))
    attempt (in_world (delete_macvlan h.kernel l.iface))
    wrapping "failed to delete lease from store: %w" (delete_lease h l.iface)
