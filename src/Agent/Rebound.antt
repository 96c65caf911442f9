-- ===== src/Agent/Rebound.antt =====
-- internal/agent/agent.go with internal/agent/dhcp/client.go: a rebinding that gives another address.
use text.Mathlib.TextEquality.{eq_iff}
use cilium_dhcp_wanip_operat.Base.{◌≡◌, ◌≢◌, refl, sym, some, Result, ok, err, arith}
use cilium_dhcp_wanip_operat.Agent.State.{active, Lease, LeaseInfo, Agent, Host}
use cilium_dhcp_wanip_operat.Agent.Store.{get}
use cilium_dhcp_wanip_operat.Agent.Dhcp
use cilium_dhcp_wanip_operat.Agent.Machine.{Machine, host}
use cilium_dhcp_wanip_operat.Agent.Renewal.{extended, rebound, rebind_lease}
use cilium_dhcp_wanip_operat.Agent.Rounds.{set-Stored}

-- The lease that is stored after a rebinding, whether or not the store could be saved.
pub record Keeps {W : Type 0} (l : Lease) (info : LeaseInfo) (b : Agent W) : Type 0 where
  pub lease : Lease
  pub stored : get l.iface b.store ≡ some lease
  pub is_active : lease.status ≡ active
  pub server : lease.dhcp_server_ip ≡ info.dhcp_server_ip
  pub old_address : lease.ip_address ≡ l.ip_address
  pub not_given : lease.ip_address ≢ info.ip_address

module _ {W L D : Type 0} (h : Host W L D) where
  rebound-Keeps :
      (l : Lease) (info : LeaseInfo) (r : Result LeaseInfo) (a : Agent W)
      → r ≡ ok info
      → info.ip_address ≢ l.ip_address
      → Keeps l info (rebound h l (r, a)).1
  unfolding rebound
  rebound-Keeps l info (err e) a d n = absurd (ground (arith, d))
  rebound-Keeps l info (ok i) a d n =
      let (now, w) = h.now a.world in
      let m : Lease = record (extended now i l) { dhcp_server_ip = i.dhcp_server_ip } in
      record {
        lease = m;
        stored =
            ground (arith, eq_iff l.iface l.iface, set-Stored h m (record a { world = w }) l.iface);
        is_active = refl;
        server = ground (arith, d);
        old_address = refl;
        not_given = λ e. n (sym e);
      }

module _ {W L D C P : Type 0} (m : Machine W L D C P) where
  -- On a host with the agent's own DHCP client: if the exchange of a rebinding gives another address than the lease has, the agent stores the lease as active with the address that it had, not the one that was given, and with the new server.
  pub rebind_lease-Keeps :
      (l : Lease) (info : LeaseInfo) (a : Agent W)
      → (Dhcp.rebind_lease m.dhcp l a.world).0 ≡ ok info
      → info.ip_address ≢ l.ip_address
      → Keeps l info (rebind_lease (host m) l a).1
  unfolding rebind_lease host Dhcp.rebind_lease
  rebind_lease-Keeps l info a d n =
      let (r, w) = Dhcp.rebind_lease m.dhcp l a.world in
      rebound-Keeps (host m) l info r (record a { world = w }) d n
