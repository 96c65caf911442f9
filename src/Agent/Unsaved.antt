-- ===== src/Agent/Unsaved.antt =====
-- internal/agent/agent.go: an allocation whose last step, saving the lease, fails.
use cilium_dhcp_wanip_operat.Base.{◌≡◌, refl, String, some, Text, fmt, ok, err}
use cilium_dhcp_wanip_operat.Base.Dict.{insert, lookup-insert_self}
use cilium_dhcp_wanip_operat.Agent.Network.{create_macvlan, delete_macvlan}
use cilium_dhcp_wanip_operat.Agent.State.{Lease, Agent, Host}
use cilium_dhcp_wanip_operat.Agent.Store.{get, save_leases, save, set_lease}
use cilium_dhcp_wanip_operat.Agent.Allocation.{
  lease_up, after_macvlan, clean_up_on_failure, allocate_lease,
}

module _ {W L D : Type 0} (h : Host W L D) where
  -- An allocation in which every step succeeds but the saving of the leases returns an error and deletes the interface again, and still the lease is found under the interface afterwards.
  pub unsaved_lease_stays :
      (iface wan_parent mac : String) (a : Agent W) {v w : W} {u : Unit {0}} {l : Lease} {e : Text}
      → create_macvlan h.kernel iface wan_parent mac a.world ≡ (ok u, v)
      → lease_up h iface wan_parent mac v ≡ (ok l, w)
      → (save_leases h a.store.state_file (insert l.iface l a.store.leases) w).0 ≡ err e
      → let w' = (save_leases h a.store.state_file (insert l.iface l a.store.leases) w).1 in
        let (r, b) = allocate_lease h iface wan_parent mac a in
        (r ≡ err (fmt "failed to save lease: %w" e))
        × (get l.iface b.store ≡ some l)
        × (b.world ≡ (delete_macvlan h.kernel iface w').1)
  unfolding allocate_lease after_macvlan set_lease save clean_up_on_failure
  unsaved_lease_stays iface wan_parent mac a {v} {w} {u} {l} {e} c d s =
      rw (c, d, s) (refl, lookup-insert_self l.iface l a.store.leases, refl)
