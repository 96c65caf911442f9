-- ===== src/Agent/Rollback.antt =====
-- internal/agent/agent.go: what an allocation leaves on the host and in the agent, whether it
-- succeeds or fails.
use cilium_dhcp_wanip_operat.Base.{
  ◌≡◌, refl, sym, ◌∙◌, ap, ℕ, String, Bool, true, false, some, Text, Result, ok, err, arith,
}
use cilium_dhcp_wanip_operat.Base.Action.{continue, wrapping, wrap_result}
use cilium_dhcp_wanip_operat.Base.Dict.{Dict, lookup, lookup-insert_self}
use cilium_dhcp_wanip_operat.Agent.Network.{create_macvlan, setup_interface}
use cilium_dhcp_wanip_operat.Agent.Network.Links.{
  KernelLaws, Only, Undone, Created, create_macvlan-Created, delete_macvlan-Undone,
  setup_interface-same,
}
use cilium_dhcp_wanip_operat.Agent.Quiet.{Quiet, bind-Quiet}
use cilium_dhcp_wanip_operat.Agent.State.{Lease, Agent, Host, in_world}
use cilium_dhcp_wanip_operat.Agent.Store.{save_leases, save, set_lease, get}
use cilium_dhcp_wanip_operat.Agent.Allocation.{
  start_renewal_loop, stamped, lease_up, after_macvlan, clean_up_on_failure, allocate_lease,
}

-- The disk, DHCP, ARP and the clock create and delete no interface.
pub record QuietHost {W L D : Type 0} (h : Host W L D) (has : W → String → Bool) : Type 0 where
  pub write_state : (path : String) (text : D) → Quiet has (h.write_state path text)
  pub rename : (old new : String) → Quiet has (h.rename old new)
  pub acquire_lease : (iface mac : String) → Quiet has (h.acquire_lease iface mac)
  pub send_gratuitous_arp :
      (iface ip mac : String) (n : ℕ) → Quiet has (h.send_gratuitous_arp iface ip mac n)
  pub now : Quiet has h.now

module _ {W L D : Type 0} (h : Host W L D) {has : W → String → Bool} {name_of : L → String}
    (laws : KernelLaws h.kernel has name_of) (quiet : QuietHost h has) where
  lease_up-Quiet : (iface wan_parent mac : String) → Quiet has (lease_up h iface wan_parent mac)
  unfolding lease_up stamped
  lease_up-Quiet iface wan_parent mac =
      bind-Quiet has (wrapping "failed to acquire DHCP lease: %w" (h.acquire_lease iface mac)) _
        (quiet.acquire_lease iface mac)
        (λ info.
          bind-Quiet has
            (wrapping "gratuitous ARP failed: %w"
              (h.send_gratuitous_arp iface info.ip_address mac 3))
            _ (quiet.send_gratuitous_arp iface info.ip_address mac 3)
            (λ u.
              bind-Quiet has
                (wrapping "network setup failed: %w"
                  (setup_interface h.kernel iface info.ip_address))
                _ (setup_interface-same h.kernel laws iface info.ip_address)
                (λ u w j. quiet.now (h.now w).1 j ∙ quiet.now w j)))

  save_leases-Quiet : (file : String) (m : Dict Lease) → Quiet has (save_leases h file m)
  unfolding save_leases
  save_leases-Quiet file m =
      bind-Quiet has (wrapping "failed to marshal leases: %w" (λ w. (h.marshal m, w))) _
        (λ w j. refl)
        (λ text.
          bind-Quiet has (wrapping "failed to write temp file: %w" (h.write_state _ text)) _
            (quiet.write_state _ text) (λ u. quiet.rename _ file))

  -- The interfaces of the host that an agent runs on.
  abbrev agent_has : Agent W → String → Bool
  agent_has a = has a.world

  after_macvlan-Quiet :
      (iface wan_parent mac : String) → Quiet agent_has (after_macvlan h iface wan_parent mac)
  unfolding after_macvlan set_lease save start_renewal_loop
  after_macvlan-Quiet iface wan_parent mac =
      bind-Quiet agent_has (in_world (lease_up h iface wan_parent mac)) _
        (λ a. lease_up-Quiet iface wan_parent mac a.world)
        (λ l.
          bind-Quiet agent_has (wrapping "failed to save lease: %w" (set_lease h l)) _
            (λ a. save_leases-Quiet a.store.state_file _ a.world) (λ u b j. refl))

  clean_up-Undone :
      (iface : String) (w : W) (r : Result Lease × Agent W) {e : Text}
      → has w iface ≡ false
      → Only h.kernel laws iface true w r.1.world
      → (clean_up_on_failure h iface r).0 ≡ err e
      → Undone h.kernel laws iface w (clean_up_on_failure h iface r).1.world
  unfolding clean_up_on_failure
  clean_up-Undone iface w (ok l, a) absent only f = ground arith
  clean_up-Undone iface w (err x, a) absent only f =
      delete_macvlan-Undone h.kernel laws iface w a.world absent only

  after_create :
      (iface wan_parent mac : String) (a : Agent W) (r : Result (Unit {0})) (v : W) {e : Text}
      → Created h.kernel laws iface a.world (r, v)
      → let end =
          continue
            (wrap_result "failed to create macvlan: %w" r, record a { world = v })
            (λ u b. clean_up_on_failure h iface (after_macvlan h iface wan_parent mac b)) in
        end.0 ≡ err e → Undone h.kernel laws iface a.world end.1.world
  after_create iface wan_parent mac a (ok u) v (absent, only) f =
      let start = record a { world = v } in
      clean_up-Undone iface a.world (after_macvlan h iface wan_parent mac start) absent
        (λ j. after_macvlan-Quiet iface wan_parent mac start j ∙ only j) f
  after_create iface wan_parent mac a (err x) v c f = c

  -- If netlink does what it answers, and the disk, DHCP, ARP and the clock touch no interface: an allocation that fails at any step leaves exactly the interfaces that there were before, unless netlink answered the deletion of the new interface, or the look-up that comes before it, with an error.
  pub failed_allocation-Undone :
      (iface wan_parent mac : String) (a : Agent W) {e : Text}
      → (allocate_lease h iface wan_parent mac a).0 ≡ err e
      → Undone h.kernel laws iface a.world (allocate_lease h iface wan_parent mac a).1.world
  unfolding allocate_lease
  failed_allocation-Undone iface wan_parent mac a f =
      let (r, v) = create_macvlan h.kernel iface wan_parent mac a.world in
      after_create iface wan_parent mac a r v
        (create_macvlan-Created h.kernel laws iface wan_parent mac a.world) f

  lease_up-iface :
      (iface wan_parent mac : String) (w : W) {l : Lease}
      → (lease_up h iface wan_parent mac w).0 ≡ ok l
      → l.iface ≡ iface
  unfolding lease_up stamped
  lease_up-iface iface wan_parent mac w f = ground arith

  -- The lease is stored under its interface, and its loop can be cancelled.
  abbrev pub Held : String → Lease → Agent W → Agent W → Type 0
  Held iface l a b =
      (l.iface ≡ iface)
      × (get iface b.store ≡ some l)
      × (lookup iface b.renewal_cancels ≡ some a.started_loops)

  start_Held :
      (r : Result (Unit {0})) (iface : String) (l0 : Lease) (a b : Agent W) {l : Lease}
      → l0.iface ≡ iface
      → get iface b.store ≡ some l0
      → b.started_loops ≡ a.started_loops
      → let end =
          continue
            (wrap_result "failed to save lease: %w" r, b)
            (λ u c. (ok l0, start_renewal_loop l0 c)) in
        end.0 ≡ ok l → Held iface l a end.1
  unfolding start_renewal_loop
  start_Held (ok u) iface l0 a b {l} e g n f =
      ground (arith, e, g, n, f, lookup-insert_self iface b.started_loops b.renewal_cancels)
  start_Held (err x) iface l0 a b e g n f = ground arith

  set-Held :
      (iface : String) (r : Result Lease) (w : W) (a : Agent W) {l : Lease}
      → ((l0 : Lease) → r ≡ ok l0 → l0.iface ≡ iface)
      → let end =
          continue
            (r, record a { world = w })
            (λ l0 c.
              continue
                (wrapping "failed to save lease: %w" (set_lease h l0) c)
                (λ u d. (ok l0, start_renewal_loop l0 d))) in
        end.0 ≡ ok l → Held iface l a end.1
  unfolding set_lease save
  set-Held iface (ok l0) w a named f =
      let saved = set_lease h l0 (record a { world = w }) in
      start_Held saved.0 iface l0 a saved.1 (named l0 refl)
        (ap (λ i. lookup i saved.1.store.leases) (sym (named l0 refl))
          ∙ lookup-insert_self l0.iface l0 a.store.leases)
        refl f
  set-Held iface (err e) w a named f = ground arith

  after_macvlan-Held :
      (iface wan_parent mac : String) (a : Agent W) {l : Lease}
      → (after_macvlan h iface wan_parent mac a).0 ≡ ok l
      → Held iface l a (after_macvlan h iface wan_parent mac a).1
  unfolding after_macvlan
  after_macvlan-Held iface wan_parent mac a f =
      let (r, w) = lease_up h iface wan_parent mac a.world in
      set-Held iface r w a (λ l0 d. lease_up-iface iface wan_parent mac a.world d) f

  clean_up-ok :
      (iface : String) (r : Result Lease × Agent W) {l : Lease}
      → (clean_up_on_failure h iface r).0 ≡ ok l
      → (r.0 ≡ ok l) × ((clean_up_on_failure h iface r).1 ≡ r.1)
  unfolding clean_up_on_failure
  clean_up-ok iface (ok l0, a) f = (f, refl)
  clean_up-ok iface (err x, a) f = ground arith

  -- The interface is new and the only one that has changed, and the lease is held.
  abbrev pub Allocated : String → Lease → Agent W → Agent W → Type 0
  Allocated iface l a b =
      (has a.world iface ≡ false) × Only h.kernel laws iface true a.world b.world × Held iface l a b

  finish_allocation :
      (iface wan_parent mac : String) (a : Agent W) (r : Result (Unit {0})) (v : W) {l : Lease}
      → Created h.kernel laws iface a.world (r, v)
      → let end =
          continue
            (wrap_result "failed to create macvlan: %w" r, record a { world = v })
            (λ u b. clean_up_on_failure h iface (after_macvlan h iface wan_parent mac b)) in
        end.0 ≡ ok l → Allocated iface l a end.1
  finish_allocation iface wan_parent mac a (ok u) v {l} (absent, only) f =
      let start = record a { world = v } in
      let (g, e) = clean_up-ok iface (after_macvlan h iface wan_parent mac start) f in
      rw e (
        absent,
        λ j. after_macvlan-Quiet iface wan_parent mac start j ∙ only j,
        after_macvlan-Held iface wan_parent mac start g,
      )
  finish_allocation iface wan_parent mac a (err x) v c f = ground arith

  -- Under the same assumptions, an allocation that succeeds: the interface was not there before and is there now, all others are as they were, the store has the returned lease under the interface, and its loop can be cancelled.
  pub allocated :
      (iface wan_parent mac : String) (a : Agent W) {l : Lease}
      → (allocate_lease h iface wan_parent mac a).0 ≡ ok l
      → Allocated iface l a (allocate_lease h iface wan_parent mac a).1
  unfolding allocate_lease
  allocated iface wan_parent mac a f =
      let (r, v) = create_macvlan h.kernel iface wan_parent mac a.world in
      finish_allocation iface wan_parent mac a r v
        (create_macvlan-Created h.kernel laws iface wan_parent mac a.world) f
