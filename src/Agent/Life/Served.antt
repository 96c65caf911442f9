-- ===== src/Agent/Life/Served.antt =====
-- internal/agent/agent.go: the requests keep every lease of the agent sound.
use cilium_dhcp_wanip_operat.Base.{
  ◌≡◌, String, Bool, true, false, ◌||◌, Option, none, some, Result, ok, err, if_both, is_empty,
  arith,
}
use cilium_dhcp_wanip_operat.Base.Action.{Action, wrapping}
use cilium_dhcp_wanip_operat.Base.Gives.{Of, Gives, wrapping-Gives, bind-Gives}
use cilium_dhcp_wanip_operat.Agent.Network.{create_macvlan, setup_interface}
use cilium_dhcp_wanip_operat.Agent.State.{Lease, LeaseInfo, Store, Agent, Host, in_world}
use cilium_dhcp_wanip_operat.Agent.Dhcp.Terms.{Usable}
use cilium_dhcp_wanip_operat.Agent.Store.{
  get, set_lease, delete_lease, save, acquire_inflight, release_inflight,
}
use cilium_dhcp_wanip_operat.Agent.Allocation.{
  stamped, lease_up, after_macvlan, clean_up_on_failure, allocate_lease, release_lease,
}
use cilium_dhcp_wanip_operat.Agent.Locking.{stop-store}
use cilium_dhcp_wanip_operat.Agent.Handlers.{
  LeaseRequest, Response, releasing, allocate_reply, allocate_if_new, allocate_if_free,
  allocate_with_mac, handle_allocate_lease, release_reply, release_found, release_if_free,
  handle_release_lease, Route, post_leases, get_leases, get_one, delete_one, get_health, serve,
}
use cilium_dhcp_wanip_operat.Agent.Life.Stored.{
  Sound, Fine, delete-All, stop-All, start-Fine, set-Fine,
}

-- The exchanges of a host give usable terms, those for a lease if it is sound.
pub record UsableHost {W L D : Type 0} (h : Host W L D) : Type 0 where
  pub acquired : (iface mac : String) (w : W) → Of Usable (h.acquire_lease iface mac w).0
  pub renewed : (l : Lease) (w : W) → Sound l → Of Usable (h.renew_lease l w).0
  pub rebound : (l : Lease) (w : W) → Sound l → Of Usable (h.rebind_lease l w).0

-- Nothing is asked of a state or of a value.
abbrev Any : {A : Type 0} → A → Type 0
Any a = Unit {0}

any : {A : Type 0} (r : Result A) → Of Any r
any (ok a) = tt
any (err e) = tt

-- Taking a lock changes no lease, whether it is free or not.
acquire-leases : (iface : String) (s : Store) → (acquire_inflight iface s).1.leases ≡ s.leases
unfolding acquire_inflight
acquire-leases iface s = ground arith

module _ {W L D : Type 0} (h : Host W L D) (u : UsableHost h) where
  stamped-Sound :
      (iface wan_parent mac : String) (info : LeaseInfo)
      → Usable info
      → Gives Any Sound (stamped h iface wan_parent mac info)
  unfolding stamped Gives
  stamped-Sound iface wan_parent mac info i w s =
      (tt, record { address = i.address; server = i.server; time = i.time })

  lease_up-Sound :
      (iface wan_parent mac : String) → Gives Any Sound (lease_up h iface wan_parent mac)
  unfolding lease_up Gives
  lease_up-Sound iface wan_parent mac =
      bind-Gives Any Usable Sound
        (wrapping "failed to acquire DHCP lease: %w" (h.acquire_lease iface mac)) _
        (wrapping-Gives Any Usable "failed to acquire DHCP lease: %w" (h.acquire_lease iface mac)
          (λ w s. (tt, u.acquired iface mac w)))
        λ info i.
          bind-Gives Any Any Sound
            (wrapping "gratuitous ARP failed: %w"
              (h.send_gratuitous_arp iface info.ip_address mac 3))
            _ (λ w s. (tt, any _))
            λ o t.
              bind-Gives Any Any Sound
                (wrapping "network setup failed: %w"
                  (setup_interface h.kernel iface info.ip_address))
                _ (λ w s. (tt, any _)) λ p q. stamped-Sound iface wan_parent mac info i

  world-Gives :
      {A : Type 0} (P : A → Type 0) (m : Action W A) → Gives Any P m → Gives Fine P (in_world m)
  unfolding Gives
  world-Gives P m g a f = (record { leases = f.leases; loops = f.loops }, (g a.world tt).1)

  after_macvlan-Fine :
      (iface wan_parent mac : String) → Gives Fine Any (after_macvlan h iface wan_parent mac)
  unfolding after_macvlan Gives
  after_macvlan-Fine iface wan_parent mac =
      bind-Gives Fine Sound Any (in_world (lease_up h iface wan_parent mac)) _
        (world-Gives Sound (lease_up h iface wan_parent mac) (lease_up-Sound iface wan_parent mac))
        λ l s.
          bind-Gives Fine Any Any (wrapping "failed to save lease: %w" (set_lease h l)) _
            (λ a f. (set-Fine h l a s f, any _)) (λ o t a f. (start-Fine l a s f, tt))

  clean_up-Fine :
      (iface : String) (r : Result Lease × Agent W)
      → Fine r.1
      → Fine (clean_up_on_failure h iface r).1
  unfolding clean_up_on_failure
  clean_up-Fine iface (ok l, a) f = f
  clean_up-Fine iface (err e, a) f = record { leases = f.leases; loops = f.loops }

  allocate-Fine :
      (iface wan_parent mac : String) → Gives Fine Any (allocate_lease h iface wan_parent mac)
  unfolding allocate_lease Gives
  allocate-Fine iface wan_parent mac =
      bind-Gives Fine Any Any
        (wrapping "failed to create macvlan: %w"
          (in_world (create_macvlan h.kernel iface wan_parent mac)))
        _ (λ a f. (record { leases = f.leases; loops = f.loops }, any _))
        λ o t a f. (
          clean_up-Fine iface (after_macvlan h iface wan_parent mac a)
              (after_macvlan-Fine iface wan_parent mac a f).0,
          any _,
        )

  release-Fine : (l : Lease) (a : Agent W) → Fine a → Fine (release_lease h l a).1
  unfolding release_lease delete_lease save
  release-Fine l a f = record {
    leases = rw (stop-store h l.iface a) (delete-All l.iface a.store.leases f.leases);
    loops = stop-All l.iface a f.loops;
  }

  reply-Fine : (r : Result Lease × Agent W) → Fine r.1 → Fine (allocate_reply h r).1
  unfolding allocate_reply
  reply-Fine (ok l, a) f = f
  reply-Fine (err e, a) f = f

  new-Fine :
      (req : LeaseRequest) (mac : String) (o : Option Lease) (a : Agent W)
      → Fine a
      → Fine (allocate_if_new h req mac o a).1
  unfolding allocate_if_new Gives
  new-Fine req mac (some l) a f = f
  new-Fine req mac none a f =
      reply-Fine (allocate_lease h req.iface req.wan_parent mac a)
        (allocate-Fine req.iface req.wan_parent mac a f).0

  releasing-Fine : (iface : String) (r : Response × Agent W) → Fine r.1 → Fine (releasing iface r).1
  unfolding release_inflight
  releasing-Fine iface r f = record { leases = f.leases; loops = f.loops }

  allocate_free-Fine :
      (req : LeaseRequest) (mac : String) (a : Agent W) (b : Bool) (s : Store)
      → Fine a
      → s.leases ≡ a.store.leases
      → Fine (allocate_if_free h req mac (b, s) a).1
  unfolding allocate_if_free
  allocate_free-Fine req mac a false s f e = f
  allocate_free-Fine req mac a true s f e =
      releasing-Fine req.iface
        (allocate_if_new h req mac (get req.iface s) (record a { store = s }))
        (new-Fine req mac (get req.iface s) (record a { store = s })
          (record { leases = rw e f.leases; loops = f.loops }))

  allocate-mac-Fine :
      (req : LeaseRequest) (r : Result String) (a : Agent W)
      → Fine a
      → Fine (allocate_with_mac h req r a).1
  unfolding allocate_with_mac
  allocate-mac-Fine req (err e) a f = f
  allocate-mac-Fine req (ok mac) a f =
      let (b, s) = acquire_inflight req.iface a.store in
      allocate_free-Fine req mac a b s f (acquire-leases req.iface a.store)

  allocating-Fine :
      (r : Result LeaseRequest) (a : Agent W) → Fine a → Fine (handle_allocate_lease h r a).1
  unfolding handle_allocate_lease
  allocating-Fine (err e) a f = f
  allocating-Fine (ok req) a f =
      if_both (λ (p : Response × Agent W). Fine p.1)
        (is_empty req.iface || is_empty req.wan_parent || is_empty req.mac_address) _ _ f
        (allocate-mac-Fine req (h.parse_mac req.mac_address) a f)

  release_reply-Fine : (r : Result (Unit {0}) × Agent W) → Fine r.1 → Fine (release_reply h r).1
  unfolding release_reply
  release_reply-Fine (ok t, a) f = f
  release_reply-Fine (err e, a) f = f

  found-Fine :
      (iface : String) (o : Option Lease) (a : Agent W)
      → Fine a
      → Fine (release_found h iface o a).1
  unfolding release_found
  found-Fine iface none a f = f
  found-Fine iface (some l) a f = release_reply-Fine (release_lease h l a) (release-Fine l a f)

  release_free-Fine :
      (iface : String) (a : Agent W) (b : Bool) (s : Store)
      → Fine a
      → s.leases ≡ a.store.leases
      → Fine (release_if_free h iface (b, s) a).1
  unfolding release_if_free
  release_free-Fine iface a false s f e = f
  release_free-Fine iface a true s f e =
      releasing-Fine iface (release_found h iface (get iface s) (record a { store = s })) (
        found-Fine iface (get iface s) (record a { store = s })
          (record { leases = rw e f.leases; loops = f.loops }))

  releasing_one-Fine :
      (iface : String) (a : Agent W) → Fine a → Fine (handle_release_lease h iface a).1
  unfolding handle_release_lease
  releasing_one-Fine iface a f =
      let (b, s) = acquire_inflight iface a.store in
      release_free-Fine iface a b s f (acquire-leases iface a.store)

  pub serve-Fine :
      {B : Type 0} (decode : B → Result LeaseRequest) (route : Route B) (a : Agent W)
      → Fine a
      → Fine (serve h decode route a).1
  unfolding serve
  serve-Fine decode (post_leases body) a f = allocating-Fine (decode body) a f
  serve-Fine decode get_leases a f = f
  serve-Fine decode (get_one iface) a f = f
  serve-Fine decode (delete_one iface) a f = releasing_one-Fine iface a f
  serve-Fine decode get_health a f = f
