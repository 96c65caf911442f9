-- ===== src/Agent/Locking.antt =====
-- internal/agent/agent.go: the per-interface locks that the handlers hold.
use text.Mathlib.TextPositions.{eq_refl}
use cilium_dhcp_wanip_operat.Base.{
  ◌≡◌, refl, ◌∙◌, ap, ℕ, String, Bool, true, false, ◌||◌, Option, none, some, List, [], ◌∷◌, Result,
  ok, err, arith, is_empty, ◌==◌, if◌then◌else◌,
}
use cilium_dhcp_wanip_operat.Base.Action.{wrapping}
use cilium_dhcp_wanip_operat.Base.Dict.{lookup, delete, lookup-delete}
use cilium_dhcp_wanip_operat.Agent.Network.{create_macvlan}
use cilium_dhcp_wanip_operat.Agent.Quiet.{Quiet, bind-Quiet}
use cilium_dhcp_wanip_operat.Agent.State.{Lease, Store, Agent, Host, in_world}
use cilium_dhcp_wanip_operat.Agent.Store.{
  get, member, without, acquire_inflight, release_inflight, save, set_lease, delete_lease,
}
use cilium_dhcp_wanip_operat.Agent.Allocation.{
  cancel_found, stop_renewal_loop, start_renewal_loop, lease_up, after_macvlan, clean_up_on_failure,
  allocate_lease, release_lease,
}
use cilium_dhcp_wanip_operat.Agent.Handlers.{
  LeaseRequest, Response, in_progress, releasing, allocate_reply, allocate_if_new, allocate_if_free,
  allocate_with_mac, handle_allocate_lease, release_reply, release_found, release_if_free,
  handle_release_lease,
}

-- The locks that are held.
abbrev pub locks : {W : Type 0} → Agent W → Unit {0} → List String
locks a _ = a.store.inflight

without-absent : (x : String) (ys : List String) → member x ys ≡ false → without x ys ≡ ys
without-absent x [] m = refl
without-absent x (y ∷ ys) m = ground (arith, without-absent x ys)

module _ {W L D : Type 0} (h : Host W L D) where
  clean_up-locks :
      (iface : String) (r : Result Lease × Agent W)
      → (clean_up_on_failure h iface r).1.store.inflight ≡ r.1.store.inflight
  unfolding clean_up_on_failure
  clean_up-locks iface (ok l, a) = refl
  clean_up-locks iface (err e, a) = refl

  after_macvlan-locks :
      (iface wan_parent mac : String) → Quiet locks (after_macvlan h iface wan_parent mac)
  unfolding after_macvlan set_lease save start_renewal_loop
  after_macvlan-locks iface wan_parent mac =
      bind-Quiet locks (in_world (lease_up h iface wan_parent mac)) _ (λ a j. refl)
        (λ l.
          bind-Quiet locks (wrapping "failed to save lease: %w" (set_lease h l)) _ (λ a j. refl)
            (λ u a j. refl))

  allocate-locks :
      (iface wan_parent mac : String) → Quiet locks (allocate_lease h iface wan_parent mac)
  unfolding allocate_lease
  allocate-locks iface wan_parent mac =
      bind-Quiet locks
        (wrapping "failed to create macvlan: %w"
          (in_world (create_macvlan h.kernel iface wan_parent mac)))
        _ (λ a j. refl)
        (λ u a j.
          clean_up-locks iface (after_macvlan h iface wan_parent mac a)
          ∙ after_macvlan-locks iface wan_parent mac a j)

  stop-locks :
      (iface : String) (a : Agent W) (o : Option ℕ) → (cancel_found iface a o).store ≡ a.store
  unfolding cancel_found
  stop-locks iface a none = refl
  stop-locks iface a (some n) = refl

  pub stop-store : (iface : String) (a : Agent W) → (stop_renewal_loop iface a).store ≡ a.store
  unfolding stop_renewal_loop
  stop-store iface a = stop-locks iface a (lookup iface a.renewal_cancels)

  release-store :
      (l : Lease) (a : Agent W)
      → (release_lease h l a).1.store ≡ record a.store { leases = delete l.iface a.store.leases }
  unfolding release_lease delete_lease save
  release-store l a =
      ap {A = Store} (λ s. record s { leases = delete l.iface s.leases }) (stop-store l.iface a)

  reply-locks :
      (r : Result Lease × Agent W) → (allocate_reply h r).1.store.inflight ≡ r.1.store.inflight
  unfolding allocate_reply
  reply-locks (ok l, a) = refl
  reply-locks (err e, a) = refl

  new-locks :
      (req : LeaseRequest) (mac : String) (o : Option Lease) (a : Agent W)
      → (allocate_if_new h req mac o a).1.store.inflight ≡ a.store.inflight
  unfolding allocate_if_new
  new-locks req mac none a =
      reply-locks (allocate_lease h req.iface req.wan_parent mac a)
      ∙ allocate-locks req.iface req.wan_parent mac a tt
  new-locks req mac (some l) a = refl

  release_reply-locks :
      (r : Result (Unit {0}) × Agent W) → (release_reply h r).1.store.inflight ≡ r.1.store.inflight
  unfolding release_reply
  release_reply-locks (ok l, a) = refl
  release_reply-locks (err e, a) = refl

  found-locks :
      (iface : String) (o : Option Lease) (a : Agent W)
      → (release_found h iface o a).1.store.inflight ≡ a.store.inflight
  unfolding release_found
  found-locks iface none a = refl
  found-locks iface (some l) a =
      release_reply-locks (release_lease h l a) ∙ ap (λ s. s.inflight) (release-store l a)

  -- A lock that was taken is given back.
  given_back :
      (iface : String) (ls : List String) (r : Response × Agent W)
      → member iface ls ≡ false
      → r.1.store.inflight ≡ iface ∷ ls
      → (releasing iface r).1.store.inflight ≡ ls
  unfolding release_inflight
  given_back iface ls r m e = rw e (ground (arith, eq_refl iface, without-absent iface ls m))

  allocate_free-locks :
      (req : LeaseRequest) (mac : String) (a : Agent W) (b : Bool)
      → member req.iface a.store.inflight ≡ b
      → (allocate_if_free h req mac (acquire_inflight req.iface a.store) a).1.store.inflight
        ≡ a.store.inflight
  unfolding allocate_if_free acquire_inflight
  allocate_free-locks req mac a true m = ground arith
  allocate_free-locks req mac a false m =
      let s : Store = record a.store { inflight = req.iface ∷ a.store.inflight } in
      rw m (
        given_back req.iface a.store.inflight
          (allocate_if_new h req mac (get req.iface s) (record a { store = s })) m
          (new-locks req mac (get req.iface s) (record a { store = s })))

  release_free-locks :
      (iface : String) (a : Agent W) (b : Bool)
      → member iface a.store.inflight ≡ b
      → (release_if_free h iface (acquire_inflight iface a.store) a).1.store.inflight
        ≡ a.store.inflight
  unfolding release_if_free acquire_inflight
  release_free-locks iface a true m = ground arith
  release_free-locks iface a false m =
      let s : Store = record a.store { inflight = iface ∷ a.store.inflight } in
      rw m (
        given_back iface a.store.inflight
          (release_found h iface (get iface s) (record a { store = s })) m
          (found-locks iface (get iface s) (record a { store = s })))

  mac-locks :
      (req : LeaseRequest) (r : Result String) (a : Agent W)
      → (allocate_with_mac h req r a).1.store.inflight ≡ a.store.inflight
  unfolding allocate_with_mac
  mac-locks req (ok mac) a = allocate_free-locks req mac a (member req.iface a.store.inflight) refl
  mac-locks req (err e) a = refl

  allocating-locks :
      (r : Result LeaseRequest) (a : Agent W)
      → (handle_allocate_lease h r a).1.store.inflight ≡ a.store.inflight
  unfolding handle_allocate_lease
  allocating-locks (err e) a = refl
  allocating-locks (ok req) a = ground (arith, mac-locks req (h.parse_mac req.mac_address) a)

  -- Whatever the host answers and on every path, the handlers of POST and DELETE leave the locks as they were: one that a handler takes is given back.
  pub handlers-locks :
      (r : Result LeaseRequest) (iface : String) (a : Agent W)
      → ((handle_allocate_lease h r a).1.store.inflight ≡ a.store.inflight)
        × ((handle_release_lease h iface a).1.store.inflight ≡ a.store.inflight)
  unfolding handle_release_lease
  handlers-locks r iface a =
      (allocating-locks r a, release_free-locks iface a (member iface a.store.inflight) refl)

  -- While an operation on an interface is in flight, a valid request to allocate it and a request to release it are both answered by 409, and nothing changes.
  pub busy_refused :
      (req : LeaseRequest) (a : Agent W) {mac : String}
      → member req.iface a.store.inflight ≡ true
      → is_empty req.iface || is_empty req.wan_parent || is_empty req.mac_address ≡ false
      → h.parse_mac req.mac_address ≡ ok mac
      → (handle_allocate_lease h (ok req) a ≡ (in_progress req.iface, a))
        × (handle_release_lease h req.iface a ≡ (in_progress req.iface, a))
  unfolding handle_allocate_lease handle_release_lease allocate_with_mac allocate_if_free
      release_if_free acquire_inflight
  busy_refused req a m v p = ground arith

  -- Whatever the host answers to the steps of a release, whether an error is returned or not, the agent then has no lease under the interface, and all other leases as before.
  pub release_lease-get :
      (l : Lease) (j : String) (a : Agent W)
      → get j (release_lease h l a).1.store ≡ (if l.iface == j then none else get j a.store)
  release_lease-get l j a = rw (release-store l a) (lookup-delete l.iface j a.store.leases)
