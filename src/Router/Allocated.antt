-- ===== src/Router/Allocated.antt =====
-- internal/router/agent_client.go with internal/agent/agent.go: an allocation through the client.
use cilium_dhcp_wanip_operat.Base.{
  ◌≡◌, refl, sym, ◌∙◌, ap, String, Bool, true, false, ◌||◌, Option, none, some, Result, ok, err,
  arith, eqb, is_empty, if◌then◌else◌,
}
use cilium_dhcp_wanip_operat.Base.Action.{wrap_result}
use cilium_dhcp_wanip_operat.Agent.Network.Links.{KernelLaws}
use cilium_dhcp_wanip_operat.Agent.State.{Lease, Store, Agent, Host}
use cilium_dhcp_wanip_operat.Agent.Store.{get, acquire_inflight, release_inflight}
use cilium_dhcp_wanip_operat.Agent.Allocation.{allocate_lease}
use cilium_dhcp_wanip_operat.Agent.Rollback.{QuietHost, allocated}
use cilium_dhcp_wanip_operat.Agent.Handlers.{
  LeaseRequest, lease_response, Response, allocate_reply, allocate_if_new, allocate_if_free,
  allocate_with_mac, handle_allocate_lease,
}
use cilium_dhcp_wanip_operat.Router.Client
use cilium_dhcp_wanip_operat.Router.Client.{Http, leases_url, send, agent_error}
use cilium_dhcp_wanip_operat.Router.Wire.{PostWired, allocate-answered}

module _ {W L D : Type 0} (h : Host W L D) {has : W → String → Bool} {name_of : L → String}
    (laws : KernelLaws h.kernel has name_of) (quiet : QuietHost h has) where
  -- An answer of 201 has the address of a lease that is held.
  abbrev pub Posted : String → Response × Agent W → Type 0
  Posted iface (r, b) =
      r.code ≡ 201
      → (l : Lease) × (r.body ≡ lease_response l.ip_address l.expires_at)
        × (l.iface ≡ iface)
        × (get iface b.store ≡ some l)

  reply-Posted :
      (iface wan_parent mac : String) (a : Agent W) (r : Result Lease)
      → (allocate_lease h iface wan_parent mac a).0 ≡ r
      → Posted iface (allocate_reply h (r, (allocate_lease h iface wan_parent mac a).1))
  unfolding allocate_reply
  reply-Posted iface wan_parent mac a (ok l) d c =
      let (absent, only, held) = allocated h laws quiet iface wan_parent mac a d in
      (l, refl, held.0, held.1)
  reply-Posted iface wan_parent mac a (err e) d c = ground (arith, c)

  new-Posted :
      (req : LeaseRequest) (mac : String) (o : Option Lease) (a : Agent W)
      → Posted req.iface (allocate_if_new h req mac o a)
  unfolding allocate_if_new
  new-Posted req mac none a =
      reply-Posted req.iface req.wan_parent mac a
        (allocate_lease h req.iface req.wan_parent mac a).0 refl
  new-Posted req mac (some l) a = λ c. ground (arith, c)

  free-Posted :
      (req : LeaseRequest) (mac : String) (f : Bool) (s : Store) (a : Agent W)
      → Posted req.iface (allocate_if_free h req mac (f, s) a)
  unfolding allocate_if_free release_inflight
  free-Posted req mac true s a = new-Posted req mac (get req.iface s) (record a { store = s })
  free-Posted req mac false s a = λ c. ground (arith, c)

  mac-Posted :
      (req : LeaseRequest) (r : Result String) (a : Agent W)
      → Posted req.iface (allocate_with_mac h req r a)
  unfolding allocate_with_mac
  mac-Posted req (ok mac) a =
      let (f, s) = acquire_inflight req.iface a.store in free-Posted req mac f s a
  mac-Posted req (err e) a = λ c. ground (arith, c)

  valid-Posted :
      (req : LeaseRequest) (a : Agent W) (b : Bool)
      → is_empty req.iface || is_empty req.wan_parent || is_empty req.mac_address ≡ b
      → Posted req.iface (handle_allocate_lease h (ok req) a)
  unfolding handle_allocate_lease
  valid-Posted req a true e = λ c. ground (arith, c, e)
  valid-Posted req a false e = rw e (mac-Posted req (h.parse_mac req.mac_address) a)

  module _ {Q B : Type 0} (http : Http (Agent W) Q B) (local_addr : String) where
    -- The lease that the agent holds, with its address.
    abbrev pub HeldAt : String → String → Agent W → Type 0
    HeldAt iface ip b =
        (l : Lease) × (l.ip_address ≡ ip) × (l.iface ≡ iface) × (get iface b.store ≡ some l)

    same_address :
        (address : String) (r : Result String) {ip : String}
        → r ≡ ok address
        → wrap_result "decode response failed: %w" r ≡ ok ip
        → address ≡ ip
    same_address address (ok x) e d = ground (arith, e, d)
    same_address address (err x) e d = ground (arith, d)

    from_answer :
        (req : LeaseRequest) (wire : PostWired h http local_addr req) (r : Response) (b : Agent W)
        {ip : String}
        → (c : Bool) → eqb r.code 201 ≡ c
        → (if c
            then wrap_result "decode response failed: %w" (http.decode_lease (wire.encode r.body))
            else err (agent_error http local_addr (wire.encode r.body)))
          ≡ ok ip
        → Posted req.iface (r, b)
        → HeldAt req.iface ip b
    from_answer req wire r b true e d posted =
        let (l, body, named, got) = posted (ground (arith, e)) in
        (
          l,
          same_address l.ip_address (http.decode_lease (wire.encode r.body))
              (ap (λ x. http.decode_lease (wire.encode x)) body
                ∙ wire.decoded l.ip_address l.expires_at)
              d,
          named,
          got,
        )
    from_answer req wire r b false e d posted = ground (arith, d)

    -- If `AllocateLease` of the client, whose request reaches the agent on a host that keeps the laws of netlink, returns an address, then the agent holds a lease under the interface of the request, and the address is that of the lease.
    pub allocate_lease-HeldAt :
        (req : LeaseRequest) (wire : PostWired h http local_addr req) (a : Agent W) {ip : String}
        → (Client.allocate_lease http local_addr req.iface req.wan_parent req.mac_address a).0
          ≡ ok ip
        → HeldAt req.iface ip
            (Client.allocate_lease http local_addr req.iface req.wan_parent req.mac_address a).1
    allocate_lease-HeldAt req wire a d =
        let (r, b) = handle_allocate_lease h (ok req) a in
        let e = allocate-answered h http local_addr req wire a in
        rw e (
          from_answer req wire r b (eqb r.code 201) refl (sym (ap (λ x. x.0) e) ∙ d) (
            valid-Posted req a
              (is_empty req.iface || is_empty req.wan_parent || is_empty req.mac_address) refl))
