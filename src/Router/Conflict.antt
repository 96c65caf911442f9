-- ===== src/Router/Conflict.antt =====
-- internal/router/agent_client.go with internal/agent/agent.go: an allocation for an interface that
-- has a lease.
use cilium_dhcp_wanip_operat.Base.{
  ◌≡◌, refl, String, Bool, true, false, ◌||◌, some, Text, Result, ok, err, eqb, is_empty,
  if◌then◌else◌,
}
use cilium_dhcp_wanip_operat.Base.Action.{wrap_result}
use cilium_dhcp_wanip_operat.Agent.State.{Lease, Agent, Host}
use cilium_dhcp_wanip_operat.Agent.Store.{get, member, acquire_inflight, release_inflight}
use cilium_dhcp_wanip_operat.Agent.Handlers.{
  LeaseRequest, Response, allocate_if_new, allocate_if_free, allocate_with_mac,
  handle_allocate_lease,
}
use cilium_dhcp_wanip_operat.Router.Client
use cilium_dhcp_wanip_operat.Router.Client.{Http, agent_error}
use cilium_dhcp_wanip_operat.Router.Wire.{PostWired, allocate-answered}

-- An answer that is not 201, after which the agent has the leases, the loops and the host that it had.
pub record Refused {W : Type 0} (a : Agent W) (r : Response × Agent W) : Type 0 where
  pub code : eqb r.0.code 201 ≡ false
  pub leases : r.1.store.leases ≡ a.store.leases
  pub loops : r.1.loops ≡ a.loops
  pub world : r.1.world ≡ a.world

-- The result is an error, and the agent's leases, loops and host are as they were.
pub record Blocked {W : Type 0} (a : Agent W) (r : Result String × Agent W) : Type 0 where
  pub failed : (e : Text) × (r.0 ≡ err e)
  pub leases : r.1.store.leases ≡ a.store.leases
  pub loops : r.1.loops ≡ a.loops
  pub world : r.1.world ≡ a.world

module _ {W L D : Type 0} (h : Host W L D) where
  free-Refused :
      (req : LeaseRequest) (mac : String) (a : Agent W) (l : Lease)
      → get req.iface a.store ≡ some l
      → (b : Bool) → member req.iface a.store.inflight ≡ b
      → Refused a (allocate_if_free h req mac (acquire_inflight req.iface a.store) a)
  unfolding allocate_if_free acquire_inflight allocate_if_new release_inflight
  free-Refused req mac a l e true m =
      rw m (record { code = refl; leases = refl; loops = refl; world = refl })
  free-Refused req mac a l e false m =
      rw (m, e) (record { code = refl; leases = refl; loops = refl; world = refl })

  mac-Refused :
      (req : LeaseRequest) (r : Result String) (a : Agent W) (l : Lease)
      → get req.iface a.store ≡ some l
      → Refused a (allocate_with_mac h req r a)
  unfolding allocate_with_mac
  mac-Refused req (err x) a l e = record { code = refl; leases = refl; loops = refl; world = refl }
  mac-Refused req (ok mac) a l e =
      free-Refused req mac a l e (member req.iface a.store.inflight) refl

  held-Refused :
      (req : LeaseRequest) (a : Agent W) (l : Lease)
      → get req.iface a.store ≡ some l
      → (b : Bool) → is_empty req.iface || is_empty req.wan_parent || is_empty req.mac_address ≡ b
      → Refused a (handle_allocate_lease h (ok req) a)
  unfolding handle_allocate_lease
  held-Refused req a l e true v =
      rw v (record { code = refl; leases = refl; loops = refl; world = refl })
  held-Refused req a l e false v = rw v (mac-Refused req (h.parse_mac req.mac_address) a l e)

  module _ {Q B : Type 0} (http : Http (Agent W) Q B) (local_addr : String) where
    answer-Blocked :
        (body : B) (r : Response) (a b : Agent W) (x : Result String)
        → Refused a (r, b)
        → Blocked a ((if eqb r.code 201 then x else err (agent_error http local_addr body)), b)
    answer-Blocked body r a b x f = record {
      failed = (agent_error http local_addr body, rw f.code refl);
      leases = f.leases;
      loops = f.loops;
      world = f.world;
    }

    -- `AllocateLease` of the client for an interface under which the agent has a lease, active or stale, returns an error, and the agent's leases, renewal loops and host stay as they were.
    pub allocate_lease-Blocked :
        (req : LeaseRequest) (wire : PostWired h http local_addr req) (a : Agent W) (l : Lease)
        → get req.iface a.store ≡ some l
        → Blocked a
            (Client.allocate_lease http local_addr req.iface req.wan_parent req.mac_address a)
    allocate_lease-Blocked req wire a l e =
        let (r, b) = handle_allocate_lease h (ok req) a in
        rw (allocate-answered h http local_addr req wire a) (
          answer-Blocked (wire.encode r.body) r a b
            (wrap_result "decode response failed: %w" (http.decode_lease (wire.encode r.body)))
            (held-Refused req a l e
              (is_empty req.iface || is_empty req.wan_parent || is_empty req.mac_address) refl))
