-- ===== src/Router/Wire.antt =====
-- internal/router/agent_client.go with internal/agent/agent.go: requests that reach the agent.
use cilium_dhcp_wanip_operat.Base.{
  ◌≡◌, refl, ℕ, String, Bool, true, false, none, some, Result, ok, err, eqb, if◌then◌else◌,
}
use cilium_dhcp_wanip_operat.Base.Action.{fails, wrap_result}
use cilium_dhcp_wanip_operat.Agent.State.{Agent, Host}
use cilium_dhcp_wanip_operat.Agent.Handlers.{
  LeaseRequest, LeaseStatus, Body, lease_response, lease_status, Route, post_leases, get_one, serve,
  handle_allocate_lease,
}
use cilium_dhcp_wanip_operat.Router.Client
use cilium_dhcp_wanip_operat.Router.Client.{Http, leases_url, lease_url, send, agent_error}

-- The wire to the agent for a POST request: it is marshalled, made and routed, the agent serves what
-- is sent, and the address in its answer is decoded.
pub record PostWired {W L D Q B : Type 0} (h : Host W L D) (http : Http (Agent W) Q B)
    (local_addr : String) (req : LeaseRequest) : Type 0 where
  pub decode : B → Result LeaseRequest
  pub encode : Body → B
  pub routed : Q → Route B
  pub body : B
  pub post_request : Q
  pub marshalled : http.marshal req ≡ ok body
  pub made : http.new_request "POST" (leases_url local_addr) (some body) ≡ ok post_request
  pub route : routed post_request ≡ post_leases body
  pub read : decode body ≡ ok req
  pub sent :
      (q : Q) (a : Agent W)
      → http.do_request q a
        ≡ (let (r, b) = serve h decode (routed q) a in (ok (r.code, encode r.body), b))
  pub decoded : (ip : String) (t : ℕ) → http.decode_lease (encode (lease_response ip t)) ≡ ok ip

-- The wire to the agent for the status of one interface: the GET request is made and routed, the
-- agent serves what is sent, and the status in its answer is decoded.
pub record GetWired {W L D Q B : Type 0} (h : Host W L D) (http : Http (Agent W) Q B)
    (local_addr iface : String) : Type 0 where
  pub decode : B → Result LeaseRequest
  pub encode : Body → B
  pub routed : Q → Route B
  pub get_request : Q
  pub made : http.new_request "GET" (lease_url local_addr iface) none ≡ ok get_request
  pub route : routed get_request ≡ get_one iface
  pub sent :
      (q : Q) (a : Agent W)
      → http.do_request q a
        ≡ (let (r, b) = serve h decode (routed q) a in (ok (r.code, encode r.body), b))
  pub decoded : (s : LeaseStatus) → http.decode_status (encode (lease_status s)) ≡ ok s

module _ {W L D Q B : Type 0} (h : Host W L D) (http : Http (Agent W) Q B)
    (local_addr : String) where
  chosen :
      (b : Bool) (r : Result String) (body : B) (a : Agent W)
      → (if b then Client.decoded http local_addr r else fails (agent_error http local_addr body)) a
        ≡ (
          (if b
              then wrap_result "decode response failed: %w" r
              else err (agent_error http local_addr body)),
          a,
        )
  chosen true r body a = refl
  chosen false r body a = refl

  -- What `AllocateLease` makes of the agent's answer.
  pub allocate-answered :
      (req : LeaseRequest) (wire : PostWired h http local_addr req) (a : Agent W)
      → let (r, b) = handle_allocate_lease h (ok req) a in
        Client.allocate_lease http local_addr req.iface req.wan_parent req.mac_address a ≡ (
          (if eqb r.code 201
              then wrap_result "decode response failed: %w" (http.decode_lease (wire.encode r.body))
              else err (agent_error http local_addr (wire.encode r.body))),
          b,
        )
  unfolding Client.allocate_lease send serve
  allocate-answered req wire a =
      let (r, b) = handle_allocate_lease h (ok req) a in
      rw (wire.marshalled, wire.made, wire.sent wire.post_request a, wire.route, wire.read)
        (chosen (eqb r.code 201) (http.decode_lease (wire.encode r.body)) (wire.encode r.body) b)
