-- ===== src/Router/Client.antt =====
-- internal/router/agent_client.go: the calls of the agent's HTTP interface. `net/http` and JSON are
-- a parameter: `Q` is the type of requests, `B` that of bodies.
use Prim.Native.String
use cilium_dhcp_wanip_operat.Base.{
  ℕ, String, Option, none, some, List, Text, lit, fmt, Result, eqb, if◌then◌else◌,
}
use cilium_dhcp_wanip_operat.Base.Action.{Action, returns, fails, wrapping, ◌>>=◌}
use cilium_dhcp_wanip_operat.Agent.Handlers.{LeaseRequest, LeaseStatus}

-- `decode_error` is what decoding leaves in an `ErrorResponse`, which is empty after an error;
-- `decode_lease` gives the field `ipAddress` of a `LeaseResponse`.
pub record Http (W Q B : Type 0) : Type 0 where
  pub new_request : String → String → Option B → Result Q
  pub do_request : Q → Action W (ℕ × B)
  pub marshal : LeaseRequest → Result B
  pub decode_error : B → String
  pub decode_lease : B → Result String
  pub decode_list : B → Result (List LeaseStatus)
  pub decode_status : B → Result LeaseStatus

abbrev pub leases_url : String → String
leases_url local_addr = String.◌++◌ "http://" (String.◌++◌ local_addr "/leases")

abbrev pub lease_url : String → String → String
lease_url local_addr iface = String.◌++◌ (leases_url local_addr) (String.◌++◌ "/" iface)

module _ {W Q B : Type 0} (http : Http W Q B) (local_addr : String) where
  -- The request is made and sent.
  unfoldable pub send : String → String → Option B → Action W (ℕ × B)
  send method url body = do
    q ← wrapping "failed to create request: %w" (λ w. (http.new_request method url body, w))
    wrapping "agent request failed: %w" (http.do_request q)

  -- `agent returned %d: %s`, without the number.
  abbrev pub agent_error : B → Text
  agent_error body = fmt "agent returned %d: %s" (lit (http.decode_error body))

  abbrev pub decoded : {A : Type 0} → Result A → Action W A
  decoded r = wrapping "decode response failed: %w" (λ w. (r, w))

  unfoldable pub allocate_lease : String → String → String → Action W String
  unfolding send
  allocate_lease iface wan_parent mac_addr = do
    body ← wrapping "failed to marshal request: %w" (λ w. (
      http.marshal (record { iface = iface; wan_parent = wan_parent; mac_address = mac_addr }),
      w,
    ))
    resp ← send "POST" (leases_url local_addr) (some body)
    if eqb resp.0 201 then decoded (http.decode_lease resp.1) else fails (agent_error resp.1)

  unfoldable pub list_leases : Action W (List LeaseStatus)
  unfolding send
  list_leases = do
    resp ← send "GET" (leases_url local_addr) none
    if eqb resp.0 200 then decoded (http.decode_list resp.1) else fails (agent_error resp.1)

  -- `none` is a lease that is not there.
  unfoldable pub get_lease : String → Action W (Option LeaseStatus)
  unfolding send
  get_lease iface = do
    resp ← send "GET" (lease_url local_addr iface) none
    if eqb resp.0 404
        then returns none
        else if eqb resp.0 200
        then (do status ← decoded (http.decode_status resp.1); returns (some status))
        else fails (agent_error resp.1)

  -- A lease that is not there is released already.
  unfoldable pub release_lease : String → Action W (Unit {0})
  unfolding send
  release_lease iface = do
    resp ← send "DELETE" (lease_url local_addr iface) none
    if eqb resp.0 404
        then returns tt
        else if eqb resp.0 204
        then returns tt
        else fails (agent_error resp.1)
