-- ===== src/Router/Reads.antt =====
-- internal/router/agent_client.go with internal/agent/agent.go: a lease that is read through the
-- client.
use mathlib.Core.Option
use cilium_dhcp_wanip_operat.Base.{◌≡◌, refl, String, Option, none, some, ok}
use cilium_dhcp_wanip_operat.Agent.State.{Lease, Agent, Host}
use cilium_dhcp_wanip_operat.Agent.Store.{get}
use cilium_dhcp_wanip_operat.Agent.Handlers.{status_of, serve, handle_get_lease}
use cilium_dhcp_wanip_operat.Router.Client.{Http, send, get_lease}
use cilium_dhcp_wanip_operat.Router.Wire.{GetWired}

module _ {W L D Q B : Type 0} (h : Host W L D) (http : Http (Agent W) Q B)
    (local_addr : String) where
  read-answered :
      (iface : String) (wire : GetWired h http local_addr iface) (o : Option Lease) (a : Agent W)
      → get iface a.store ≡ o
      → get_lease http local_addr iface a ≡ (ok (Option.map status_of o), a)
  unfolding get_lease send serve handle_get_lease
  read-answered iface wire none a e =
      rw (wire.made, wire.sent wire.get_request a, wire.route, e) refl
  read-answered iface wire (some l) a e =
      rw (wire.made, wire.sent wire.get_request a, wire.route, e, wire.decoded (status_of l)) refl

  -- `GetLease` of the client, whose request reaches the agent, gives exactly what the agent's store has under the interface, as a status or as no lease, and leaves the agent as it was.
  pub get_lease-get :
      (iface : String) (wire : GetWired h http local_addr iface) (a : Agent W)
      → get_lease http local_addr iface a ≡ (ok (Option.map status_of (get iface a.store)), a)
  get_lease-get iface wire a = read-answered iface wire (get iface a.store) a refl
