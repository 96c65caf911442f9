-- ===== src/Router/Connection/Calls.antt =====
-- internal/router/agent_client.go: what the controller calls, and how the client gives it.
use cilium_dhcp_wanip_operat.Base.{String, Option, List}
use cilium_dhcp_wanip_operat.Base.Action.{Action}
use cilium_dhcp_wanip_operat.Agent.Handlers.{LeaseStatus}
use cilium_dhcp_wanip_operat.Router.Client
use cilium_dhcp_wanip_operat.Router.Client.{Http}
use cilium_dhcp_wanip_operat.Router.Connection.{
  ClientConfig, Network, AgentClient, new_agent_client, close_client,
}
use cilium_dhcp_wanip_operat.Router.Tunnel.{Answers}

-- `T` is the type of clients.
pub record AgentCalls (W T : Type 0) : Type 0 where
  pub connect : String → ClientConfig → Action W T
  pub allocate_lease : T → String → String → String → Action W String
  pub get_lease : T → String → Action W (Option LeaseStatus)
  pub release_lease : T → String → Action W (Unit {0})
  pub disconnect : T → Action W (Unit {0})

-- The calls go to the local end of the client's tunnel.
unfoldable pub agent_calls :
    {W C L N Q B : Type 0}
    → Network W C L
    → (AgentClient C L N → Http W Q B)
    → List (Answers N)
    → AgentCalls W (AgentClient C L N)
agent_calls net http answers = record {
  connect = new_agent_client net;
  allocate_lease = λ t. Client.allocate_lease (http t) t.local_addr;
  get_lease = λ t. Client.get_lease (http t) t.local_addr;
  release_lease = λ t. Client.release_lease (http t) t.local_addr;
  disconnect = λ t w. let ((r, _), w') = close_client net answers t w in (r, w');
}
