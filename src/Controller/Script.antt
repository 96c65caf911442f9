-- ===== src/Controller/Script.antt =====
-- internal/controller/publicipclaim_controller.go: `defaultRunRouterScript`, which asks the agent
-- of the router for a lease. The deadlines of its contexts are part of what the calls answer.
use cilium_dhcp_wanip_operat.Base.{String}
use cilium_dhcp_wanip_operat.Base.Action.{Action, wrapping, ◌>>=◌}
use cilium_dhcp_wanip_operat.Api.{Claim}
use cilium_dhcp_wanip_operat.Router.Connection.Calls.{AgentCalls}
use cilium_dhcp_wanip_operat.Controller.Credentials.{Keys, ssh_signer, client_config}

-- `defer func() { _ = agentClient.Close() }()`
abbrev pub deferring : {W A : Type 0} → Action W (Unit {0}) → Action W A → Action W A
deferring close m w = let (r, w') = m w in let (_, w'') = close w' in (r, w'')

unfoldable pub default_run_router_script :
    {W T : Type 0} → Keys W → AgentCalls W T → Claim → String → String → Action W String
unfolding ssh_signer
default_run_router_script keys agents c wan_if mac_addr = do
  signer ← ssh_signer keys c
  t ←
      wrapping "failed to connect to router agent: %w"
        (agents.connect c.spec.router.host (client_config c signer))
  deferring (agents.disconnect t) (
      wrapping "agent lease allocation failed: %w"
        (agents.allocate_lease t wan_if c.spec.router.wan_parent mac_addr))
