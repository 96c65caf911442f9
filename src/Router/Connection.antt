-- ===== src/Router/Connection.antt =====
-- internal/router/agent_client.go: `NewAgentClient` and `Close`, and the calls as the controller
-- sees them. golang.org/x/crypto/ssh and the sockets are a parameter.
pub mod Calls
use Prim.Native.String
use cilium_dhcp_wanip_operat.Base.{ℕ, String, Option, some, none, List, Result, ok, err, fmt}
use cilium_dhcp_wanip_operat.Base.Action.{Action, returns, wrapping, ◌>>=◌}
use cilium_dhcp_wanip_operat.Router.Tunnel.{Tunnel, Answers, new_tunnel, cancel, run_tunnel}

-- ssh.ClientConfig, with the signer of its one method of authentication. Every host key is accepted.
pub record ClientConfig : Type 0 where
  pub user : String
  pub signer : String
  pub timeout : ℕ

-- `C` is the type of SSH clients, `L` that of listeners.
pub record Network (W C L : Type 0) : Type 0 where
  pub ssh_dial : String → ClientConfig → Action W C
  pub close_ssh : C → Action W (Unit {0})
  pub listen : String → Action W L
  pub address_of : L → String

pub record AgentClient (C L N : Type 0) : Type 0 where
  pub ssh_client : C
  pub local_addr : String
  pub local_listener : L
  pub tunnel : Tunnel N

module _ {W C L N : Type 0} (net : Network W C L) where
  -- A listener that cannot be opened closes the SSH client; the error of that is dropped.
  unfoldable pub after_listen : C → Result L × W → Result (AgentClient C L N) × W
  after_listen client (err e, w) =
      let (_, w') = net.close_ssh client w in (err (fmt "local listen failed: %w" e), w')
  after_listen client (ok listener, w) = (
    ok (record {
      ssh_client = client;
      local_addr = net.address_of listener;
      local_listener = listener;
      tunnel = new_tunnel;
    }),
    w,
  )

  unfoldable pub new_agent_client : String → ClientConfig → Action W (AgentClient C L N)
  unfolding after_listen
  new_agent_client router_addr ssh_config = do
    client ←
        wrapping "ssh dial failed: %w" (net.ssh_dial (String.◌++◌ router_addr ":22") ssh_config)
    (λ w. after_listen client (net.listen "127.0.0.1:0" w))

  -- `Close` cancels the tunnel and waits for its goroutine, whose calls meanwhile get `answers`.
  unfoldable pub close_client :
      List (Answers N) → AgentClient C L N → W → (Result (Unit {0}) × Tunnel N) × W
  close_client answers client w =
      let (r, w') = net.close_ssh client.ssh_client w in
      ((r, run_tunnel answers (cancel client.tunnel)), w')
