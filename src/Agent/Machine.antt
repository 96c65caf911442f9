-- ===== src/Agent/Machine.antt =====
-- internal/agent: the host of the agent, with the agent's own DHCP client and gratuitous ARP.
pub mod Example
use cilium_dhcp_wanip_operat.Base.{ℕ, String, List, Result}
use cilium_dhcp_wanip_operat.Base.Action.{Action}
use cilium_dhcp_wanip_operat.Base.Dict.{Dict}
use cilium_dhcp_wanip_operat.Agent.Network.{Kernel}
use cilium_dhcp_wanip_operat.Agent.State.{Lease, FileReply, Host}
use cilium_dhcp_wanip_operat.Agent.Dhcp.{
  Dhcp, acquire_lease, renew_lease, rebind_lease, release_lease,
}
use cilium_dhcp_wanip_operat.Agent.Garp.{Sockets, send_gratuitous_arp}

-- What is outside the repository. `to4` is `net.IP.To4` of an address, with no bytes for nil, and
-- `mac_bytes` are the bytes of a `net.HardwareAddr`.
pub record Machine (W L D C P : Type 0) : Type 0 where
  pub kernel : Kernel W L
  pub mkdir_all : String → Action W (Unit {0})
  pub marshal : Dict Lease → Result D
  pub unmarshal : D → Result (Dict Lease)
  pub write_state : String → D → Action W (Unit {0})
  pub rename : String → String → Action W (Unit {0})
  pub read_state : String → W → FileReply D × W
  pub dhcp : Dhcp W C P
  pub sockets : Sockets W
  pub now : W → ℕ × W
  pub parse_mac : String → Result String
  pub to4 : String → List ℕ
  pub mac_bytes : String → List ℕ

module _ {W L D C P : Type 0} (m : Machine W L D C P) where
  unfoldable pub host : Host W L D
  unfolding acquire_lease renew_lease rebind_lease release_lease send_gratuitous_arp
  host = record {
    kernel = m.kernel;
    mkdir_all = m.mkdir_all;
    marshal = m.marshal;
    unmarshal = m.unmarshal;
    write_state = m.write_state;
    rename = m.rename;
    read_state = m.read_state;
    acquire_lease = acquire_lease m.dhcp;
    renew_lease = renew_lease m.dhcp;
    rebind_lease = rebind_lease m.dhcp;
    release_lease = release_lease m.dhcp;
    send_gratuitous_arp = λ iface ip mac count.
        send_gratuitous_arp m.sockets iface (m.to4 ip) (m.mac_bytes mac) count;
    now = m.now;
    parse_mac = m.parse_mac;
  }
