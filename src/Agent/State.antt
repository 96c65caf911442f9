-- ===== src/Agent/State.antt =====
-- internal/agent/lease/types.go and internal/agent/agent.go: the state of the agent, and the host
-- that it runs on as a parameter.
use cilium_dhcp_wanip_operat.Base.{ℕ, String, Bool, Option, List, Text, Result}
use cilium_dhcp_wanip_operat.Base.Action.{Action}
use cilium_dhcp_wanip_operat.Base.Dict.{Dict}
use cilium_dhcp_wanip_operat.Agent.Network.{Kernel}

pub data Status : Type 0 where
  active stale expired : Status

-- Addresses are texts, times and durations nanoseconds; `none` is a nil packet.
pub record Lease : Type 0 where
  pub iface : String
  pub wan_parent : String
  pub ip_address : String
  pub dhcp_server_ip : String
  pub mac_address : String
  pub expires_at : ℕ
  pub lease_time : ℕ
  pub renewal_count : ℕ
  pub status : Status
  pub interface_exists : Bool
  pub created_at : ℕ
  pub dhcp_offer : Option String
  pub dhcp_ack : Option String

-- What the DHCP client returns of an exchange, with the bytes of its packets.
pub record LeaseInfo : Type 0 where
  pub ip_address : String
  pub subnet_mask : String
  pub dhcp_server_ip : String
  pub lease_time : ℕ
  pub renewal_time : ℕ
  pub rebind_time : ℕ
  pub offer : Option String
  pub ack : Option String

pub record Store : Type 0 where
  pub leases : Dict Lease
  pub state_file : String
  pub inflight : List String

-- A renewal goroutine that has not returned: its lease, its wait after a failure, and its timer.
pub record Loop : Type 0 where
  pub number : ℕ
  pub lease : Lease
  pub cancelled : Bool
  pub backoff : ℕ
  pub timer : ℕ

-- `renewal_cancels` has for an interface the number of the loop that its cancel function ends.
pub record Agent (W : Type 0) : Type 0 where
  pub store : Store
  pub shut_down : Bool
  pub renewal_cancels : Dict ℕ
  pub loops : List Loop
  pub started_loops : ℕ
  pub world : W

-- An answer of `os.ReadFile`.
pub data FileReply (D : Type 0) : Type 0 where
  contents : D → FileReply D
  no_file : FileReply D
  unreadable : Text → FileReply D

-- The kernel, the disk, whose files hold data of the type `D`, JSON, the DHCP client, gratuitous ARP
-- and the clock. `write_state` is `os.WriteFile` of a state file. The two that are code of the agent
-- are filled in by `Agent.Machine`.
pub record Host (W L D : Type 0) : Type 0 where
  pub kernel : Kernel W L
  pub mkdir_all : String → Action W (Unit {0})
  pub marshal : Dict Lease → Result D
  pub unmarshal : D → Result (Dict Lease)
  pub write_state : String → D → Action W (Unit {0})
  pub rename : String → String → Action W (Unit {0})
  pub read_state : String → W → FileReply D × W
  pub acquire_lease : String → String → Action W LeaseInfo
  pub renew_lease : Lease → Action W LeaseInfo
  pub rebind_lease : Lease → Action W LeaseInfo
  pub release_lease : Lease → Action W (Unit {0})
  pub send_gratuitous_arp : String → String → String → ℕ → Action W (Unit {0})
  pub now : W → ℕ × W
  pub parse_mac : String → Result String

module _ {W A : Type 0} where
  -- A call of the host.
  abbrev pub in_world : Action W A → Action (Agent W) A
  in_world m a = let (r, w) = m a.world in (r, record a { world = w })
