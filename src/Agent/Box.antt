-- ===== src/Agent/Box.antt =====
-- A small host for samples: links, files, and a DHCP server that answers or not; and agents on it.
pub mod Laws
use cilium_dhcp_wanip_operat.Base.{
  ◌*◌, String, Bool, true, false, Option, none, some, List, [], ◌∷◌, lit, Result, ok, err,
  if◌then◌else◌,
}
use cilium_dhcp_wanip_operat.Base.Action.{Action}
use cilium_dhcp_wanip_operat.Base.Dict.{Dict, lookup, insert}
use cilium_dhcp_wanip_operat.Agent.Network.{found, not_found, written, Kernel}
use cilium_dhcp_wanip_operat.Agent.State.{Lease, LeaseInfo, Agent, Host}
use cilium_dhcp_wanip_operat.Agent.Store.{member, without}
use cilium_dhcp_wanip_operat.Agent.Allocation.{minute, allocate_lease, new_lease}
use cilium_dhcp_wanip_operat.Agent.Handlers.{LeaseRequest}
use cilium_dhcp_wanip_operat.Agent.Persistence.{reply_of}

pub record Box : Type 0 where
  pub links : List String
  pub files : Dict (Dict Lease)
  pub serves : Bool
  pub full : Bool

abbrev pub kernel : Kernel Box String
kernel = record {
  link_by_name = λ n b. (if member n b.links then found n else not_found (lit "no link"), b);
  add_macvlan = λ n p mac b.
      if member n b.links
      then (err (lit "file exists"), b)
      else (ok n, record b { links = n ∷ b.links });
  link_set_up = λ l b. (ok tt, b);
  link_del = λ l b. (ok tt, record b { links = without l b.links });
  neigh_set = λ l ip b. (ok tt, b);
  neigh_del = λ l ip b. (written, b);
  write_file = λ path text b. (written, b);
}

abbrev pub info : LeaseInfo
info = record {
  ip_address = "203.0.113.7";
  subnet_mask = "255.255.255.0";
  dhcp_server_ip = "203.0.113.1";
  lease_time = 60 * minute;
  renewal_time = 30 * minute;
  rebind_time = 50 * minute;
  offer = some "offer";
  ack = some "ack";
}

abbrev pub answer : Box → Result LeaseInfo
answer b = if b.serves then ok info else err (lit "no offer")

abbrev pub move : String → String → Option (Dict Lease) → Action Box (Unit {0})
move old new none b = (err (lit "no such file"), b)
move old new (some d) b = (ok tt, record b { files = insert new d b.files })

abbrev pub box : Host Box String (Dict Lease)
box = record {
  kernel = kernel;
  mkdir_all = λ path b. (ok tt, b);
  marshal = λ m. ok m;
  unmarshal = λ m. ok m;
  write_state = λ path d b.
      if b.full
      then (err (lit "no space"), b)
      else (ok tt, record b { files = insert path d b.files });
  rename = λ old new b. move old new (lookup old b.files) b;
  read_state = λ path b. (reply_of (lookup path b.files), b);
  acquire_lease = λ iface mac b. (answer b, b);
  renew_lease = λ l b. (answer b, b);
  rebind_lease = λ l b. (answer b, b);
  release_lease = λ l b. (ok tt, b);
  send_gratuitous_arp = λ iface ip mac n b. (ok tt, b);
  now = λ b. (1000, b);
  parse_mac = λ s. ok s;
}

abbrev pub agent_on : Box → Agent Box
agent_on b = record {
  store = record { leases = []; state_file = "leases.json"; inflight = [] };
  shut_down = false;
  renewal_cancels = [];
  loops = [];
  started_loops = 0;
  world = b;
}

abbrev pub with_server : Box
with_server = record { links = "eth0" ∷ []; files = []; serves = true; full = false }

abbrev pub without_server : Box
without_server = record with_server { serves = false }

abbrev pub no_space : Box
no_space = record with_server { full = true }

abbrev pub mac : String
mac = "02:00:00:00:00:01"

abbrev pub first_lease : Lease
first_lease = new_lease "wan0" "eth0" mac info 1000 1000

abbrev pub held : Agent Box
held = (allocate_lease box "wan0" "eth0" mac (agent_on with_server)).1

abbrev pub request : LeaseRequest
request = record { iface = "wan0"; wan_parent = "eth0"; mac_address = mac }
