-- ===== src/Agent/Machine/Example.antt =====
-- A small host of the agent, with its DHCP client.
use cilium_dhcp_wanip_operat.Base.{String, [], ◌∷◌, ok}
use cilium_dhcp_wanip_operat.Base.Dict.{Dict}
use cilium_dhcp_wanip_operat.Agent.State.{Lease}
use cilium_dhcp_wanip_operat.Agent.Garp.{Sockets}
use cilium_dhcp_wanip_operat.Agent.Dhcp.Example.{server}
use cilium_dhcp_wanip_operat.Agent.Box.{Box, box}
use cilium_dhcp_wanip_operat.Agent.Machine.{Machine}

abbrev sockets : Sockets Box
sockets = record {
  interface_by_name = λ name b. (ok 4, b);
  packet_socket = λ protocol b. (ok 5, b);
  send_to = λ fd packet protocol index b. (ok tt, b);
  sleep = λ time b. b;
  close = λ fd b. b;
}

abbrev pub machine : Machine Box String (Dict Lease) (Unit {0}) String
machine = record {
  kernel = box.kernel;
  mkdir_all = box.mkdir_all;
  marshal = box.marshal;
  unmarshal = box.unmarshal;
  write_state = box.write_state;
  rename = box.rename;
  read_state = box.read_state;
  dhcp = server;
  sockets = sockets;
  now = box.now;
  parse_mac = box.parse_mac;
  to4 = λ ip. 203 ∷ 0 ∷ 113 ∷ 9 ∷ [];
  mac_bytes = λ mac. 2 ∷ 0 ∷ 0 ∷ 0 ∷ 0 ∷ 1 ∷ [];
}
