-- ===== src/Agent/Dhcp/Example.antt =====
-- A DHCP server that gives each exchange the same acknowledgement.
use cilium_dhcp_wanip_operat.Base.{refl, inr, ◌*◌, String, true, none, some, ok, err, lit, arith}
use cilium_dhcp_wanip_operat.Agent.Box.{Box}
use cilium_dhcp_wanip_operat.Agent.Dhcp.{Dhcp}
use cilium_dhcp_wanip_operat.Agent.Dhcp.Times.{Timed}

-- A packet is the address that it gives; its lease time is that of an infinite lease.
abbrev pub server : Dhcp Box (Unit {0}) String
server = record {
  new_client = λ iface mac b. (ok tt, b);
  close_client = λ c b. (ok tt, b);
  request = λ c b. (ok (record { offered = some "offer"; acked = some "203.0.113.9" }), b);
  renew = λ c x b. (ok (some (record { offered = none; acked = some "" })), b);
  send_and_read = λ c to p b. (err (lit "timeout"), b);
  release = λ c x b. (ok tt, b);
  from_bytes = λ s. ok s;
  to_bytes = λ p. p;
  client_packet = λ ip mac. ip;
  request_from_offer = λ p. ok p;
  with_server_identifier = λ ip p. p;
  is_ack = λ p. true;
  message_type = λ p. "ACK";
  your_ip_addr = λ p. p;
  subnet_mask = λ p. none;
  server_identifier = λ p. "203.0.113.1";
  lease_time = λ p t. 4294967295 * 1000000000;
  renewal_time = λ p t. t;
  rebinding_time = λ p t. t;
}

pub server-Timed : Timed server
unfolding Timed
server-Timed p t = inr (4294967295, ground arith, refl)
