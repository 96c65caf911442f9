-- ===== src/Agent/Dhcp.antt =====
-- internal/agent/dhcp/client.go: the exchanges of the DHCP client, over the packages dhcpv4 and
-- nclient4 as a parameter. An IP address is a text, which is empty for nil; a duration is an int64
-- by its bit pattern, in nanoseconds.
pub mod Times
pub mod Terms
pub mod Example
mod Samples
use cilium_dhcp_wanip_operat.Base.{
  ℕ, zero, suc, ◌-◌, ◌*◌, ◌/◌, ◌%◌, ◌^◌, String, Bool, true, false, not, ◌&&◌, ◌||◌, Option, none,
  some, Result, ok, err, lit, fmt, ◌==◌, ltb, is_empty, if◌then◌else◌,
}
use cilium_dhcp_wanip_operat.Base.Action.{Action, returns, fails, wrapping, ◌>>=◌}
use cilium_dhcp_wanip_operat.Agent.State.{Lease, LeaseInfo}

-- nclient4.Lease: an offer and an acknowledgement, each perhaps nil.
pub record Exchange (P : Type 0) : Type 0 where
  pub offered : Option P
  pub acked : Option P

-- `C` is the type of clients, `P` that of packets. A getter of a duration takes the default that it
-- gives for a packet without the option.
pub record Dhcp (W C P : Type 0) : Type 0 where
  pub new_client : String → String → Action W C
  pub close_client : C → Action W (Unit {0})
  pub request : C → Action W (Exchange P)
  pub renew : C → Exchange P → Action W (Option (Exchange P))
  pub send_and_read : C → String → P → Action W P
  pub release : C → Exchange P → Action W (Unit {0})
  pub from_bytes : String → Result P
  pub to_bytes : P → String
  pub client_packet : String → String → P
  pub request_from_offer : P → Result P
  pub with_server_identifier : String → P → P
  pub is_ack : P → Bool
  pub message_type : P → String
  pub your_ip_addr : P → String
  pub subnet_mask : P → Option String
  pub server_identifier : P → String
  pub lease_time : P → ℕ → ℕ
  pub renewal_time : P → ℕ → ℕ
  pub rebinding_time : P → ℕ → ℕ

-- `ip == nil || ip.IsUnspecified()`
abbrev pub is_unset : String → Bool
is_unset ip = is_empty ip || ip == "0.0.0.0" || ip == "::"

abbrev pub hour : ℕ
hour = 3600 * 1000000000

-- The product and the quotient of an int64 by a small positive number; the quotient is truncated
-- toward zero.
abbrev pub times64 : ℕ → ℕ → ℕ
times64 a k = a * k % 2 ^ 64

abbrev pub divided64 : ℕ → ℕ → ℕ
divided64 a zero = a
divided64 a (suc k) = if ltb a (2 ^ 63) then a / suc k else (2 ^ 64 - (2 ^ 64 - a) / suc k) % 2 ^ 64

abbrev pub mask_or_default : Option String → String
mask_or_default none = "ffffff00"
mask_or_default (some mask) = mask

abbrev pub or_else : String → String → String
or_else ip current = if is_unset ip then current else ip

-- `len(b) > 0`
abbrev pub bytes_of : Option String → String
bytes_of none = ""
bytes_of (some b) = b

module _ {W C P : Type 0} (dhcp : Dhcp W C P) where
  abbrev pub packed : Option P → Option String
  packed none = none
  packed (some p) = some (dhcp.to_bytes p)

  -- What is read from an acknowledgement, with the address and the server that are used.
  unfoldable pub lease_info : Option P → P → String → String → LeaseInfo
  lease_info offer ack ip server =
      let time = dhcp.lease_time ack hour in
      record {
        ip_address = ip;
        subnet_mask = mask_or_default (dhcp.subnet_mask ack);
        dhcp_server_ip = server;
        lease_time = time;
        renewal_time = dhcp.renewal_time ack (divided64 time 2);
        rebind_time = dhcp.rebinding_time ack (divided64 (times64 time 7) 8);
        offer = packed offer;
        ack = some (dhcp.to_bytes ack);
      }

  -- `defer func() { _ = client.Close() }()` around what is done with a new client.
  unfoldable pub with_client : {A : Type 0} → String → String → (C → Action W A) → Action W A
  with_client iface mac body = do
    client ← wrapping "failed to create DHCP client: %w" (dhcp.new_client iface mac)
    (λ w. let (r, w₁) = body client w in let (_, w₂) = dhcp.close_client client w₁ in (r, w₂))

  unfoldable pub acked_lease : Option P → P → Result LeaseInfo
  unfolding lease_info
  acked_lease offer ack =
      if is_unset (dhcp.your_ip_addr ack)
      then err (lit "no IP address in DHCP ACK")
      else if is_unset (dhcp.server_identifier ack)
      then err (lit "no DHCP server identifier in ACK")
      else ok (lease_info offer ack (dhcp.your_ip_addr ack) (dhcp.server_identifier ack))

  unfoldable pub new_lease_of : Exchange P → Result LeaseInfo
  unfolding acked_lease
  new_lease_of l = elim l.acked [
    | none ↦ err (lit "no ACK received from DHCP server")
    | some ack ↦ acked_lease l.offered ack
  ]

  -- A full exchange of four packets.
  unfoldable pub discover : C → Action W LeaseInfo
  unfolding new_lease_of
  discover client = do
    l ← wrapping "DHCP request failed: %w" (dhcp.request client)
    (λ w. (new_lease_of l, w))

  unfoldable pub acquire_lease : String → String → Action W LeaseInfo
  unfolding with_client discover
  acquire_lease iface mac = with_client iface mac discover

  -- The current address is not used.
  unfoldable pub rebind_lease : Lease → Action W LeaseInfo
  unfolding with_client discover
  rebind_lease l = with_client l.iface l.mac_address discover

  -- With the packets of the last exchange.
  unfoldable pub renew_saved : C → String → String → Action W (Option (Exchange P))
  renew_saved client offer_bytes ack_bytes = do
    offer ← wrapping "failed to parse previous OFFER: %w" (λ w. (dhcp.from_bytes offer_bytes, w))
    ack ← wrapping "failed to parse previous ACK: %w" (λ w. (dhcp.from_bytes ack_bytes, w))
    wrapping "RENEW request failed: %w"
        (dhcp.renew client (record { offered = some offer; acked = some ack }))

  -- Without them, by hand.
  unfoldable pub renew_by_hand : C → Lease → Action W (Option (Exchange P))
  renew_by_hand client l = do
    req ←
        wrapping "failed to create RENEW request: %w"
          (λ w. (dhcp.request_from_offer (dhcp.client_packet l.ip_address l.mac_address), w))
    resp ← wrapping "RENEW request failed: %w" (
        dhcp.send_and_read client l.dhcp_server_ip
          (dhcp.with_server_identifier l.dhcp_server_ip req))
    if dhcp.is_ack resp
        then returns (some (record { offered = none; acked = some resp }))
        else fails (fmt "expected ACK, got %s" (lit (dhcp.message_type resp)))

  unfoldable pub renewed_lease : Lease → Option (Exchange P) → Result LeaseInfo
  unfolding lease_info
  renewed_lease l none = err (lit "no ACK received from DHCP server")
  renewed_lease l (some x) = elim x.acked [
    | none ↦ err (lit "no ACK received from DHCP server")
    | some ack ↦ ok (
        lease_info x.offered ack (or_else (dhcp.your_ip_addr ack) l.ip_address)
          (or_else (dhcp.server_identifier ack) l.dhcp_server_ip))
  ]

  unfoldable pub renew_with : Lease → C → Action W LeaseInfo
  unfolding renew_saved renew_by_hand renewed_lease
  renew_with l client = do
    x ←
        (if not (is_empty (bytes_of l.dhcp_offer)) && not (is_empty (bytes_of l.dhcp_ack))
          then renew_saved client (bytes_of l.dhcp_offer) (bytes_of l.dhcp_ack)
          else renew_by_hand client l)
    (λ w. (renewed_lease l x, w))

  unfoldable pub renew_lease : Lease → Action W LeaseInfo
  unfolding with_client renew_with
  renew_lease l = with_client l.iface l.mac_address (renew_with l)

  unfoldable pub release_packet : Lease → Exchange P
  release_packet l = record {
    offered = none;
    acked = some (
        dhcp.with_server_identifier l.dhcp_server_ip
          (dhcp.client_packet l.ip_address l.mac_address));
  }

  unfoldable pub release_lease : Lease → Action W (Unit {0})
  unfolding with_client release_packet
  release_lease l =
      with_client l.iface l.mac_address
        λ client. wrapping "failed to send RELEASE: %w" (dhcp.release client (release_packet l))
