-- ===== src/Agent/Dhcp/Samples.antt =====
-- The properties of the DHCP client with an example of a server, and an agent that rebinds by it.
use text.Mathlib.TextEquality.{eq_iff}
use cilium_dhcp_wanip_operat.Base.{◌≡◌, ◌≢◌, refl, ◌⊎◌, none, some, ok, arith}
use cilium_dhcp_wanip_operat.Agent.State.{LeaseInfo}
use cilium_dhcp_wanip_operat.Agent.Box.{first_lease, agent_on, with_server}
use cilium_dhcp_wanip_operat.Agent.Dhcp.{lease_info, acquire_lease, rebind_lease}
use cilium_dhcp_wanip_operat.Agent.Dhcp.Times.{InOrder, Overflowed, lease_info-terms}
use cilium_dhcp_wanip_operat.Agent.Dhcp.Example.{server, server-Timed}
use cilium_dhcp_wanip_operat.Agent.Renewal
use cilium_dhcp_wanip_operat.Agent.Machine.{host}
use cilium_dhcp_wanip_operat.Agent.Machine.Example.{machine}
use cilium_dhcp_wanip_operat.Agent.Rebound.{Keeps, rebind_lease-Keeps}

abbrev given : LeaseInfo
unfolding lease_info
given = lease_info server (some "offer") "203.0.113.9" "203.0.113.9" "203.0.113.1"

acquires : (acquire_lease server "wan0" "02:00:00:00:00:01" with_server).0 ≡ ok given
unfolding acquire_lease given lease_info
acquires = refl

lease_info-terms_example :
    let i = lease_info server none "203.0.113.9" "203.0.113.9" "203.0.113.1" in
    InOrder i ⊎ Overflowed i
lease_info-terms_example =
    lease_info-terms server server-Timed none "203.0.113.9" "203.0.113.9" "203.0.113.1" (λ t. refl)
      (λ t. refl)

rebinds : (rebind_lease server first_lease with_server).0 ≡ ok given
unfolding rebind_lease given lease_info
rebinds = refl

other_address : given.ip_address ≢ first_lease.ip_address
unfolding given lease_info
other_address e = ground (arith, (eq_iff "203.0.113.9" "203.0.113.7").1 e)

rebind_lease-Keeps_example :
    Keeps first_lease given
      (Renewal.rebind_lease (host machine) first_lease (agent_on with_server)).1
rebind_lease-Keeps_example =
    rebind_lease-Keeps machine first_lease given (agent_on with_server) rebinds other_address
