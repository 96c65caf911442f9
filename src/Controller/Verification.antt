-- ===== src/Controller/Verification.antt =====
-- internal/controller/publicipclaim_controller.go: `verifyClaimState`, which looks at a claim's
-- lease through the agent, and if that gives no answer runs commands over SSH.
pub mod Health
use cilium_dhcp_wanip_operat.Base.{
  ◌≡◌, ℕ, ◌+◌, ◌*◌, String, Bool, true, false, not, ◌&&◌, ◌||◌, Option, none, some, List, Text, lit,
  fmt, Result, ok, err, ltb, is_empty, if◌then◌else◌,
}
use cilium_dhcp_wanip_operat.Base.Action.{Action}
use cilium_dhcp_wanip_operat.Base.Codes.{codes}
use cilium_dhcp_wanip_operat.Base.Decimal.{decimal}
use cilium_dhcp_wanip_operat.Api.{Claim, Condition, condition_ready, condition_true}
use cilium_dhcp_wanip_operat.Agent.State.{Status, stale}
use cilium_dhcp_wanip_operat.Agent.Handlers.{LeaseStatus}
use cilium_dhcp_wanip_operat.Router.Connection.Calls.{AgentCalls}
use cilium_dhcp_wanip_operat.Ssh.Commands.{
  interface_exists, is_interface_up, is_udhcpc_running, is_proxy_arp_enabled,
}
use cilium_dhcp_wanip_operat.Ssh.Uptime.{get_router_uptime, whole_seconds}
use cilium_dhcp_wanip_operat.Controller.Credentials.{Keys, ssh_signer, client_config}

-- What the verification calls: the secrets, the agent, `RunCommand` of the SSH manager with the
-- parser of floats, the event recorder, and `meta.SetStatusCondition`.
pub record Checks (W T : Type 0) : Type 0 where
  pub keys : Keys W
  pub agents : AgentCalls W T
  pub run_command : List ℕ → Action W (List ℕ)
  pub parse_float : List ℕ → Result ℕ
  pub record_event : Claim → String → String → Text → W → W
  pub set_status_condition : Condition → List Condition → List Condition

-- The result, and the claim that the verification has written to.
abbrev pub Verified : Type 0 → Type 0
Verified W = (Result (Unit {0}) × Claim) × W

abbrev pub is_stale : Status → Bool
is_stale stale = true
is_stale _ = false

abbrev pub with_reason : String → Claim → Claim
with_reason reason c = record c { status = record c.status { last_reconciliation_reason = reason } }

abbrev pub with_uptime : ℕ → Claim → Claim
with_uptime uptime c = record c { status = record c.status { router_uptime = uptime } }

-- `err == nil && leaseStatus != nil`
abbrev pub lease_read : Result (Option LeaseStatus) → Option LeaseStatus
lease_read (ok (some status)) = some status
lease_read _ = none

abbrev pub verified_condition : Text → Claim → Condition
verified_condition message c = record {
  type = condition_ready;
  status = condition_true;
  reason = "ConfigurationVerified";
  message = message;
  observed_generation = c.generation;
}

-- A stored uptime that is more than a second ahead of the router's: a reboot.
abbrev pub rebooted : ℕ → Claim → Bool
rebooted current c = ltb 0 c.status.router_uptime && ltb (current + 1) c.status.router_uptime

module _ {W T : Type 0} (checks : Checks W T) where
  unfoldable pub passed : String → Text → Claim → W → Verified W
  passed reason message c w = (
    (
      ok tt,
      record c {
        status = record c.status {
          configuration_verified = true;
          last_reconciliation_reason = reason;
          conditions =
              checks.set_status_condition (verified_condition message c) c.status.conditions;
        };
      },
    ),
    w,
  )

  -- A check that has found a deviation: an event, a reason in the status, and an error.
  unfoldable pub drifted : String → String → String → String → Claim → W → Verified W
  drifted event message reason error c w = (
    (err (lit error), with_reason reason c),
    checks.record_event c "Warning" event (lit message) w,
  )

  unfoldable pub by_lease : LeaseStatus → Claim → W → Verified W
  unfolding passed drifted
  by_lease status c w =
      if is_stale status.status || not status.interface_exists
      then drifted "ConfigurationDrift" "Lease stale or interface missing" "lease_stale"
          "lease stale or interface missing" c w
      else passed "verified_via_agent"
          (fmt "Lease verified via agent (renewals: %d)" (lit (decimal status.renewal_count))) c w

  -- A query that has to hold: its error is returned, and its denial is a deviation.
  unfoldable pub requiring :
      String
      → (Claim → W → Verified W)
      → (Claim → W → Verified W)
      → Result Bool × W
      → Claim
      → Verified W
  requiring context missing next (err e, w) c = ((err (fmt context e), c), w)
  requiring context missing next (ok holds, w) c = elim holds [
    | true ↦ next c w
    | false ↦ missing c w
  ]

  unfoldable pub check_proxy_arp : List ℕ → Claim → W → Verified W
  unfolding requiring passed drifted
  check_proxy_arp ifname c w =
      requiring "failed to check proxy ARP: %w"
        (drifted "ProxyARPDisabled" "Proxy ARP disabled, reapplying configuration"
          "proxy_arp_disabled" "proxy arp disabled")
        (passed "verified" (lit "Interface, DHCP client, and proxy ARP verified"))
        (is_proxy_arp_enabled checks.run_command ifname w) c

  unfoldable pub check_udhcpc : List ℕ → Claim → W → Verified W
  unfolding requiring drifted check_proxy_arp
  check_udhcpc ifname c w =
      requiring "failed to check udhcpc status: %w"
        (drifted "DHCPClientStopped" "DHCP client not running, reapplying configuration"
          "dhcp_client_stopped" "dhcp client not running")
        (check_proxy_arp ifname) (is_udhcpc_running checks.run_command w) c

  unfoldable pub check_up : List ℕ → Claim → W → Verified W
  unfolding requiring drifted check_udhcpc
  check_up ifname c w =
      requiring "failed to check interface status: %w"
        (drifted "ConfigurationDrift" "Interface is down, reapplying configuration" "interface_down"
          "interface down")
        (check_udhcpc ifname) (is_interface_up checks.run_command ifname w) c

  unfoldable pub check_exists : List ℕ → Claim → W → Verified W
  unfolding requiring drifted check_up
  check_exists ifname c w =
      requiring "failed to check interface existence: %w"
        (drifted "ConfigurationDrift" "Interface missing, reapplying configuration"
          "interface_missing" "interface missing")
        (check_up ifname) (interface_exists checks.run_command ifname w) c

  unfoldable pub check_reboot : ℕ → Claim → W → Verified W
  unfolding drifted check_exists
  check_reboot current c w =
      if rebooted current c
      then drifted "RouterRebooted" "Router reboot detected, reapplying configuration"
          "router_reboot" "router rebooted" c w
      else check_exists (codes c.status.wan_interface) (with_uptime current c) w

  unfoldable pub by_uptime : Result ℕ × W → Claim → Verified W
  unfolding check_reboot
  by_uptime (err e, w) c = ((err (fmt "failed to get router uptime: %w" e), c), w)
  by_uptime (ok uptime, w) c = check_reboot (whole_seconds uptime) c w

  unfoldable pub verify_by_commands : Claim → W → Verified W
  unfolding by_uptime
  verify_by_commands c w = by_uptime (get_router_uptime checks.parse_float checks.run_command w) c

  -- The client is closed when the verification returns.
  unfoldable pub then_close : T → Verified W → Verified W
  then_close t (r, w) = let (_, w') = checks.agents.disconnect t w in (r, w')

  unfoldable pub by_reply : Option LeaseStatus → Claim → W → Verified W
  unfolding by_lease verify_by_commands
  by_reply none c w = verify_by_commands c w
  by_reply (some status) c w = by_lease status c w

  unfoldable pub ask_agent : T → Claim → W → Verified W
  unfolding then_close by_reply
  ask_agent t c w =
      let (reply, w') = checks.agents.get_lease t c.status.wan_interface w in
      then_close t (by_reply (lease_read reply) c w')

  unfoldable pub by_connection : Result T × W → Claim → Verified W
  unfolding ask_agent verify_by_commands
  by_connection (err e, w) c = verify_by_commands c w
  by_connection (ok t, w) c = ask_agent t c w

  unfoldable pub by_signer : Result String × W → Claim → Verified W
  unfolding by_connection verify_by_commands
  by_signer (err e, w) c = verify_by_commands c w
  by_signer (ok signer, w) c =
      by_connection (checks.agents.connect c.spec.router.host (client_config c signer) w) c

  unfoldable pub verify_claim_state : Claim → W → Verified W
  unfolding by_signer ssh_signer
  verify_claim_state c w =
      if is_empty c.status.wan_interface
      then ((err (lit "interface not yet created"), c), w)
      else by_signer (ssh_signer checks.keys c w) c
