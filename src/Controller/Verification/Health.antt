-- ===== src/Controller/Verification/Health.antt =====
-- internal/controller/publicipclaim_controller.go: what `verifyClaimState` decides.
use cilium_dhcp_wanip_operat.Base.{
  ◌≡◌, refl, ◌∙◌, ℕ, String, Bool, true, false, not, ◌&&◌, Option, none, some, List, Result, ok,
  err, is_empty, arith,
}
use cilium_dhcp_wanip_operat.Base.Action.{continue, ◌>>=◌}
use cilium_dhcp_wanip_operat.Base.Codes.{codes}
use cilium_dhcp_wanip_operat.Api.{Claim}
use cilium_dhcp_wanip_operat.Agent.Handlers.{LeaseStatus}
use cilium_dhcp_wanip_operat.Ssh.Commands.{
  validate_interface_name, exists_command, operstate_command, udhcpc_command, proxy_arp_command,
  interface_exists, is_interface_up, is_udhcpc_running, is_proxy_arp_enabled,
}
use cilium_dhcp_wanip_operat.Ssh.Commands.Queries.{
  echo, digit_line, state_line, contains-echo, trim-digit, trim-state,
}
use cilium_dhcp_wanip_operat.Ssh.Uptime.{get_router_uptime, whole_seconds}
use cilium_dhcp_wanip_operat.Controller.Reconcile.Calls.{is_ok}
use cilium_dhcp_wanip_operat.Controller.Credentials.{ssh_signer, client_config}
use cilium_dhcp_wanip_operat.Controller.Verification.{
  Checks, Verified, is_stale, lease_read, with_uptime, passed, drifted, by_lease, requiring,
  check_proxy_arp, check_udhcpc, check_up, check_exists, rebooted, check_reboot, by_uptime,
  verify_by_commands, then_close, by_reply, ask_agent, by_connection, by_signer, verify_claim_state,
}

-- The state of a router's interface, and its uptime in nanoseconds.
pub record Facts : Type 0 where
  pub uptime : ℕ
  pub exists : Bool
  pub up : Bool
  pub running : Bool
  pub enabled : Bool

abbrev pub healthy : Facts → Claim → Bool
healthy f c =
    not (rebooted (whole_seconds f.uptime) c) && f.exists && f.up && f.running && f.enabled

-- What the router prints for the commands that concern an interface, in every state; the files of
-- an interface can be read only if it exists, and otherwise those commands may fail.
pub record Prints {W T : Type 0} (checks : Checks W T) (iface : List ℕ) (f : Facts) : Type 0 where
  pub valid : validate_interface_name iface ≡ ok tt
  pub uptime : (w : W) → (get_router_uptime checks.parse_float checks.run_command w).0 ≡ ok f.uptime
  pub exists : (w : W) → (checks.run_command (exists_command iface) w).0 ≡ ok (echo f.exists)
  pub up :
      f.exists ≡ true
      → (w : W) → (checks.run_command (operstate_command iface) w).0 ≡ ok (state_line f.up)
  pub running : (w : W) → (checks.run_command udhcpc_command w).0 ≡ ok (echo f.running)
  pub enabled :
      f.exists ≡ true
      → (w : W) → (checks.run_command (proxy_arp_command iface) w).0 ≡ ok (digit_line f.enabled)

module _ {W T : Type 0} (checks : Checks W T) {iface : List ℕ} {f : Facts}
    (prints : Prints checks iface f) where
  exists-answer : (w : W) → (interface_exists checks.run_command iface w).0 ≡ ok f.exists
  unfolding interface_exists
  exists-answer w = ground (arith, prints.valid, prints.exists w, contains-echo f.exists)

  up-answer : f.exists ≡ true → (w : W) → (is_interface_up checks.run_command iface w).0 ≡ ok f.up
  unfolding is_interface_up
  up-answer x w = ground (arith, prints.valid, prints.up x w, trim-state f.up)

  running-answer : (w : W) → (is_udhcpc_running checks.run_command w).0 ≡ ok f.running
  unfolding is_udhcpc_running
  running-answer w = ground (arith, prints.running w, contains-echo f.running)

  enabled-answer :
      f.exists ≡ true → (w : W) → (is_proxy_arp_enabled checks.run_command iface w).0 ≡ ok f.enabled
  unfolding is_proxy_arp_enabled
  enabled-answer x w = ground (arith, prints.valid, prints.enabled x w, trim-digit f.enabled)

  -- A required query that is answered.
  requiring-decides :
      (context : String) (missing next : Claim → W → Verified W) (r : Result Bool × W) (c : Claim)
      (b rest : Bool)
      → r.0 ≡ ok b
      → ((w : W) → is_ok (missing c w).0.0 ≡ false)
      → (b ≡ true → (w : W) → is_ok (next c w).0.0 ≡ rest)
      → is_ok (requiring checks context missing next r c).0.0 ≡ (b && rest)
  unfolding requiring
  requiring-decides context missing next (ok true, w) c b rest e m n =
      let holds : b ≡ true = ground (arith, e) in ground (arith, holds, n holds w)
  requiring-decides context missing next (ok false, w) c b rest e m n = ground (arith, e, m w)
  requiring-decides context missing next (err x, w) c b rest e m n = ground (arith, e)

  arp-decides :
      f.exists ≡ true
      → (c : Claim) (w : W) → is_ok (check_proxy_arp checks iface c w).0.0 ≡ f.enabled
  unfolding check_proxy_arp passed drifted
  arp-decides x c w =
      requiring-decides _ _ _ (is_proxy_arp_enabled checks.run_command iface w) c f.enabled true
        (enabled-answer x w) (λ w'. refl) (λ t w'. refl)
      ∙ ground arith

  udhcpc-decides :
      f.exists ≡ true
      → (c : Claim) (w : W) → is_ok (check_udhcpc checks iface c w).0.0 ≡ (f.running && f.enabled)
  unfolding check_udhcpc drifted
  udhcpc-decides x c w =
      requiring-decides _ _ _ (is_udhcpc_running checks.run_command w) c f.running f.enabled
        (running-answer w) (λ w'. refl) (λ t. arp-decides x c)

  up-decides :
      f.exists ≡ true
      → (c : Claim) (w : W)
      → is_ok (check_up checks iface c w).0.0 ≡ (f.up && (f.running && f.enabled))
  unfolding check_up drifted
  up-decides x c w =
      requiring-decides _ _ _ (is_interface_up checks.run_command iface w) c f.up
        (f.running && f.enabled) (up-answer x w) (λ w'. refl) (λ t. udhcpc-decides x c)

  exists-decides :
      (c : Claim) (w : W)
      → is_ok (check_exists checks iface c w).0.0 ≡ (f.exists && (f.up && (f.running && f.enabled)))
  unfolding check_exists drifted
  exists-decides c w =
      requiring-decides _ _ _ (interface_exists checks.run_command iface w) c f.exists
        (f.up && (f.running && f.enabled)) (exists-answer w) (λ w'. refl) (λ t. up-decides t c)

module _ {W T : Type 0} (checks : Checks W T) {f : Facts} (c : Claim)
    (prints : Prints checks (codes c.status.wan_interface) f) where
  reboot-decides :
      (b : Bool) (w : W)
      → rebooted (whole_seconds f.uptime) c ≡ b
      → is_ok (check_reboot checks (whole_seconds f.uptime) c w).0.0
        ≡ (not b && f.exists && f.up && f.running && f.enabled)
  unfolding check_reboot drifted
  reboot-decides true w e = ground (arith, e)
  reboot-decides false w e =
      ground (arith, e, exists-decides checks prints (with_uptime (whole_seconds f.uptime) c) w)

  uptime-decides :
      (r : Result ℕ × W) → r.0 ≡ ok f.uptime → is_ok (by_uptime checks r c).0.0 ≡ healthy f c
  unfolding by_uptime
  uptime-decides (ok u, w) e =
      let same : u ≡ f.uptime = ground (arith, e) in
      rw same (reboot-decides (rebooted (whole_seconds f.uptime) c) w refl)
  uptime-decides (err x, w) e = ground (arith, e)

  commands-decide : (w : W) → is_ok (verify_by_commands checks c w).0.0 ≡ healthy f c
  unfolding verify_by_commands
  commands-decide w =
      uptime-decides (get_router_uptime checks.parse_float checks.run_command w) (prints.uptime w)

  -- What the agent says of the interface, if it can be asked and has the lease.
  abbrev pub agent_view : W → Option LeaseStatus
  agent_view w =
      lease_read
        ((do
          signer ← ssh_signer checks.keys c
          t ← checks.agents.connect c.spec.router.host (client_config c signer)
          checks.agents.get_lease t c.status.wan_interface)
          w).0

  abbrev pub lease_or_commands : Option LeaseStatus → Bool
  lease_or_commands none = healthy f c
  lease_or_commands (some s) = not (is_stale s.status) && s.interface_exists

  reply-decides :
      (o : Option LeaseStatus) (w : W) → is_ok (by_reply checks o c w).0.0 ≡ lease_or_commands o
  unfolding by_reply by_lease passed drifted
  reply-decides none w = commands-decide w
  reply-decides (some s) w = ground arith

  connection-decides :
      (r : Result T × W)
      → is_ok (by_connection checks r c).0.0
        ≡ lease_or_commands
            (lease_read (continue r (λ t. checks.agents.get_lease t c.status.wan_interface)).0)
  unfolding by_connection ask_agent then_close
  connection-decides (ok t, w) =
      let (reply, w') = checks.agents.get_lease t c.status.wan_interface w in
      reply-decides (lease_read reply) w'
  connection-decides (err e, w) = commands-decide w

  signer-decides :
      (r : Result String × W)
      → is_ok (by_signer checks r c).0.0
        ≡ lease_or_commands (
            lease_read
              (continue r (λ signer.
                checks.agents.connect c.spec.router.host (client_config c signer) >>= λ t.
                checks.agents.get_lease t c.status.wan_interface)).0)
  unfolding by_signer
  signer-decides (ok signer, w) =
      connection-decides (checks.agents.connect c.spec.router.host (client_config c signer) w)
  signer-decides (err e, w) = commands-decide w

  -- With a router that prints the state of the claim's interface, where it exists, the verification succeeds exactly if the claim has an interface and, where the agent can be asked and has its lease, that lease is not stale and its interface exists, and otherwise the interface exists, is up and has proxy ARP, udhcpc runs, and the router has not rebooted since the uptime that the claim stores.
  pub verify_claim_state-healthy :
      (w : W)
      → is_ok (verify_claim_state checks c w).0.0
        ≡ (not (is_empty c.status.wan_interface) && lease_or_commands (agent_view w))
  unfolding verify_claim_state
  verify_claim_state-healthy w = ground (arith, signer-decides (ssh_signer checks.keys c w))
