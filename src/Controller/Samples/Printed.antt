-- ===== src/Controller/Samples/Printed.antt =====
-- A router that is asked by commands, since the agent has no key.
use cilium_dhcp_wanip_operat.Base.{
  ◌≡◌, refl, ℕ, ◌*◌, true, false, not, ◌&&◌, List, ◌∷◌, lit, ok, err, is_empty, if◌then◌else◌,
  arith,
}
use cilium_dhcp_wanip_operat.Base.Action.{Action}
use cilium_dhcp_wanip_operat.Base.Codes.{codes}
use cilium_dhcp_wanip_operat.Api.{Claim}
use cilium_dhcp_wanip_operat.Ssh.Words.{text_eq, fields, replace_all, trim_space}
use cilium_dhcp_wanip_operat.Ssh.Commands.{
  validate_interface_name, exists_command, operstate_command, udhcpc_command, proxy_arp_command,
  shell_quote,
}
use cilium_dhcp_wanip_operat.Ssh.Commands.Queries.{echo, digit_line, state_line}
use cilium_dhcp_wanip_operat.Ssh.Uptime.{get_router_uptime}
use cilium_dhcp_wanip_operat.Controller.Example.{new_claim}
use cilium_dhcp_wanip_operat.Controller.Reconcile.Calls.{is_ok}
use cilium_dhcp_wanip_operat.Controller.Verification.{Checks, verify_claim_state}
use cilium_dhcp_wanip_operat.Controller.Verification.Health.{
  Facts, Prints, agent_view, lease_or_commands, verify_claim_state-healthy,
}

abbrev World : Type 0
World = Unit {0}

-- The interface is gone, as after a restart of the router's network, so that its files cannot be read.
abbrev gone : Facts
gone = record {
  uptime = 12345 * 10000000;
  exists = false;
  up = false;
  running = true;
  enabled = false;
}

-- The interface is up and everything runs, but proxy ARP is off.
abbrev no_arp : Facts
no_arp = record gone { exists = true; up = true }

abbrev wan : List ℕ
wan = codes "wan0"

abbrev file_of : Facts → List ℕ → Action World (List ℕ)
file_of f line w = if f.exists then (ok line, w) else (err (lit "Process exited with status 1"), w)

abbrev router : Facts → List ℕ → Action World (List ℕ)
router f cmd w =
    if text_eq cmd (exists_command wan)
    then (ok (echo f.exists), w)
    else if text_eq cmd (operstate_command wan)
    then file_of f (state_line f.up) w
    else if text_eq cmd udhcpc_command
    then (ok (echo f.running), w)
    else if text_eq cmd (proxy_arp_command wan)
    then file_of f (digit_line f.enabled) w
    else (ok (codes "123.45 67.89\n"), w)

abbrev checks : Facts → Checks World World
checks f = record {
  keys = record {
    get_secret = λ name namespace w. (err (lit "secret not found"), w);
    parse_private_key = λ key. ok key;
  };
  agents = record {
    connect = λ host cfg w. (ok tt, w);
    allocate_lease = λ t iface parent mac w. (err (lit "not used"), w);
    get_lease = λ t iface w. (err (lit "not used"), w);
    release_lease = λ t iface w. (err (lit "not used"), w);
    disconnect = λ t w. (ok tt, w);
  };
  run_command = router f;
  parse_float = λ s. ok 12345;
  record_event = λ c kind reason message w. w;
  set_status_condition = λ c cs. c ∷ cs;
}

abbrev claim : Claim
claim = record new_claim { status = record new_claim.status { wan_interface = "wan0" } }

gone-Prints : Prints (checks gone) wan gone
unfolding validate_interface_name get_router_uptime shell_quote replace_all fields trim_space
gone-Prints = record {
  valid = refl;
  uptime = λ w. refl;
  exists = λ w. refl;
  up = λ x. ground (arith, x);
  running = λ w. refl;
  enabled = λ x. ground (arith, x);
}

no_arp-Prints : Prints (checks no_arp) wan no_arp
unfolding validate_interface_name get_router_uptime shell_quote replace_all fields trim_space
no_arp-Prints = record {
  valid = refl;
  uptime = λ w. refl;
  exists = λ w. refl;
  up = λ x w. refl;
  running = λ w. refl;
  enabled = λ x w. refl;
}

verify_claim_state-healthy_example : is_ok (verify_claim_state (checks gone) claim tt).0.0 ≡ (
    not (is_empty "wan0")
    && lease_or_commands
        (checks gone)
        claim
        gone-Prints
        (agent_view (checks gone) claim gone-Prints tt))
verify_claim_state-healthy_example = verify_claim_state-healthy (checks gone) claim gone-Prints tt
