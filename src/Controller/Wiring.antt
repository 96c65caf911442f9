-- ===== src/Controller/Wiring.antt =====
-- internal/controller/publicipclaim_controller.go: the reconciler with its own methods for the calls
-- that it can be given hooks for, over the maps that they keep.
pub mod Deleted
use cilium_dhcp_wanip_operat.Base.{
  ℕ, String, Bool, Option, none, some, List, Text, lit, Result, ok, err,
}
use cilium_dhcp_wanip_operat.Base.Action.{Action}
use cilium_dhcp_wanip_operat.Base.Codes.{codes}
use cilium_dhcp_wanip_operat.Api.{Claim, Condition}
use cilium_dhcp_wanip_operat.Ssh.Manager.{Manager, run_command}
use cilium_dhcp_wanip_operat.Ssh.Commands
use cilium_dhcp_wanip_operat.Router.Connection.Calls.{AgentCalls}
use cilium_dhcp_wanip_operat.Controller.Names.{generate_unique_mac}
use cilium_dhcp_wanip_operat.Controller.Pool.{
  PoolApi, default_ensure_ip_in_pool, default_remove_ip_from_pool,
}
use cilium_dhcp_wanip_operat.Controller.Tracking.{Watcher, Tracking, manager_at}
use cilium_dhcp_wanip_operat.Controller.Managers.{Managers, get_ssh_manager}
use cilium_dhcp_wanip_operat.Controller.Cleanup.{default_cleanup_router_interface}
use cilium_dhcp_wanip_operat.Controller.Script.{default_run_router_script}
use cilium_dhcp_wanip_operat.Controller.Verification.{Checks, verify_claim_state}
use cilium_dhcp_wanip_operat.Controller.Reconcile.Calls.{Ops, ClaimReply}

-- The five bytes that `generateUniqueMAC` reads.
pub record Bytes : Type 0 where
  pub b0 : ℕ
  pub b1 : ℕ
  pub b2 : ℕ
  pub b3 : ℕ
  pub b4 : ℕ

abbrev pub mac_of : Bytes → String
mac_of b = generate_unique_mac b.b0 b.b1 b.b2 b.b3 b.b4

-- The cluster and what else is not the reconciler's; `run` is what the runner of a manager does with
-- an SSH client and a command.
pub record Outside (W O : Type 0) : Type 0 where
  pub get : String → String → W → ClaimReply × W
  pub update : Claim → Action W Claim
  pub update_status : Claim → Action W Claim
  pub pools : PoolApi W O
  pub run : ℕ → List ℕ → Action W (List ℕ)
  pub parse_float : List ℕ → Result ℕ
  pub random_bytes : W → Bytes × W
  pub now : W → ℕ × W
  pub record_event : Claim → String → String → Text → W → W
  pub parses_ip : String → Bool
  pub contains_finalizer : List String → String → Bool
  pub add_finalizer : List String → String → List String
  pub remove_finalizer : List String → String → List String
  pub set_status_condition : Condition → List Condition → List Condition

-- A call that does not touch the maps.
abbrev pub outside : {W A : Type 0} → (W → A × W) → Tracking W → A × Tracking W
outside m t = let (a, w) = m t.world in (a, record t { world = w })

module _ {W O : Type 0} where
  -- A command that a manager runs on its connection.
  unfoldable pub run_on : Outside W O → Option (Manager Watcher) → List ℕ → Action W (List ℕ)
  run_on out none command w = (err (lit "ssh connection not established"), w)
  run_on out (some m) command w = elim m.conn [
    | none ↦ (err (lit "ssh connection not established"), w)
    | some client ↦ out.run client command w
  ]

module _ {W T O : Type 0} (out : Outside W O) (env : Managers W) (agents : AgentCalls W T) where
  -- The checks of a verification that has a manager.
  unfoldable pub checks_on : Option (Manager Watcher) → Checks W T
  unfolding run_on
  checks_on m = record {
    keys = env.keys;
    agents = agents;
    run_command = run_on out m;
    parse_float = out.parse_float;
    record_event = out.record_event;
    set_status_condition = out.set_status_condition;
  }

  unfoldable pub reconciler : Ops (Tracking W) ℕ
  unfolding get_ssh_manager default_cleanup_router_interface default_run_router_script
      verify_claim_state checks_on run_on default_ensure_ip_in_pool default_remove_ip_from_pool
      generate_unique_mac
  reconciler = record {
    get = λ namespace name. outside (out.get namespace name);
    update = λ c. outside (out.update c);
    update_status = λ c. outside (out.update_status c);
    cleanup_router_interface = default_cleanup_router_interface env.keys agents;
    remove_ip_from_pool = λ pool ip. outside (default_remove_ip_from_pool out.pools pool ip);
    ensure_ip_in_pool = λ pool ip. outside (default_ensure_ip_in_pool out.pools pool ip);
    run_router_script =
        λ c wan_if mac. outside (default_run_router_script env.keys agents c wan_if mac);
    get_ssh_manager = get_ssh_manager env;
    interface_exists = λ n iface t.
        outside
          (Commands.interface_exists (run_on out (manager_at n t.registry.heap)) (codes iface)) t;
    verify_claim_state =
        λ c n t. outside (verify_claim_state (checks_on (manager_at n t.registry.heap)) c) t;
    generate_unique_mac = outside (λ w. let (b, w') = out.random_bytes w in (mac_of b, w'));
    now = outside out.now;
    record_event = λ c kind reason message t. record t {
      world = out.record_event c kind reason message t.world;
    };
    parses_ip = out.parses_ip;
    contains_finalizer = out.contains_finalizer;
    add_finalizer = out.add_finalizer;
    remove_finalizer = out.remove_finalizer;
    set_status_condition = out.set_status_condition;
  }
