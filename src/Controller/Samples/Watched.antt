-- ===== src/Controller/Samples/Watched.antt =====
-- A cluster without an agent, a claim that is managed and deleted, and one whose user changes.
use cilium_dhcp_wanip_operat.Base.{
  ◌≡◌, ◌≢◌, refl, ◌⊎◌, ℕ, String, true, false, none, some, List, [], ◌∷◌, lit, ok, err, arith,
}
use cilium_dhcp_wanip_operat.Base.Decimal.{decimal}
use cilium_dhcp_wanip_operat.Controller.Names.{coalesce_int}
use cilium_dhcp_wanip_operat.Base.Dict.{lookup, insert}
use cilium_dhcp_wanip_operat.Api.{Claim}
use cilium_dhcp_wanip_operat.Ssh.Config.{RouterConfig, split_host_port, validate}
use cilium_dhcp_wanip_operat.Ssh.Manager.{Manager, fresh, new_ssh_connection_manager, start}
use cilium_dhcp_wanip_operat.Ssh.Registry.{get_or_create, config_identity}
use cilium_dhcp_wanip_operat.Router.Connection.Calls.{AgentCalls}
use cilium_dhcp_wanip_operat.Controller.Example.{new_claim}
use cilium_dhcp_wanip_operat.Controller.Pool.{PoolApi, absent}
use cilium_dhcp_wanip_operat.Controller.Credentials.{Keys, ssh_signer}
use cilium_dhcp_wanip_operat.Controller.Tracking.{
  Watcher, Tracking, new_tracking, manager_at, handler_key, router_address, track,
}
use cilium_dhcp_wanip_operat.Controller.Managers.{Managers, manager_config, get_ssh_manager}
use cilium_dhcp_wanip_operat.Controller.Managers.Managed.{Consistent, Known}
use cilium_dhcp_wanip_operat.Controller.Cleanup.{forget, default_cleanup_router_interface}
use cilium_dhcp_wanip_operat.Controller.Cleanup.Forgotten.{Forgotten, Untouched, reachable}
use cilium_dhcp_wanip_operat.Controller.Cleanup.Leaks.{old_handler_stays}
use cilium_dhcp_wanip_operat.Controller.Visits.{
  Visit, manages, cleans, visits, get_ssh_manager-tracked,
}
use cilium_dhcp_wanip_operat.Controller.Reconcile.{reconcile_claim}
use cilium_dhcp_wanip_operat.Controller.Reconcile.Calls
use cilium_dhcp_wanip_operat.Controller.Reconcile.Deletion.{start_run}
use cilium_dhcp_wanip_operat.Controller.Wiring.{Outside, reconciler}
use cilium_dhcp_wanip_operat.Controller.Wiring.Deleted.{deletion-forgets}

abbrev World : Type 0
World = Unit {0}

abbrev keys : Keys World
keys = record {
  get_secret = λ name namespace w. (ok (("id_rsa", "key") ∷ []), w);
  parse_private_key = λ key. ok key;
}

abbrev env : Managers World
env = record {
  keys = keys;
  public_keys = λ signer. signer;
  insecure = "insecure";
  dial = λ cfg w. (ok 7, w);
  duration = λ t. "0s";
}

abbrev agents : AgentCalls World World
agents = record {
  connect = λ host cfg w. (err (lit "connection refused"), w);
  allocate_lease = λ t iface parent mac w. (err (lit "not used"), w);
  get_lease = λ t iface w. (err (lit "not used"), w);
  release_lease = λ t iface w. (err (lit "not used"), w);
  disconnect = λ t w. (ok tt, w);
}

abbrev before : List Visit
before = manages new_claim ∷ cleans new_claim ∷ []

managed : (get_ssh_manager env new_claim (visits env agents before (new_tracking tt))).0.0 ≡ ok 0
unfolding visits get_ssh_manager default_cleanup_router_interface ssh_signer lookup insert
    get_or_create config_identity new_ssh_connection_manager validate split_host_port manager_config
    router_address track start decimal coalesce_int
managed = refl

get_ssh_manager-tracked_example :
    let t = (get_ssh_manager env new_claim (visits env agents before (new_tracking tt))).1 in
    Known new_claim 0 t × Consistent t
get_ssh_manager-tracked_example = get_ssh_manager-tracked env agents tt before new_claim managed

abbrev pools : PoolApi World World
pools = record {
  get_pool = λ version name w. (absent, w);
  update_pool = λ version o w. (none, w);
  nested_blocks = λ o. none;
  set_nested_blocks = λ o bs. ok o;
}

abbrev out : Outside World World
out = record {
  get = λ namespace name w. (Calls.absent, w);
  update = λ c w. (ok c, w);
  update_status = λ c w. (ok c, w);
  pools = pools;
  run = λ client cmd w. (err (lit "command failed"), w);
  parse_float = λ s. err (lit "no number");
  random_bytes = λ w. (record { b0 = 0; b1 = 0; b2 = 0; b3 = 0; b4 = 1 }, w);
  now = λ w. (0, w);
  record_event = λ c kind reason message w. w;
  parses_ip = λ ip. true;
  contains_finalizer = λ fs f. true;
  add_finalizer = λ fs f. fs;
  remove_finalizer = λ fs f. [];
  set_status_condition = λ c cs. c ∷ cs;
}

abbrev deleted : Claim
deleted = record new_claim {
  deletion_timestamp = some 1700000000;
  status = record new_claim.status { wan_interface = "wan0" };
}

abbrev unfinished : Tracking World
unfolding get_ssh_manager
unfinished = (get_ssh_manager env new_claim (new_tracking tt)).1

deletion-forgets_example :
    let u = (reconcile_claim (reconciler out env agents) deleted (start_run unfinished)).1.world in
    (reachable keys agents deleted tt ≡ true) × Forgotten deleted unfinished u
    ⊎ (reachable keys agents deleted tt ≡ false) × Untouched unfinished u
unfolding unfinished
deletion-forgets_example = deletion-forgets out env agents deleted unfinished refl refl

-- The managers of the users root and admin, the first with the handler of the claim.
abbrev config : String → RouterConfig
unfolding manager_config
config user =
    manager_config env
      (record new_claim {
        spec = record new_claim.spec { router = record new_claim.spec.router { user = user } };
      })
      "key"

abbrev watched : Manager Watcher
watched = record (fresh (config "root")) {
  handlers = (1, record { claim_name = "home"; claim_namespace = "" }) ∷ [];
  handler_seq = 1;
}

abbrev two_users : Tracking World
unfolding router_address
two_users = record (new_tracking tt) {
  registry = record { managers = []; heap = watched ∷ fresh (config "admin") ∷ [] };
  ssh_handlers = (handler_key new_claim, 1) ∷ [];
  router_assignments = (handler_key new_claim, router_address new_claim) ∷ [];
  claim_managers = (handler_key new_claim, 0) ∷ [];
}

assigned :
    lookup (handler_key new_claim) two_users.router_assignments ≡ some (router_address new_claim)
unfolding lookup two_users router_address
assigned = refl

handled : lookup (handler_key new_claim) two_users.ssh_handlers ≡ some 1
unfolding lookup two_users
handled = refl

distinct : ◌≢◌ {A = ℕ} 0 1
distinct e = ground (arith, e)

old_handler_stays_example :
    let t = track new_claim 1 two_users in
    (t.registry ≡ two_users.registry)
    × (lookup (handler_key new_claim) t.claim_managers ≡ some 1)
    × (lookup (handler_key new_claim) (forget new_claim t).ssh_handlers ≡ none)
    × (manager_at 0 (forget new_claim t).registry.heap ≡ manager_at 0 two_users.registry.heap)
old_handler_stays_example = old_handler_stays new_claim 0 1 1 two_users assigned handled distinct
