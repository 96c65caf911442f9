-- ===== src/Controller/Samples/Lost.antt =====
-- An agent that holds a stale lease, and a controller whose calls reach it.

use cilium_dhcp_wanip_operat.Base.{
  ◌≡◌, refl, ◌⊎◌, inl, inr, String, true, Option, none, some, [], ◌∷◌, lit, Result, ok, err,
}
use cilium_dhcp_wanip_operat.Base.Dict.{lookup}
use cilium_dhcp_wanip_operat.Api.{Claim, ClaimStatus}
use cilium_dhcp_wanip_operat.Agent.State.{stale, Lease, Agent}
use cilium_dhcp_wanip_operat.Agent.Store.{get}
use cilium_dhcp_wanip_operat.Agent.Box.{Box, box, first_lease, mac, agent_on, with_server}
use cilium_dhcp_wanip_operat.Agent.Handlers.{
  LeaseRequest, LeaseStatus, Body, lease_response, lease_status, status_of, Route, post_leases,
  get_one, serve,
}
use cilium_dhcp_wanip_operat.Router.Client
use cilium_dhcp_wanip_operat.Router.Client.{Http, get_lease}
use cilium_dhcp_wanip_operat.Router.Wire.{GetWired, PostWired}
use cilium_dhcp_wanip_operat.Router.Reads.{get_lease-get}
use cilium_dhcp_wanip_operat.Router.Conflict.{Blocked}
use cilium_dhcp_wanip_operat.Router.Connection.Calls.{AgentCalls}
use cilium_dhcp_wanip_operat.Controller.Example.{new_claim}
use cilium_dhcp_wanip_operat.Controller.Credentials.{Keys, ssh_signer}
use cilium_dhcp_wanip_operat.Controller.Script.{default_run_router_script}
use cilium_dhcp_wanip_operat.Controller.Verification.{Checks, with_reason, verify_claim_state}
use cilium_dhcp_wanip_operat.Controller.Recovery.{Reaches, WrittenFailed, stale_lease_blocks}
use cilium_dhcp_wanip_operat.Controller.Reconcile.Calls.{Ops, absent}

abbrev Sent : Type 0
Sent = LeaseRequest ⊎ Body

abbrev request : String → String → Option Sent → Result (Route Sent)
request method url none = ok (get_one "wan0")
request method url (some body) = ok (post_leases body)

abbrev read_request : Sent → Result LeaseRequest
read_request (inl req) = ok req
read_request (inr body) = err (lit "no request")

abbrev decode_address : Sent → Result String
decode_address (inr (lease_response ip t)) = ok ip
decode_address _ = err (lit "no lease")

abbrev decode_status : Sent → Result LeaseStatus
decode_status (inr (lease_status s)) = ok s
decode_status _ = err (lit "no status")

abbrev http : Http (Agent Box) (Route Sent) Sent
http = record {
  new_request = request;
  do_request = λ q a. let (r, b) = serve box read_request q a in (ok (r.code, inr r.body), b);
  marshal = λ req. ok (inl req);
  decode_error = λ body. "";
  decode_lease = decode_address;
  decode_list = λ body. err (lit "not used");
  decode_status = decode_status;
}

abbrev address : String
address = "127.0.0.1:4000"

http-GetWired : GetWired box http address "wan0"
http-GetWired = record {
  decode = read_request;
  encode = λ body. inr body;
  routed = λ q. q;
  get_request = get_one "wan0";
  made = refl;
  route = refl;
  sent = λ q a. refl;
  decoded = λ s. refl;
}

abbrev wan0 : LeaseRequest
wan0 = record { iface = "wan0"; wan_parent = "eth9"; mac_address = mac }

http-PostWired : PostWired box http address wan0
http-PostWired = record {
  decode = read_request;
  encode = λ body. inr body;
  routed = λ q. q;
  body = inl wan0;
  post_request = post_leases (inl wan0);
  marshalled = refl;
  made = refl;
  route = refl;
  read = refl;
  sent = λ q a. refl;
  decoded = λ ip t. refl;
}

abbrev old_lease : Lease
old_lease = record first_lease { status = stale }

abbrev holding : Agent Box
holding = record (agent_on with_server) {
  store = record { leases = ("wan0", old_lease) ∷ []; state_file = "leases.json"; inflight = [] };
}

get_lease-get_example :
    get_lease http address "wan0" holding ≡ (ok (some (status_of old_lease)), holding)
unfolding lookup
get_lease-get_example = get_lease-get box http address "wan0" http-GetWired holding

abbrev keys : Keys (Agent Box)
keys = record {
  get_secret = λ name namespace a. (ok (("id_rsa", "key") ∷ []), a);
  parse_private_key = λ key. ok key;
}

abbrev agents : AgentCalls (Agent Box) (Unit {0})
agents = record {
  connect = λ host cfg a. (ok tt, a);
  allocate_lease = λ t. Client.allocate_lease http address;
  get_lease = λ t. get_lease http address;
  release_lease = λ t. Client.release_lease http address;
  disconnect = λ t a. (ok tt, a);
}

abbrev checks : Checks (Agent Box) (Unit {0})
checks = record {
  keys = keys;
  agents = agents;
  run_command = λ cmd a. (err (lit "not connected"), a);
  parse_float = λ s. err (lit "no number");
  record_event = λ c kind reason message a. a;
  set_status_condition = λ c cs. c ∷ cs;
}

abbrev claim : Claim
claim = record new_claim { status = record new_claim.status { wan_interface = "wan0" } }

claim-Reaches : Reaches keys agents http address claim
unfolding ssh_signer lookup
claim-Reaches = record {
  signer = "key";
  client = tt;
  has_key = λ s a. refl;
  connected = λ a. refl;
  closed = λ a. refl;
  reads = λ iface a. refl;
  allocates = λ iface wan_parent m a. refl;
}

abbrev ops : Ops (Agent Box) (Unit {0})
unfolding default_run_router_script
ops = record {
  get = λ namespace name a. (absent, a);
  update = λ c a. (ok c, a);
  update_status = λ c a. (ok c, a);
  cleanup_router_interface = λ c a. (ok tt, a);
  remove_ip_from_pool = λ pool ip a. (ok tt, a);
  ensure_ip_in_pool = λ pool ip a. (ok tt, a);
  run_router_script = default_run_router_script keys agents;
  get_ssh_manager = λ c a. ((ok tt, c), a);
  interface_exists = λ m iface a. (ok true, a);
  verify_claim_state = λ c m a. ((ok tt, c), a);
  generate_unique_mac = λ a. (mac, a);
  now = λ a. (0, a);
  record_event = λ c kind reason message a. a;
  parses_ip = λ ip. true;
  contains_finalizer = λ fs f. true;
  add_finalizer = λ fs f. fs;
  remove_finalizer = λ fs f. fs;
  set_status_condition = λ c cs. c ∷ cs;
}

same_script :
    (c : Claim) (iface : String) (a : Agent Box)
    → ops.run_router_script c iface mac a ≡ default_run_router_script keys agents c iface mac a
unfolding ops
same_script c iface a = refl

holds : get "wan0" holding.store ≡ some old_lease
unfolding lookup
holds = refl

stale_lease_blocks_example :
    (verify_claim_state checks claim holding
      ≡ ((err (lit "lease stale or interface missing"), with_reason "lease_stale" claim), holding))
    × ((s : ClaimStatus)
        → Blocked holding (ops.run_router_script (record claim { status = s }) "wan0" mac holding)
          × WrittenFailed ops "wan0" mac (record claim { status = s }) holding)
stale_lease_blocks_example =
    stale_lease_blocks box checks http address claim claim-Reaches (λ event reason m a. refl) ops
      mac http-GetWired http-PostWired holding old_lease same_script refl holds refl
