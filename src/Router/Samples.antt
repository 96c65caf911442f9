-- ===== src/Router/Samples.antt =====
-- A wire to the agent on the small host.
use cilium_dhcp_wanip_operat.Base.{
  ◌≡◌, ◌⊎◌, inl, inr, refl, String, Option, none, some, Result, ok, err, lit, ◌==◌, if◌then◌else◌,
  arith, is_ok, true, false, [], ◌∷◌,
}
use cilium_dhcp_wanip_operat.Agent.State.{Lease, Agent}
use cilium_dhcp_wanip_operat.Agent.Network.{
  create_macvlan, delete_macvlan, setup_interface, cleanup_interface,
}
use cilium_dhcp_wanip_operat.Agent.Allocation
use cilium_dhcp_wanip_operat.Agent.Allocation.{allocate_lease, stop_renewal_loop}
use cilium_dhcp_wanip_operat.Base.Dict.{insert, lookup, delete}
use cilium_dhcp_wanip_operat.Agent.Store.{get, member, set_lease, delete_lease, acquire_inflight}
use cilium_dhcp_wanip_operat.Agent.Handlers.{
  LeaseRequest, Body, lease_response, Route, post_leases, delete_one, serve, handle_release_lease,
  handle_allocate_lease,
}
use cilium_dhcp_wanip_operat.Agent.Box.{Box, box, held, first_lease, mac, agent_on, with_server}
use cilium_dhcp_wanip_operat.Agent.Box.Laws.{kernel-KernelLaws, box-QuietHost}
use cilium_dhcp_wanip_operat.Router.Client
use cilium_dhcp_wanip_operat.Router.Wire.{PostWired}
use cilium_dhcp_wanip_operat.Router.Allocated.{HeldAt, allocate_lease-HeldAt}
use cilium_dhcp_wanip_operat.Router.Client.{Http, send, release_lease}
use cilium_dhcp_wanip_operat.Router.EndToEnd.{Wired, release_lease-gone}

-- Bodies are the agent's, and requests are already routed.
abbrev reads : Body → Result LeaseRequest
reads body = err (lit "not a request")

abbrev request : String → String → Option Body → Result (Route Body)
request method url none =
    if method == "DELETE" then ok (delete_one "wan0") else err (lit "not used")
request method url (some body) = ok (post_leases body)

abbrev wire_http : Http (Agent Box) (Route Body) Body
wire_http = record {
  new_request = request;
  do_request = λ q a. let (r, b) = serve box reads q a in (ok (r.code, r.body), b);
  marshal = λ req. err (lit "not used");
  decode_error = λ body. "";
  decode_lease = λ body. err (lit "not used");
  decode_list = λ body. err (lit "not used");
  decode_status = λ body. err (lit "not used");
}

wire_http-Wired : Wired box wire_http "127.0.0.1:4000" "wan0"
wire_http-Wired = record {
  decode = reads;
  encode = λ body. body;
  routed = λ q. q;
  delete_request = delete_one "wan0";
  made = refl;
  route = refl;
  sent = λ q a. refl;
}

stored : get "wan0" held.store ≡ some first_lease
unfolding allocate_lease create_macvlan setup_interface set_lease insert lookup
    Allocation.start_renewal_loop
stored = refl

named : (o : Option Lease) (l : Lease) → o ≡ some first_lease → o ≡ some l → l.iface ≡ "wan0"
named none l e d = ground arith
named (some m) l e d = ground (arith, e, d)

held_by_name : (l : Lease) → get "wan0" held.store ≡ some l → l.iface ≡ "wan0"
held_by_name l e = named (get "wan0" held.store) l stored e

released : (release_lease wire_http "127.0.0.1:4000" "wan0" held).0 ≡ ok tt
unfolding allocate_lease create_macvlan setup_interface set_lease insert lookup delete
    delete_macvlan cleanup_interface Allocation.release_lease stop_renewal_loop delete_lease
    release_lease send serve handle_release_lease acquire_inflight Allocation.start_renewal_loop
    Allocation.cancel_found
released = refl

-- An allocation is in flight, and no lease is stored yet.
abbrev allocating : Agent Box
allocating = record (agent_on with_server) {
  store = record { leases = []; state_file = "leases.json"; inflight = "wan0" ∷ [] };
}

none_held : (l : Lease) → get "wan0" allocating.store ≡ some l → l.iface ≡ "wan0"
unfolding lookup
none_held l e = ground (arith, e)

release_lease-gone_example :
    let (res, b) = release_lease wire_http "127.0.0.1:4000" "wan0" allocating in
    ((member "wan0" allocating.store.inflight ≡ true) × (is_ok res ≡ false) × (b ≡ allocating))
    ⊎ ((member "wan0" allocating.store.inflight ≡ false) × (get "wan0" b.store ≡ none))
release_lease-gone_example =
    release_lease-gone box wire_http "127.0.0.1:4000" "wan0" wire_http-Wired allocating none_held

-- The lease that is held is gone, and the call returns no error.
held_gone :
    let (res, b) = release_lease wire_http "127.0.0.1:4000" "wan0" held in
    ((member "wan0" held.store.inflight ≡ true) × (is_ok res ≡ false) × (b ≡ held))
    ⊎ ((member "wan0" held.store.inflight ≡ false) × (get "wan0" b.store ≡ none))
held_gone =
    release_lease-gone box wire_http "127.0.0.1:4000" "wan0" wire_http-Wired held held_by_name

-- A wire for the request of an allocation; the other calls are not used.
abbrev Sent : Type 0
Sent = LeaseRequest ⊎ Body

abbrev post_request : String → String → Option Sent → Result (Route Sent)
post_request method url none = err (lit "not used")
post_request method url (some body) = ok (post_leases body)

abbrev decode_address : Sent → Result String
decode_address (inr (lease_response ip t)) = ok ip
decode_address _ = err (lit "no lease")

abbrev read_request : Sent → Result LeaseRequest
read_request (inl req) = ok req
read_request (inr body) = err (lit "no request")

abbrev post_http : Http (Agent Box) (Route Sent) Sent
post_http = record {
  new_request = post_request;
  do_request = λ q a. let (r, b) = serve box read_request q a in (ok (r.code, inr r.body), b);
  marshal = λ req. ok (inl req);
  decode_error = λ body. "";
  decode_lease = decode_address;
  decode_list = λ body. err (lit "not used");
  decode_status = λ body. err (lit "not used");
}

abbrev wan0 : LeaseRequest
wan0 = record { iface = "wan0"; wan_parent = "eth0"; mac_address = mac }

post_http-PostWired : PostWired box post_http "127.0.0.1:4000" wan0
post_http-PostWired = record {
  decode = read_request;
  encode = λ body. inr body;
  routed = λ q. q;
  body = inl wan0;
  post_request = post_leases (inl wan0);
  marshalled = refl;
  made = refl;
  route = refl;
  read = refl;
  sent = λ q a. refl;
  decoded = λ ip t. refl;
}

asked :
    (Client.allocate_lease post_http "127.0.0.1:4000" "wan0" "eth0" mac (agent_on with_server)).0
    ≡ ok "203.0.113.7"
unfolding allocate_lease create_macvlan setup_interface set_lease insert lookup
    Allocation.start_renewal_loop Client.allocate_lease send serve handle_allocate_lease
    acquire_inflight
asked = refl

allocate_lease-HeldAt_example :
    HeldAt box kernel-KernelLaws box-QuietHost post_http "127.0.0.1:4000" "wan0" "203.0.113.7"
      (Client.allocate_lease post_http "127.0.0.1:4000" "wan0" "eth0" mac (agent_on with_server)).1
allocate_lease-HeldAt_example =
    allocate_lease-HeldAt box kernel-KernelLaws box-QuietHost post_http "127.0.0.1:4000" wan0
      post_http-PostWired (agent_on with_server) asked
