-- ===== src/Agent/Samples.antt =====
-- Witnesses for the properties of the agent, on a small host.
use text.Mathlib.TextEquality.{eq_iff}
use cilium_dhcp_wanip_operat.Base.{
  ◌≡◌, ℕ, refl, ◌*◌, String, true, false, is_some, Option, none, some, List, [], ◌∷◌, Text, lit,
  fmt, ok, err, arith,
}
use cilium_dhcp_wanip_operat.Base.Dict.{Dict, lookup, insert, lookup-insert, lookup-insert_self}
use cilium_dhcp_wanip_operat.Agent.Network.{create_macvlan, delete_macvlan, setup_interface}
use cilium_dhcp_wanip_operat.Agent.Network.Links.{Undone}
use cilium_dhcp_wanip_operat.Agent.State.{active, Lease, Loop}
use cilium_dhcp_wanip_operat.Agent.Server.{start_agent, start_agent-keeps}
use cilium_dhcp_wanip_operat.Agent.Allocation
use cilium_dhcp_wanip_operat.Agent.Store.{get, save_leases, set_lease}
use cilium_dhcp_wanip_operat.Agent.Allocation.{minute, allocate_lease, lease_up, release_lease}
use cilium_dhcp_wanip_operat.Agent.Handlers.{handle_allocate_lease, handle_release_lease}
use cilium_dhcp_wanip_operat.Agent.Rollback.{failed_allocation-Undone}
use cilium_dhcp_wanip_operat.Agent.Persistence.{DiskLaws, Reloads, load-save}
use cilium_dhcp_wanip_operat.Agent.Locking.{handlers-locks}
use cilium_dhcp_wanip_operat.Agent.Renewal.{renewed, renewal_round}
use cilium_dhcp_wanip_operat.Agent.Rounds.{Round, renewal_round-Round, released_lease_returns}
use cilium_dhcp_wanip_operat.Agent.Unsaved.{unsaved_lease_stays}
use cilium_dhcp_wanip_operat.Agent.Garp.{zeros, build_gratuitous_arp}
use cilium_dhcp_wanip_operat.Agent.Garp.Frame.{ArpFrame, build_gratuitous_arp-ArpFrame}
use cilium_dhcp_wanip_operat.Agent.Box.Laws.{kernel-KernelLaws, box-QuietHost}
use cilium_dhcp_wanip_operat.Agent.Box.{
  Box, kernel, info, move, box, agent_on, with_server, without_server, no_space, mac, first_lease,
  held, request,
}

abbrev file : Box → String → Option (Dict Lease)
file b path = lookup path b.files

move-renamed :
    (old new : String) (b : Box) (u : Unit {0}) (o : Option (Dict Lease))
    → lookup old b.files ≡ o
    → (move old new o b).0 ≡ ok u
    → lookup new (move old new o b).1.files ≡ lookup old b.files
move-renamed old new b u none e d = ground arith
move-renamed old new b u (some m) e d = ground (arith, e, lookup-insert_self new m b.files)

move-same :
    (old new : String) (b : Box) (x : Text) (o : Option (Dict Lease))
    → (move old new o b).0 ≡ err x
    → lookup new (move old new o b).1.files ≡ lookup new b.files
move-same old new b x none d = refl
move-same old new b x (some m) d = ground arith

box-DiskLaws : DiskLaws box file
box-DiskLaws = record {
  reads = λ path w. refl;
  wrote = λ path text w u d. ground (arith, lookup-insert_self path text w.files);
  wrote_only = λ path text other w ne.
      ground (arith, lookup-insert path other text w.files, eq_iff path other);
  renamed = λ old new w u d. move-renamed old new w u (lookup old w.files) refl d;
  not_renamed = λ old new w e d. move-same old new w e (lookup old w.files) d;
  decodes = λ m text d. ground arith;
}

no_offer :
    (allocate_lease box "wan0" "eth0" mac (agent_on without_server)).0
    ≡ err (fmt "failed to acquire DHCP lease: %w" (lit "no offer"))
unfolding allocate_lease create_macvlan delete_macvlan setup_interface set_lease insert lookup
no_offer = refl

failed_allocation-Undone_example :
    Undone kernel kernel-KernelLaws "wan0" without_server
      (allocate_lease box "wan0" "eth0" mac (agent_on without_server)).1.world
failed_allocation-Undone_example =
    failed_allocation-Undone box kernel-KernelLaws box-QuietHost "wan0" "eth0" mac
      (agent_on without_server) no_offer

gets_lease : (allocate_lease box "wan0" "eth0" mac (agent_on with_server)).0 ≡ ok first_lease
unfolding allocate_lease create_macvlan delete_macvlan setup_interface set_lease insert lookup
gets_lease = refl

load-save_example :
    Reloads box box-DiskLaws "leases.json"
      (("wan0", first_lease) ∷ [])
      with_server
      (save_leases box "leases.json" (("wan0", first_lease) ∷ []) with_server)
load-save_example =
    load-save box box-DiskLaws "leases.json" (("wan0", first_lease) ∷ []) with_server

handlers-locks_example :
    ((handle_allocate_lease box (ok request) (agent_on with_server)).1.store.inflight ≡ [])
    × ((handle_release_lease box "wan0" (agent_on with_server)).1.store.inflight ≡ [])
handlers-locks_example = handlers-locks box (ok request) "wan0" (agent_on with_server)

abbrev loop : Loop
loop = record {
  number = 0;
  lease = first_lease;
  cancelled = false;
  backoff = minute;
  timer = 30 * minute;
}

renewal_round-Round_example : Round box loop held (renewal_round box loop held)
renewal_round-Round_example = renewal_round-Round box loop held

released_lease_returns_example :
    let b = (release_lease box first_lease held).1 in
    (get "wan0" b.store ≡ none)
    × (m : Lease) × (m.status ≡ active)
    × (get "wan0" (renewed box first_lease (ok info, b)).1.store ≡ some m)
released_lease_returns_example = released_lease_returns box first_lease info held

abbrev made_links : Box
made_links = record no_space { links = "wan0" ∷ "eth0" ∷ [] }

made : create_macvlan kernel "wan0" "eth0" mac no_space ≡ (ok tt, made_links)
unfolding create_macvlan
made = refl

up : lease_up box "wan0" "eth0" mac made_links ≡ (ok first_lease, made_links)
unfolding lease_up setup_interface
up = refl

unsaved :
    (save_leases box "leases.json" (insert "wan0" first_lease []) made_links).0
    ≡ err (fmt "failed to write temp file: %w" (lit "no space"))
unfolding save_leases
unsaved = refl

unsaved_lease_stays_example :
    let (r, b) = allocate_lease box "wan0" "eth0" mac (agent_on no_space) in
    (r
      ≡ err (fmt "failed to save lease: %w" (fmt "failed to write temp file: %w" (lit "no space"))))
    × (get "wan0" b.store ≡ some first_lease)
    × (b.world ≡ (delete_macvlan kernel "wan0" made_links).1)
unfolding save_leases
unsaved_lease_stays_example =
    unsaved_lease_stays box "wan0" "eth0" mac (agent_on no_space) made up unsaved

-- The frame of 02:00:00:00:00:01 for 203.0.113.7.
build_gratuitous_arp-ArpFrame_example :
    let mac : List ℕ = 2 ∷ 0 ∷ 0 ∷ 0 ∷ 0 ∷ 1 ∷ [] in
    let ip : List ℕ = 203 ∷ 0 ∷ 113 ∷ 7 ∷ [] in
    ArpFrame (build_gratuitous_arp mac ip) mac ip (zeros 6) ip
build_gratuitous_arp-ArpFrame_example = build_gratuitous_arp-ArpFrame 2 0 0 0 0 1 203 0 113 7

start_agent-keeps_example : is_some (get "wan0" (start_agent box held).store) ≡ true
unfolding allocate_lease create_macvlan setup_interface set_lease insert lookup
    Allocation.start_renewal_loop
start_agent-keeps_example = start_agent-keeps box "wan0" held refl
