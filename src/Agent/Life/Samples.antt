-- ===== src/Agent/Life/Samples.antt =====
-- An agent on a small host: a lease is allocated, renewed and released.
use cilium_dhcp_wanip_operat.Base.{
  ◌≡◌, refl, true, false, ◌/◌, ℕ, Option, none, some, List, [], ◌∷◌, Result, ok,
}
use cilium_dhcp_wanip_operat.Base.Dict.{lookup, insert, delete}
use cilium_dhcp_wanip_operat.Agent.Network.{
  create_macvlan, delete_macvlan, cleanup_interface, setup_interface,
}
use cilium_dhcp_wanip_operat.Agent.State.{Lease, Loop, Agent}
use cilium_dhcp_wanip_operat.Agent.Store.{
  get, set_lease, delete_lease, acquire_inflight, release_inflight,
}
use cilium_dhcp_wanip_operat.Agent.Allocation.{
  minute, allocate_lease, release_lease, start_renewal_loop, stop_renewal_loop, cancel_found,
}
use cilium_dhcp_wanip_operat.Agent.Handlers.{
  LeaseRequest, post_leases, delete_one, handle_allocate_lease, handle_release_lease,
}
use cilium_dhcp_wanip_operat.Agent.Renewal.{loop_returns}
use cilium_dhcp_wanip_operat.Agent.Dhcp.Example.{server-Timed}
use cilium_dhcp_wanip_operat.Agent.Machine.{host}
use cilium_dhcp_wanip_operat.Agent.Machine.Example.{machine}
use cilium_dhcp_wanip_operat.Agent.Box.{Box, box, agent_on, with_server, request, first_lease, held}
use cilium_dhcp_wanip_operat.Agent.Life.{
  Occurrence, starts, request as served, timer_fires, ends, find_loop, run_agent,
}
use cilium_dhcp_wanip_operat.Agent.Life.Stored.{Fine}
use cilium_dhcp_wanip_operat.Agent.Life.Sound.{run_agent-Fine}
use cilium_dhcp_wanip_operat.Agent.Life.Orphan.{returning_loop_orphans}

abbrev decode : LeaseRequest → Result LeaseRequest
decode r = ok r

abbrev renewed_once : List (Occurrence LeaseRequest)
renewed_once = served (post_leases request) ∷ timer_fires 0 ∷ []

abbrev released : List (Occurrence LeaseRequest)
released =
    served (post_leases request) ∷ timer_fires 0 ∷ served (delete_one "wan0") ∷ ends 0 ∷ starts ∷ []

abbrev count : Option Lease → ℕ
count none = 0
count (some l) = l.renewal_count

renewed_test :
    count (get "wan0" (run_agent (host machine) decode renewed_once (agent_on with_server)).store)
    ≡ 1
unfolding run_agent host lookup insert allocate_lease create_macvlan setup_interface set_lease
    start_renewal_loop handle_allocate_lease acquire_inflight release_inflight
renewed_test = refl

released_test : (run_agent (host machine) decode released (agent_on with_server)).loops ≡ []
unfolding run_agent host lookup insert delete release_lease handle_release_lease acquire_inflight
    handle_allocate_lease allocate_lease create_macvlan setup_interface set_lease start_renewal_loop
    release_inflight delete_lease delete_macvlan cleanup_interface stop_renewal_loop cancel_found
released_test = refl

run_agent-Fine_example : Fine (run_agent (host machine) decode released (agent_on with_server))
run_agent-Fine_example =
    run_agent-Fine machine server-Timed decode released (agent_on with_server)
      (record { leases = tt; loops = tt })

-- The loop of a lease that was released, which has not returned yet.
abbrev waiting : Loop
waiting = record {
  number = 0;
  lease = first_lease;
  cancelled = true;
  backoff = minute;
  timer = first_lease.lease_time / 2;
}

abbrev after_release : Agent Box
after_release = record (agent_on with_server) { loops = waiting ∷ []; started_loops = 1 }

returning_loop_orphans_example :
    find_loop 1
      (release_lease box first_lease
        (loop_returns box waiting (start_renewal_loop first_lease after_release))).1.loops
    ≡ some (record {
      number = 1;
      lease = first_lease;
      cancelled = false;
      backoff = minute;
      timer = first_lease.lease_time / 2;
    })
returning_loop_orphans_example =
    returning_loop_orphans box waiting first_lease first_lease after_release refl refl refl refl

released_leaves : (release_lease box first_lease held).1.loops ≡ waiting ∷ []
unfolding release_lease allocate_lease create_macvlan setup_interface set_lease start_renewal_loop
    delete_lease delete_macvlan cleanup_interface stop_renewal_loop cancel_found lookup insert
released_leaves = refl
