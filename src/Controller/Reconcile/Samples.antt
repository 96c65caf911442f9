-- ===== src/Controller/Reconcile/Samples.antt =====
-- A cluster, a router and claims on which the theorems are tried.
use cilium_dhcp_wanip_operat.Base.{
  ◌≡◌, ◌≢◌, ◌⊎◌, inl, none, fmt, arith, refl, ℕ, ◌+◌, ◌*◌, String, Bool, true, false, not, some,
  List, [], ◌∷◌, ◌++◌, Text, lit, ok, err, All, ◌==◌, is_empty, if◌then◌else◌,
}
use cilium_dhcp_wanip_operat.Base.Dict.{lookup}
use cilium_dhcp_wanip_operat.Api.{Claim, pending, ready}
use cilium_dhcp_wanip_operat.Controller.Names.{generated_interface}
use cilium_dhcp_wanip_operat.Controller.Example.{new_claim}
use cilium_dhcp_wanip_operat.Controller.Reconcile.{reconcile_claim, reconcile_live}
use cilium_dhcp_wanip_operat.Controller.Reconcile.Calls.{
  Ops, done, requeue_after, minute, updated, status_updated, got_manager, cleaned, removed_ip,
  found, checked_interface, second,
}
use cilium_dhcp_wanip_operat.Controller.Reconcile.Branches.{
  handle_deletion, handle_router_event, verify_ready, drifted_status, reset_status,
  clear_annotations, text_or_empty,
}
use cilium_dhcp_wanip_operat.Controller.Reconcile.Allocation.{
  in_progress, interface_for, failed_status, fail, allocate_unless_busy, by_phase, allocate,
  publish, after_ensure, add_to_pool, after_script, run_and_publish,
}
use cilium_dhcp_wanip_operat.Controller.Reconcile.Deletion.{
  start_run, unfinalized, releases, NotUpdated, deletion_order,
}
use cilium_dhcp_wanip_operat.Controller.Reconcile.Ordering.{Guarded, reconcile-Guarded}
use cilium_dhcp_wanip_operat.Controller.Reconcile.Stuck.{
  IsSettled, Starting, last_stored, failed_allocation_stays,
}
use cilium_dhcp_wanip_operat.Controller.Reconcile.Drift.{
  NotRemoved, Reprovisioned, drift_reprovisions, event_strands_address,
}
use cilium_dhcp_wanip_operat.Controller.Reconcile.Success.{Allocated, allocate_ok}

abbrev has : List String → String → Bool
has [] f = false
has (g ∷ gs) f = if g == f then true else has gs f

abbrev without : List String → String → List String
without [] f = []
without (g ∷ gs) f = let rest = without gs f in if g == f then rest else g ∷ rest

abbrev ready_claim : String → Claim
ready_claim wan = record new_claim {
  status = record new_claim.status {
    phase = ready;
    assigned_ip = "198.51.100.7";
    wan_interface = wan;
  };
}

-- The world counts the writes; the managers are named by numbers. The verification fails while
-- the interface of the claim is `wan-gone`.
abbrev sample_ops : Ops ℕ ℕ
sample_ops = record {
  get = λ namespace name w. (found new_claim, w);
  update = λ c w. (ok c, w + 1);
  update_status = λ c w. (ok c, w + 1);
  cleanup_router_interface = λ c w. (ok tt, w);
  remove_ip_from_pool = λ pool ip w. (err (lit "failed to update pool %s: conflict"), w);
  ensure_ip_in_pool = λ pool ip w. (ok tt, w + 1);
  run_router_script = λ c wan mac w. (ok "203.0.113.9", w);
  get_ssh_manager = λ c w. ((ok 1, c), w);
  interface_exists = λ mgr iface w. (ok false, w);
  verify_claim_state = λ c mgr w. (
    (if c.status.wan_interface == "wan-gone" then err (lit "interface missing") else ok tt, c),
    w,
  );
  generate_unique_mac = λ w. ("02:00:00:00:00:01", w);
  now = λ w. (1700000000, w);
  record_event = λ c kind reason message w. w;
  parses_ip = λ ip. not (is_empty ip);
  contains_finalizer = has;
  add_finalizer = λ fs f. fs ++ f ∷ [];
  remove_finalizer = without;
  set_status_condition = λ c cs. c ∷ cs;
}

abbrev deleted_claim : Claim
deleted_claim = record (ready_claim "wan-home") { deletion_timestamp = some 1700000000 }

new_claim-IsSettled : IsSettled sample_ops new_claim
unfolding lookup
new_claim-IsSettled = record { kept = refl; finalized = refl; quiet = refl }

-- The pool refuses the removal, so that the finalizer stays.
deletion_order_example :
    let (res, r) = reconcile_claim sample_ops deleted_claim (start_run 0) in
    (res ≡ ok done)
      × (r.calls
          ≡ updated (unfinalized sample_ops deleted_claim) true
            ∷ (releases deleted_claim ++ cleaned deleted_claim true ∷ []))
    ⊎ ((e : Text) × (res ≡ err e) × All NotUpdated r.calls)
deletion_order_example = deletion_order sample_ops deleted_claim 0 refl refl

deletion_test :
    (reconcile_claim sample_ops deleted_claim (start_run 0)).1.calls
    ≡ removed_ip "wan" "198.51.100.7" false ∷ cleaned deleted_claim true ∷ []
unfolding reconcile_claim handle_deletion
deletion_test = refl

reconcile-Guarded_example :
    Guarded sample_ops (reconcile_claim sample_ops new_claim (start_run 0)).1.calls
reconcile-Guarded_example = reconcile-Guarded sample_ops new_claim 0

-- The agent refuses the lease.
abbrev refusing_ops : Ops ℕ ℕ
refusing_ops = record sample_ops {
  run_router_script = λ c wan mac w. (err (lit "agent returned 409"), w);
}

abbrev refused_claim : Claim
unfolding generated_interface
refused_claim =
    failed_status (fmt "router script: %w" (lit "agent returned 409"))
      (in_progress (interface_for new_claim) "02:00:00:00:00:01" new_claim)

new_claim-Starting : Starting refusing_ops new_claim
unfolding lookup generated_interface
new_claim-Starting = record {
  settled = record { kept = refl; finalized = refl; quiet = refl };
  unfinished = refl;
  no_interface = refl;
  named = refl;
}

refused_ends :
    ((reconcile_claim refusing_ops new_claim (start_run 0)).0
      ≡ err (fmt "router script: %w" (lit "agent returned 409")))
    × (last_stored (reconcile_claim refusing_ops new_claim (start_run 0)).1.calls
        ≡ some refused_claim)
unfolding reconcile_claim reconcile_live allocate_unless_busy by_phase allocate run_and_publish
    after_script fail lookup generated_interface
refused_ends = (refl, refl)

failed_allocation_stays_example :
    (reconcile_claim refusing_ops refused_claim (start_run 7)
      ≡ (ok (requeue_after (5 * minute)), start_run 7))
    ⊎ (reconcile_claim refusing_ops refused_claim (start_run 7) ≡ (ok done, start_run 7))
failed_allocation_stays_example =
    failed_allocation_stays refusing_ops new_claim 0 (start_run 7) (λ d w. inl refl)
      new_claim-Starting refused_ends.0 refused_ends.1

drift_reprovisions_example :
    let c = ready_claim "wan-gone" in
    let written = drifted_status sample_ops (lit "interface missing") c in
    Reprovisioned sample_ops c 0 written "198.51.100.7"
      (sample_ops.update_status written 0)
      (verify_ready sample_ops c (start_run 0))
    × (written.status.phase ≡ pending)
    × (written.status.wan_interface ≡ "")
    × (written.status.assigned_ip ≡ "")
drift_reprovisions_example =
    drift_reprovisions sample_ops (ready_claim "wan-gone") 0 {mgr = 1} refl refl

not_there : ok false ≢ ok true
not_there e = ground (arith, e)

event_strands_address_example :
    let reset = reset_status (text_or_empty none) (ready_claim "wan-gone") in
    let cleared = clear_annotations reset in
    let (res, r) = handle_router_event sample_ops (ready_claim "wan-gone") (start_run 0) in
    (res ≡ ok (requeue_after second))
    × (r.calls
        ≡ updated cleared true
          ∷ status_updated reset true
          ∷ checked_interface "wan-gone"
          ∷ got_manager
          ∷ [])
    × (reset.status.phase ≡ pending)
    × (reset.status.assigned_ip ≡ "")
    × All NotRemoved
        (reconcile_claim sample_ops
          (record cleared { deletion_timestamp = some 1800000000 })
          (start_run 5)).1.calls
unfolding lookup
event_strands_address_example =
    event_strands_address sample_ops (ready_claim "wan-gone") 0 {mgr = 1} {answer = ok false}
      1800000000 5 refl refl refl not_there refl

allocate_ok_example :
    Allocated sample_ops new_claim
      (requeue_after (60 * minute))
      (allocate sample_ops new_claim (start_run 0)).1.calls
unfolding allocate run_and_publish after_script add_to_pool after_ensure publish
allocate_ok_example = allocate_ok sample_ops new_claim 0 refl
