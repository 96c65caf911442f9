-- ===== src/Controller/Reconcile/Branches.antt =====
-- internal/controller/publicipclaim_controller.go: the branches of `Reconcile` up to the periodic
-- verification: deletion, the finalizer, router events and Ready claims.
use cilium_dhcp_wanip_operat.Base.{
  ◌*◌, String, Bool, true, false, Option, none, some, Text, lit, fmt, Result, ok, err, is_empty,
  if◌then◌else◌,
}
use cilium_dhcp_wanip_operat.Base.Action.{Action, returns, ◌>>=◌, ◌>>◌}
use cilium_dhcp_wanip_operat.Base.Dict.{lookup, delete}
use cilium_dhcp_wanip_operat.Api.{
  Claim, pending, condition_true, condition_false, condition_ready, condition_recovering,
}
use cilium_dhcp_wanip_operat.Controller.Reconcile.Calls.{
  Ops, Run, Outcome, done, requeue, requeue_after, finalizer_name, event_annotation,
  event_reason_annotation, second, minute, cleaned, checked_interface, verified, is_ok, calling,
  always, attempt, call_update, call_update_status, call_remove_ip, call_ssh_manager,
  call_record_event,
}

-- The status that starts provisioning again after a router event.
abbrev pub reset_status : Text → Claim → Claim
reset_status reason c = record c {
  status = record c.status {
    phase = pending;
    message = fmt "Re-provisioning after %s" reason;
    wan_interface = "";
    assigned_ip = "";
    router_uptime = 0;
  };
}

-- A missing annotation reads as the empty text.
abbrev pub text_or_empty : Option String → Text
text_or_empty none = lit ""
text_or_empty (some s) = lit s

abbrev pub clear_annotations : Claim → Claim
clear_annotations c = record c {
  annotations = delete event_reason_annotation (delete event_annotation c.annotations);
}

module _ {W M : Type 0} (ops : Ops W M) where
  -- `if claim.Status.AssignedIP != ""`
  release_assigned : Claim → Action (Run W) (Unit {0})
  release_assigned c =
      if is_empty c.status.assigned_ip
      then returns tt
      else call_remove_ip ops c.spec.pool_name c.status.assigned_ip

  clean_and_release : Claim → Action (Run W) Outcome
  unfolding release_assigned
  clean_and_release c = do
    calling (λ a. cleaned c (is_ok a)) (ops.cleanup_router_interface c)
    release_assigned c
    call_update ops (record c { finalizers = ops.remove_finalizer c.finalizers finalizer_name })
    returns done

  unfoldable pub handle_deletion : Claim → Action (Run W) Outcome
  unfolding clean_and_release
  handle_deletion c =
      if ops.contains_finalizer c.finalizers finalizer_name
      then clean_and_release c
      else returns done

  unfoldable pub add_finalizer : Claim → Action (Run W) Outcome
  add_finalizer c = do
    call_update ops (record c { finalizers = ops.add_finalizer c.finalizers finalizer_name })
    returns (requeue_after 1)

  -- The interface is there, or the status is reset.
  unless_exists : Text → Claim → Result Bool → Action (Run W) Claim
  unless_exists reason c (ok true) = returns c
  unless_exists reason c (ok false) = call_update_status ops (reset_status reason c)
  unless_exists reason c (err e) = call_update_status ops (reset_status reason c)

  check_after_event : Text → Result M → Claim → Action (Run W) Claim
  unfolding unless_exists
  check_after_event reason (err e) c = returns c
  check_after_event reason (ok mgr) c = if is_empty c.status.wan_interface then returns c else (do
    exists ← attempt (
        calling (λ a. checked_interface c.status.wan_interface)
          (ops.interface_exists mgr c.status.wan_interface))
    unless_exists reason c exists)

  -- A claim that carries the annotation of a router event.
  unfoldable pub handle_router_event : Claim → Action (Run W) Outcome
  unfolding check_after_event
  handle_router_event c = do
    let reason = text_or_empty (lookup event_reason_annotation c.annotations)
    got ← call_ssh_manager ops c
    seen ← check_after_event reason got.0 got.1
    attempt (call_update ops (clear_annotations seen))
    returns (requeue_after second)

  -- The status after a verification that failed.
  abbrev pub drifted_status : Text → Claim → Claim
  drifted_status e c = record c {
    status = record c.status {
      phase = pending;
      message = fmt "Re-provisioning after verification failed: %s" e;
      wan_interface = "";
      assigned_ip = "";
      configuration_verified = false;
      router_uptime = 0;
      conditions =
          ops.set_status_condition
            (record {
              type = condition_recovering;
              status = condition_true;
              reason = "ConfigurationDrift";
              message = fmt "Configuration drift detected: %s" e;
              observed_generation = c.generation;
            })
            (ops.set_status_condition
              (record {
                type = condition_ready;
                status = condition_false;
                reason = "ConfigurationDrift";
                message = fmt "Configuration drift detected: %s" e;
                observed_generation = c.generation;
              })
              c.status.conditions);
    };
  }

  -- The old address leaves the pool; an error of that is only logged.
  unfoldable pub release_old : String → Claim → Action (Run W) (Unit {0})
  release_old old_ip c =
      if is_empty old_ip
      then returns tt
      else (do attempt (call_remove_ip ops c.spec.pool_name old_ip); returns tt)

  after_verification : Result (Unit {0}) → Claim → Action (Run W) Outcome
  unfolding release_old
  after_verification (ok u) c = returns (requeue_after (60 * minute))
  after_verification (err e) c = do
    stored ← call_update_status ops (drifted_status e c)
    release_old c.status.assigned_ip stored
    returns requeue

  verify_with : Result M → Claim → Action (Run W) Outcome
  unfolding after_verification
  verify_with (err e) c = do
    call_record_event ops c "Warning" "SSHError" e
    returns (requeue_after (60 * minute))
  verify_with (ok mgr) c = do
    result ← calling (λ a. verified) (always (ops.verify_claim_state c mgr))
    after_verification result.0 result.1

  -- A Ready claim with an address.
  unfoldable pub verify_ready : Claim → Action (Run W) Outcome
  unfolding verify_with
  verify_ready c = do got ← call_ssh_manager ops c; verify_with got.0 got.1
