-- ===== src/Controller/Events.antt =====
-- internal/controller/publicipclaim_controller.go: the handler that `getSSHManager` registers, which
-- turns an event of a router into annotations of the claim.

use cilium_dhcp_wanip_operat.Base.{
  ◌≡◌, ◌∙◌, String, true, false, none, some, Result, ok, err, ◌==◌, arith,
}
use cilium_dhcp_wanip_operat.Base.Action.{Action}
use cilium_dhcp_wanip_operat.Base.Dict.{
  lookup, insert, delete, lookup-insert, lookup-delete, lookup-insert_other, lookup-delete_other,
}
use cilium_dhcp_wanip_operat.Api.{Claim}
use cilium_dhcp_wanip_operat.Ssh.Manager.{
  EventReason, reboot, connection_drop, reconnect_success, Event,
}
use cilium_dhcp_wanip_operat.Controller.Tracking.{Watcher}
use cilium_dhcp_wanip_operat.Controller.Reconcile.{reconcile_claim, reconcile_live}
use cilium_dhcp_wanip_operat.Controller.Reconcile.Branches.{clear_annotations, handle_router_event}
use cilium_dhcp_wanip_operat.Controller.Reconcile.Calls.{
  Ops, Run, finalizer_name, event_annotation, event_reason_annotation,
}

-- `string(event.Reason)`
abbrev pub reason_text : EventReason → String
reason_text reboot = "reboot"
reason_text connection_drop = "connection_drop"
reason_text reconnect_success = "reconnect_success"

-- The API server, and the time as RFC 3339 prints it.
pub record EventApi (W : Type 0) : Type 0 where
  pub get : String → String → Action W Claim
  pub update : Claim → Action W Claim
  pub now : W → String × W

abbrev pub annotated : String → EventReason → Claim → Claim
annotated time reason c = record c {
  annotations =
      insert event_reason_annotation (reason_text reason)
        (insert event_annotation time c.annotations);
}

module _ {W : Type 0} (api : EventApi W) where
  -- Errors are only logged.
  unfoldable pub annotate_found : EventReason → Result Claim × W → W
  annotate_found reason (err e, w) = w
  annotate_found reason (ok c, w) =
      let (time, w') = api.now w in (api.update (annotated time reason c) w').1

  unfoldable pub on_event : Watcher → Event → W → W
  unfolding annotate_found
  on_event watcher event w =
      annotate_found event.reason (api.get watcher.claim_namespace watcher.claim_name w)

annotated-event :
    (time : String) (reason : EventReason) (c : Claim)
    → lookup event_annotation (annotated time reason c).annotations ≡ some time
annotated-event time reason c =
    lookup-insert event_reason_annotation event_annotation (reason_text reason)
      (insert event_annotation time c.annotations)
    ∙ lookup-insert event_annotation event_annotation time c.annotations

-- The claim as an event leaves it is next reconciled as after a router event, if it is not being deleted and has the finalizer; and once that reconcile has cleared the annotations of the claim, it has no event any more, and its other annotations are as before the event.
pub annotated-handled :
    {W M : Type 0} (ops : Ops W M) (time : String) (reason : EventReason) (c : Claim) (r : Run W)
    → c.deletion_timestamp ≡ none
    → ops.contains_finalizer c.finalizers finalizer_name ≡ true
    → let a = annotated time reason c in
      (reconcile_claim ops a r ≡ handle_router_event ops a r)
      × (lookup event_annotation (clear_annotations a).annotations ≡ none)
      × ((key : String)
          → (event_annotation == key) ≡ false
          → (event_reason_annotation == key) ≡ false
          → lookup key (clear_annotations a).annotations ≡ lookup key c.annotations)
unfolding reconcile_claim reconcile_live
annotated-handled ops time reason c r k f = (
  ground (arith, k, f, annotated-event time reason c),
  lookup-delete event_reason_annotation event_annotation
        (delete event_annotation (annotated time reason c).annotations)
      ∙ lookup-delete event_annotation event_annotation (annotated time reason c).annotations,
  λ key d e.
      let before = insert event_annotation time c.annotations in
      let after = insert event_reason_annotation (reason_text reason) before in
      lookup-delete_other event_reason_annotation key (delete event_annotation after) e
      ∙ lookup-delete_other event_annotation key after d
      ∙ lookup-insert_other event_reason_annotation key (reason_text reason) before e
      ∙ lookup-insert_other event_annotation key time c.annotations d,
)
