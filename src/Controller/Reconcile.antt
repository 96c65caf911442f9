-- ===== src/Controller/Reconcile.antt =====
-- internal/controller/publicipclaim_controller.go: `Reconcile`.
pub mod Calls
pub mod Branches
pub mod Allocation
pub mod Deletion
pub mod Ordering
pub mod Stuck
pub mod Drift
pub mod Success
mod Samples
use cilium_dhcp_wanip_operat.Base.{
  String, Bool, true, false, not, ◌&&◌, Option, none, some, Result, ok, err, is_empty, is_some,
  if◌then◌else◌,
}
use cilium_dhcp_wanip_operat.Base.Action.{Action, returns}
use cilium_dhcp_wanip_operat.Base.Dict.{lookup}
use cilium_dhcp_wanip_operat.Api.{Claim, ClaimPhase, ready}
use Calls.{
  Ops, Run, Outcome, done, ClaimReply, found, absent, refused, finalizer_name, event_annotation,
}
use Branches.{handle_deletion, add_finalizer, handle_router_event, verify_ready}
use Allocation.{allocate_unless_busy}

abbrev pub is_ready : ClaimPhase → Bool
is_ready ready = true
is_ready _ = false

module _ {W M : Type 0} (ops : Ops W M) where
  -- A claim that is not being deleted and has the finalizer.
  unfoldable pub reconcile_live : Claim → Action (Run W) Outcome
  reconcile_live c =
      if is_some (lookup event_annotation c.annotations)
      then handle_router_event ops c
      else if is_ready c.status.phase && not (is_empty c.status.assigned_ip)
      then verify_ready ops c
      else allocate_unless_busy ops c

  -- `Reconcile` of the claim that was read.
  unfoldable pub reconcile_claim : Claim → Action (Run W) Outcome
  reconcile_claim c = elim c.deletion_timestamp [
    | some t ↦ handle_deletion ops c
    | none ↦
        if ops.contains_finalizer c.finalizers finalizer_name
        then reconcile_live c
        else add_finalizer ops c
  ]

  by_reply : ClaimReply × W → Action (Run W) Outcome
  by_reply (found c, w) r = reconcile_claim c (record r { world = w })
  by_reply (absent, w) r = (ok done, record r { world = w })
  by_reply (refused e, w) r = (err e, record r { world = w })

  unfoldable pub reconcile : String → String → Action (Run W) Outcome
  unfolding by_reply
  reconcile namespace name r = by_reply (ops.get namespace name r.world) r
