-- ===== src/Controller/Reconcile/Deletion.antt =====
-- internal/controller/publicipclaim_controller.go: the order of the steps that delete a claim.
use cilium_dhcp_wanip_operat.Base.{
  ◌≡◌, ◌⊎◌, ℕ, true, some, List, [], ◌∷◌, ◌++◌, Text, ok, err, All, arith, is_empty, if◌then◌else◌,
}
use cilium_dhcp_wanip_operat.Api.{Claim}
use cilium_dhcp_wanip_operat.Controller.Reconcile.{reconcile_claim}
use cilium_dhcp_wanip_operat.Controller.Reconcile.Branches.{handle_deletion}
use cilium_dhcp_wanip_operat.Controller.Reconcile.Calls.{
  Ops, Run, done, Called, updated, removed_ip, cleaned, finalizer_name,
}

-- A run that begins in a world, with no call made yet.
abbrev pub start_run : {W : Type 0} → W → Run W
start_run w = record { world = w; calls = [] }

-- The claim without the finalizer.
abbrev pub unfinalized : {W M : Type 0} → Ops W M → Claim → Claim
unfinalized ops c = record c { finalizers = ops.remove_finalizer c.finalizers finalizer_name }

-- The removal from the pool, where an address is assigned.
abbrev pub releases : Claim → List Called
releases c =
    if is_empty c.status.assigned_ip
    then []
    else removed_ip c.spec.pool_name c.status.assigned_ip true ∷ []

-- No update of the claim itself has succeeded.
abbrev pub NotUpdated : Called → Type 0
NotUpdated (updated c true) = ⊥
NotUpdated _ = Unit

-- A claim that is being deleted and has the finalizer: either the cleanup of the router, the removal of an assigned address from the pool and the removal of the finalizer have all succeeded, in this order, and nothing else was called; or an error is returned, which brings the claim back, and no update of the claim has succeeded, so that the finalizer is still there.
pub deletion_order :
    {W M : Type 0} (ops : Ops W M) (c : Claim) (w : W) {t : ℕ}
    → c.deletion_timestamp ≡ some t
    → ops.contains_finalizer c.finalizers finalizer_name ≡ true
    → let (res, r) = reconcile_claim ops c (start_run w) in
      (res ≡ ok done)
        × (r.calls ≡ updated (unfinalized ops c) true ∷ (releases c ++ cleaned c true ∷ []))
      ⊎ ((e : Text) × (res ≡ err e) × All NotUpdated r.calls)
unfolding reconcile_claim handle_deletion
deletion_order ops c w d f = ground arith
