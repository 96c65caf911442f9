-- ===== src/Controller/Reconcile/Drift.antt =====
-- internal/controller/publicipclaim_controller.go: Ready claims and claims after a router event.
use cilium_dhcp_wanip_operat.Base.{
  ◌≡◌, ◌≢◌, ℕ, ◌*◌, String, some, Bool, true, false, List, [], ◌∷◌, ◌++◌, Text, Result, ok, err,
  refl, arith, is_empty, All, if◌then◌else◌,
}
use cilium_dhcp_wanip_operat.Base.Action.{continue, returns, ◌>>◌}
use cilium_dhcp_wanip_operat.Api.{Claim, pending}
use cilium_dhcp_wanip_operat.Controller.Reconcile.Branches.{
  handle_router_event, verify_ready, drifted_status, release_old, handle_deletion, reset_status,
  clear_annotations, text_or_empty,
}
use cilium_dhcp_wanip_operat.Base.Dict.{lookup}
use cilium_dhcp_wanip_operat.Controller.Reconcile.{reconcile_claim}
use cilium_dhcp_wanip_operat.Controller.Reconcile.Deletion.{start_run}
use cilium_dhcp_wanip_operat.Controller.Reconcile.Calls.{
  Ops, Run, Outcome, requeue, requeue_after, minute, Called, verified, got_manager, status_updated,
  removed_ip, updated, checked_interface, second, event_reason_annotation, is_ok,
}

abbrev pub NotRemoved : Called → Type 0
NotRemoved (removed_ip pool ip b) = ⊥
NotRemoved _ = Unit

-- The removal of the old address, with what it answered.
abbrev pub old_released : String → String → Bool → List Called
old_released pool ip b = if is_empty ip then [] else removed_ip pool ip b ∷ []

module _ {W M : Type 0} (ops : Ops W M) (c : Claim) (w : W) where
  -- A verification that succeeds writes nothing to the cluster, and the next one is due in an hour.
  pub verified_writes_nothing :
      {mgr : M} {c₁ c₂ : Claim} {w₁ w₂ : W}
      → ops.get_ssh_manager c w ≡ ((ok mgr, c₁), w₁)
      → ops.verify_claim_state c₁ mgr w₁ ≡ ((ok tt, c₂), w₂)
      → verify_ready ops c (start_run w) ≡ (
        ok (requeue_after (60 * minute)),
        record { world = w₂; calls = verified ∷ got_manager ∷ [] },
      )
  unfolding verify_ready
  verified_writes_nothing g v = ground arith

  -- What follows the write of the status: the old address, if there was one, leaves the pool, or the error of the write is returned and nothing else is called.
  abbrev pub Reprovisioned : Claim → String → Result Claim × W → Result Outcome × Run W → Type 0
  Reprovisioned written old_ip (ok stored, w₃) (res, r) =
      (res ≡ ok requeue)
      × (r.calls
          ≡ old_released stored.spec.pool_name old_ip
              (is_ok (ops.remove_ip_from_pool stored.spec.pool_name old_ip w₃).0)
            ++ status_updated written true ∷ verified ∷ got_manager ∷ [])
  Reprovisioned written old_ip (err e, w₃) (res, r) =
      (res ≡ err e) × (r.calls ≡ status_updated written false ∷ verified ∷ got_manager ∷ [])

  drifted-Reprovisioned :
      (old_ip : String) (written : Claim) (u : Result Claim × W)
      → Reprovisioned written old_ip u (
          continue
            (
              u.0,
              record {
                world = u.1;
                calls = status_updated written (is_ok u.0) ∷ verified ∷ got_manager ∷ [];
              },
            )
            (λ stored. release_old ops old_ip stored >> returns requeue))
  unfolding release_old
  drifted-Reprovisioned old_ip written (ok stored, w₃) = ground arith
  drifted-Reprovisioned old_ip written (err e, w₃) = ground arith

  -- After a verification that fails, the status is written back to Pending with no interface and no address. Only if that succeeds is the old address, if there was one, taken out of the pool, once, and whatever the removal answers, the claim is reconciled again at once; if the write fails, its error is returned and nothing else is called.
  pub drift_reprovisions :
      {mgr : M} {c₁ c₂ : Claim} {w₁ w₂ : W} {e : Text}
      → ops.get_ssh_manager c w ≡ ((ok mgr, c₁), w₁)
      → ops.verify_claim_state c₁ mgr w₁ ≡ ((err e, c₂), w₂)
      → let written = drifted_status ops e c₂ in
        Reprovisioned written c₂.status.assigned_ip
          (ops.update_status written w₂)
          (verify_ready ops c (start_run w))
        × (written.status.phase ≡ pending)
        × (written.status.wan_interface ≡ "")
        × (written.status.assigned_ip ≡ "")
  unfolding verify_ready
  drift_reprovisions {c₂ = c₂} {w₂ = w₂} {e = e} g v =
      let written = drifted_status ops e c₂ in
      (
        rw (g, v)
            (drifted-Reprovisioned c₂.status.assigned_ip written (ops.update_status written w₂)),
        refl,
        refl,
        refl,
      )

  -- If a router event finds the interface of a claim missing, or cannot look for it, the status is reset to Pending with no interface and no address, the annotations are cleared, and nothing else is called; and when the claim is later deleted as it was then stored, its address is not taken out of the pool, whatever the calls of the deletion answer.
  pub event_strands_address :
      {mgr : M} {c₁ : Claim} {w₁ w₂ : W} {answer : Result Bool} (t : ℕ) (later : W)
      → ops.get_ssh_manager c w ≡ ((ok mgr, c₁), w₁)
      → is_empty c₁.status.wan_interface ≡ false
      → ops.interface_exists mgr c₁.status.wan_interface w₁ ≡ (answer, w₂)
      → answer ≢ ok true
      → let reset =
          reset_status (text_or_empty (lookup event_reason_annotation c.annotations)) c₁ in
        let cleared = clear_annotations reset in
        (ops.update_status reset w₂).0 ≡ ok reset
        → let (res, r) = handle_router_event ops c (start_run w) in
          (res ≡ ok (requeue_after second))
          × (r.calls
              ≡ updated cleared (is_ok (ops.update cleared (ops.update_status reset w₂).1).0)
                ∷ status_updated reset true
                ∷ checked_interface c₁.status.wan_interface
                ∷ got_manager
                ∷ [])
          × (reset.status.phase ≡ pending)
          × (reset.status.assigned_ip ≡ "")
          × All NotRemoved
              (reconcile_claim ops
                (record cleared { deletion_timestamp = some t })
                (start_run later)).1.calls
  unfolding handle_router_event reconcile_claim handle_deletion
  event_strands_address {answer = ok true} t later g i x n u = absurd (n refl)
  event_strands_address {answer = ok false} t later g i x n u =
      (ground arith, ground arith, refl, refl, ground arith)
  event_strands_address {answer = err e} t later g i x n u =
      (ground arith, ground arith, refl, refl, ground arith)
