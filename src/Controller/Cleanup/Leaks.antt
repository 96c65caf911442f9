-- ===== src/Controller/Cleanup/Leaks.antt =====
-- internal/controller/publicipclaim_controller.go: a claim whose manager changes at one address, as
-- by another user name.
use text.Mathlib.TextPositions.{eq_refl}
use cilium_dhcp_wanip_operat.Base.{
  ◌≡◌, ◌≢◌, refl, ◌∙◌, ap, ℕ, zero, suc, String, none, some, List, [], ◌∷◌, arith, if_both,
  Option-cases, inl, inr,
}
use cilium_dhcp_wanip_operat.Base.Dict.{lookup, insert, delete, lookup-insert_self}
use cilium_dhcp_wanip_operat.Api.{Claim}
use cilium_dhcp_wanip_operat.Ssh.Manager.{Manager, unregister_handler}
use cilium_dhcp_wanip_operat.Ssh.Registry.{close_at, remove}
use cilium_dhcp_wanip_operat.Controller.Tracking.{
  Watcher, Tracking, manager_at, put_manager, on_manager, is_unused, close_if_unused, handler_key,
  router_address, drop_old, watch, track,
}
use cilium_dhcp_wanip_operat.Controller.Cleanup.{forget_handler, close_last, forget}
use cilium_dhcp_wanip_operat.Controller.Cleanup.Forgotten.{forget-Forgotten}

put-other :
    {H : Type 0} (n k : ℕ) (m : Manager H) (ms : List (Manager H))
    → n ≢ k
    → manager_at n (put_manager k m ms) ≡ manager_at n ms
put-other n k m [] d = refl
put-other zero zero m (x ∷ ms) d = absurd (d refl)
put-other zero (suc k) m (x ∷ ms) d = refl
put-other (suc n) zero m (x ∷ ms) d = refl
put-other (suc n) (suc k) m (x ∷ ms) d = put-other n k m ms (λ e. d (ap suc e))

close-other :
    {H : Type 0} (n k : ℕ) (ms : List (Manager H))
    → n ≢ k
    → manager_at n (close_at k ms) ≡ manager_at n ms
close-other n k [] d = refl
close-other zero zero (x ∷ ms) d = absurd (d refl)
close-other zero (suc k) (x ∷ ms) d = refl
close-other (suc n) zero (x ∷ ms) d = refl
close-other (suc n) (suc k) (x ∷ ms) d = close-other n k ms (λ e. d (ap suc e))

module _ {W : Type 0} where
  on_manager-other :
      (p n : ℕ) (f : Manager Watcher → Manager Watcher) (t : Tracking W)
      → p ≢ n
      → manager_at p (on_manager n f t).registry.heap ≡ manager_at p t.registry.heap
  unfolding on_manager
  on_manager-other p n f t d = elim (Option-cases (manager_at n t.registry.heap)) [
    | inl e ↦ rw (on_manager, e) refl
    | inr (m, e) ↦ rw (on_manager, e) (put-other p n (f m) t.registry.heap d)
  ]

  close_if_unused-other :
      (p n : ℕ) (address : String) (t : Tracking W)
      → p ≢ n
      → manager_at p (close_if_unused n address t).registry.heap ≡ manager_at p t.registry.heap
  unfolding close_if_unused remove
  close_if_unused-other p n address t d =
      if_both (λ (u : Tracking W). manager_at p u.registry.heap ≡ manager_at p t.registry.heap)
        (is_unused n t) _ t (close-other p n t.registry.heap d) refl

  kept :
      (key address : String) (t : Tracking W)
      → lookup key t.router_assignments ≡ some address
      → drop_old key address t ≡ t
  unfolding drop_old
  kept key address t a = ground (arith, a, eq_refl address)

  -- A claim that has a handler and whose router has the same address is given another manager.
  retracked :
      (c : Claim) (n id : ℕ) (t : Tracking W)
      → lookup (handler_key c) t.router_assignments ≡ some (router_address c)
      → lookup (handler_key c) t.ssh_handlers ≡ some id
      → track c n t ≡ record t {
        claim_managers = insert (handler_key c) n t.claim_managers;
        router_assignments = insert (handler_key c) (router_address c) t.router_assignments;
      }
  unfolding track drop_old watch
  retracked c n id t a h = rw (track, kept (handler_key c) (router_address c) t a, h, watch) refl

  forget-other :
      (c : Claim) (p n id : ℕ) (t : Tracking W)
      → p ≢ n
      → lookup (handler_key c) t.ssh_handlers ≡ some id
      → lookup (handler_key c) t.claim_managers ≡ some n
      → manager_at p (forget c t).registry.heap ≡ manager_at p t.registry.heap
  unfolding forget forget_handler close_last
  forget-other c p n id t d h m =
      let key = handler_key c in
      let cut = on_manager n (unregister_handler id) t in
      rw (forget, h, m, forget_handler, close_last)
        (close_if_unused-other p n (router_address c)
            (record cut {
              ssh_handlers = delete key t.ssh_handlers;
              router_assignments = delete key cut.router_assignments;
              claim_managers = delete key cut.claim_managers;
            })
            d
          ∙ on_manager-other p n (unregister_handler id) t d)

  -- If a claim that has a handler is given another manager for the same address, as after a change of its user, then no handler is registered on the new manager, and after the cleanup that follows, which forgets the claim, the old manager is exactly as it was, with the claim's handler if it had it.
  pub old_handler_stays :
      (c : Claim) (p n id : ℕ) (t : Tracking W)
      → lookup (handler_key c) t.router_assignments ≡ some (router_address c)
      → lookup (handler_key c) t.ssh_handlers ≡ some id
      → p ≢ n
      → ((track c n t).registry ≡ t.registry)
        × (lookup (handler_key c) (track c n t).claim_managers ≡ some n)
        × (lookup (handler_key c) (forget c (track c n t)).ssh_handlers ≡ none)
        × (manager_at p (forget c (track c n t)).registry.heap ≡ manager_at p t.registry.heap)
  old_handler_stays c p n id t a h d =
      let u = track c n t in
      let e = retracked c n id t a h in
      let m : lookup (handler_key c) u.claim_managers ≡ some n =
        rw e (lookup-insert_self (handler_key c) n t.claim_managers) in
      (
        ap (λ v. v.registry) e,
        m,
        (forget-Forgotten c u).handler,
        forget-other c p n id u d (ap (λ v. lookup (handler_key c) v.ssh_handlers) e ∙ h) m
            ∙ ap (λ v. manager_at p v.registry.heap) e,
      )
