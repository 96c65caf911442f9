-- ===== src/Controller/Tracking/Steps.antt =====
-- internal/controller/publicipclaim_controller.go: what the tracking of a claim does to the registry.
use cilium_dhcp_wanip_operat.Base.{
  refl, ℕ, String, Bool, true, false, not, ◌&&◌, Option, none, some, ◌==◌, if_both, Option-cases,
  inl, inr, is_empty, if◌then◌else◌,
}
use cilium_dhcp_wanip_operat.Base.Dict.{lookup, delete}
use cilium_dhcp_wanip_operat.Api.{Claim}
use cilium_dhcp_wanip_operat.Ssh.Manager.{Manager, register_handler, unregister_handler}
use cilium_dhcp_wanip_operat.Ssh.Registry.{close_at, remove}
use cilium_dhcp_wanip_operat.Controller.Credentials.{value_or_empty}
use cilium_dhcp_wanip_operat.Ssh.Registry.Entries.{lookup-gone}
use cilium_dhcp_wanip_operat.Controller.Tracking.{
  Watcher, Tracking, manager_at, on_manager, is_unused, close_if_unused, handler_key,
  router_address, drop_handler_of, drop_old, add_watcher, watch, track,
}
use cilium_dhcp_wanip_operat.Controller.Tracking.Kept.{manager_at-put, manager_at-close}
use cilium_dhcp_wanip_operat.Controller.Tracking.Numbers.{Fewer, Fewer-refl, Fewer-trans}

module _ {W : Type 0} where
  pub on_manager-Fewer :
      (n : ℕ) (f : Manager Watcher → Manager Watcher) (t : Tracking W)
      → Fewer t.registry (on_manager n f t).registry
  unfolding on_manager
  on_manager-Fewer n f t = elim (Option-cases (manager_at n t.registry.heap)) [
    | inl e ↦ rw (on_manager, e) (Fewer-refl t.registry)
    | inr (m, e) ↦
        rw (on_manager, e)
          (record {
            heap = λ k. manager_at-put k n (f m) t.registry.heap;
            entries = λ address key k d. d;
          })
  ]

  by_use :
      (b : Bool) (n : ℕ) (address : String) (t : Tracking W)
      → Fewer t.registry
          (if b
            then record t {
              registry = remove address (record t.registry { heap = close_at n t.registry.heap });
            }
            else t).registry
  unfolding remove
  by_use true n address t = record {
    heap = λ k. manager_at-close k n t.registry.heap;
    entries = λ other key k d.
        lookup-gone address other key k t.registry.managers (address == other) refl d;
  }
  by_use false n address t = Fewer-refl t.registry

  pub close_if_unused-Fewer :
      (n : ℕ) (address : String) (t : Tracking W)
      → Fewer t.registry (close_if_unused n address t).registry
  unfolding close_if_unused
  close_if_unused-Fewer n address t = by_use (is_unused n t) n address t

  drop_handler_of-Fewer :
      (key previous : String) (o p : Option ℕ) (t : Tracking W)
      → Fewer t.registry (drop_handler_of key previous o p t).registry
  unfolding drop_handler_of
  drop_handler_of-Fewer key previous (some id) (some n) t =
      let cut = on_manager n (unregister_handler id) t in
      Fewer-trans (on_manager-Fewer n (unregister_handler id) t) (
        close_if_unused-Fewer n previous (record cut {
          ssh_handlers = delete key t.ssh_handlers;
          claim_managers = delete key t.claim_managers;
        }))
  drop_handler_of-Fewer key previous (some id) none t = Fewer-refl t.registry
  drop_handler_of-Fewer key previous none p t = Fewer-refl t.registry

  drop_old-Fewer :
      (key address : String) (t : Tracking W) → Fewer t.registry (drop_old key address t).registry
  unfolding drop_old
  drop_old-Fewer key address t =
      let previous = value_or_empty (lookup key t.router_assignments) in
      if_both (λ (u : Tracking W). Fewer t.registry u.registry)
        (not (is_empty previous) && not (previous == address)) _ t
        (drop_handler_of-Fewer key previous (lookup key t.ssh_handlers)
          (lookup key t.claim_managers) t)
        (Fewer-refl t.registry)

  watch-Fewer :
      (key : String) (watcher : Watcher) (n : ℕ) (o : Option ℕ) (t : Tracking W)
      → Fewer t.registry (watch key watcher n o t).registry
  unfolding watch add_watcher
  watch-Fewer key watcher n (some id) t = Fewer-refl t.registry
  watch-Fewer key watcher n none t = elim (Option-cases (manager_at n t.registry.heap)) [
    | inl e ↦ rw (watch, e) (Fewer-refl t.registry)
    | inr (m, e) ↦
        rw (watch, e)
          (record {
            heap = λ k. manager_at-put k n (register_handler (some watcher) m).1 t.registry.heap;
            entries = λ address key k d. d;
          })
  ]

  pub track-Fewer : (c : Claim) (n : ℕ) (t : Tracking W) → Fewer t.registry (track c n t).registry
  unfolding track
  track-Fewer c n t =
      let key = handler_key c in
      let u = drop_old key (router_address c) t in
      Fewer-trans (drop_old-Fewer key (router_address c) t) (
        watch-Fewer key (record { claim_name = c.name; claim_namespace = c.claim_namespace }) n
          (lookup key u.ssh_handlers) u)
