-- ===== src/Controller/Managers/Managed.antt =====
-- internal/controller/publicipclaim_controller.go: what a claim's manager is tracked with.
use cilium_dhcp_wanip_operat.Base.{
  ◌≡◌, refl, ◌∙◌, subst, ℕ, String, true, ◌||◌, some, Result, ok, err, arith, is_some, Option-cases,
  inl, inr, if_both,
}
use cilium_dhcp_wanip_operat.Base.Dict.{lookup}
use cilium_dhcp_wanip_operat.Api.{Claim}
use cilium_dhcp_wanip_operat.Ssh.Manager.{Manager, start}
use cilium_dhcp_wanip_operat.Ssh.Registry.{Registry, get_or_create}
use cilium_dhcp_wanip_operat.Controller.Credentials.{ssh_signer}
use cilium_dhcp_wanip_operat.Controller.Tracking.{
  Watcher, Tracking, new_tracking, manager_at, handler_key, router_address, track,
}
use cilium_dhcp_wanip_operat.Controller.Tracking.Kept.{
  SameClaims, manager_at-put, track-Tracked, Tracked-SameClaims,
}
use cilium_dhcp_wanip_operat.Controller.Tracking.Numbers.{
  Registered, Fewer, Fewer-refl, Fewer-trans, Fewer-Registered, get_or_create-Given,
}
use cilium_dhcp_wanip_operat.Controller.Tracking.Steps.{track-Fewer}
use cilium_dhcp_wanip_operat.Controller.Managers.{
  Managers, manager_config, start_at, ensure_started, use_manager, with_signer, get_ssh_manager,
}

-- What holds between two visits: the numbers in the registry are those of managers, and the three
-- maps know the same claims.
pub record Consistent {W : Type 0} (t : Tracking W) : Type 0 where
  pub registered : Registered t.registry
  pub alike : SameClaims t

module _ {W : Type 0} where
  pub start-Consistent : (w : W) → Consistent (new_tracking w)
  unfolding Registered lookup
  start-Consistent w = record {
    registered = λ address key n e. ground (arith, e);
    alike = record { managed = λ key. refl; assigned = λ key. refl };
  }

  pub world-Consistent :
      (t : Tracking W) (w : W) → Consistent t → Consistent (record t { world = w })
  world-Consistent t w k = record {
    registered = k.registered;
    alike = record { managed = k.alike.managed; assigned = k.alike.assigned };
  }

  -- What is known of a claim whose manager was given.
  pub record Known (c : Claim) (n : ℕ) (t : Tracking W) : Type 0 where
    pub handler : is_some (lookup (handler_key c) t.ssh_handlers) ≡ true
    pub manager : lookup (handler_key c) t.claim_managers ≡ some n
    pub router : lookup (handler_key c) t.router_assignments ≡ some (router_address c)
    pub there : is_some (manager_at n t.registry.heap) ≡ true

  pub record Managed (c : Claim) (r : (Result ℕ × Claim) × Tracking W) : Type 0 where
    pub consistent : Consistent r.1
    pub known : (n : ℕ) → r.0.0 ≡ ok n → Known c n r.1

module _ {W : Type 0} (env : Managers W) where
  start_at-Fewer :
      (n : ℕ) (m : Manager Watcher) (t : Tracking W)
      → Fewer t.registry (start_at env n m t).registry
  unfolding start_at
  start_at-Fewer n m t =
      if_both (λ (u : Tracking W). Fewer t.registry u.registry) (m.connected || m.reconnecting) t _
        (Fewer-refl t.registry)
        (if_both (λ (u : Tracking W). Fewer t.registry u.registry) m.started t _
          (Fewer-refl t.registry)
          (record {
            heap =
                λ k. manager_at-put k n (start (env.dial m.config t.world).0 m).1 t.registry.heap;
            entries = λ address key k d. d;
          }))

  start_at-maps :
      (n : ℕ) (m : Manager Watcher) (t : Tracking W)
      → SameClaims t
      → SameClaims (start_at env n m t)
  unfolding start_at
  start_at-maps n m t s = record {
    managed = λ j. ground (arith, s.managed j);
    assigned = λ j. ground (arith, s.assigned j);
  }

  ensure_started-Fewer :
      (n : ℕ) (t : Tracking W) → Fewer t.registry (ensure_started env n t).registry
  unfolding ensure_started
  ensure_started-Fewer n t = elim (Option-cases (manager_at n t.registry.heap)) [
    | inl e ↦ rw (ensure_started, e) (Fewer-refl t.registry)
    | inr (m, e) ↦ rw (ensure_started, e) (start_at-Fewer n m t)
  ]

  ensure_started-maps :
      (n : ℕ) (t : Tracking W) → SameClaims t → SameClaims (ensure_started env n t)
  unfolding ensure_started
  ensure_started-maps n t s = elim (Option-cases (manager_at n t.registry.heap)) [
    | inl e ↦ rw (ensure_started, e) s
    | inr (m, e) ↦ rw (ensure_started, e) (start_at-maps n m t s)
  ]

  use_manager-Managed :
      (c : Claim) (r : Result ℕ × Registry Watcher) (t : Tracking W)
      → Registered r.1
      → ((n : ℕ) → r.0 ≡ ok n → is_some (manager_at n r.1.heap) ≡ true)
      → SameClaims t
      → Managed c (use_manager env c r t)
  unfolding use_manager
  use_manager-Managed c (err e, r) t g there s = record {
    consistent = record {
      registered = g;
      alike = record { managed = s.managed; assigned = s.assigned };
    };
    known = λ n d. absurd (ground (arith, d));
  }
  use_manager-Managed c (ok n, r) t g there s =
      let u : Tracking W = record t { registry = r } in
      let v = ensure_started env n u in
      let f = ensure_started-Fewer n u in
      let in_heap = f.heap n ∙ there n refl in
      let k = track-Tracked c n v in_heap in
      let f' = Fewer-trans f (track-Fewer c n v) in
      record {
        consistent = record {
          registered = Fewer-Registered f' g;
          alike =
              Tracked-SameClaims c n v (track c n v) k
                (ensure_started-maps n u (record { managed = s.managed; assigned = s.assigned }));
        };
        known = λ j d.
            let same : n ≡ j = ground (arith, d) in
            subst (λ x. Known c x (track c n v)) same
              (record {
                handler = k.handler;
                manager = k.manager;
                router = k.router;
                there = (track-Fewer c n v).heap n ∙ in_heap;
              });
      }

  signer-Managed :
      (c : Claim) (r : Result String × W) (t : Tracking W)
      → Consistent t
      → Managed c (with_signer env c r t)
  unfolding with_signer
  signer-Managed c (err e, w) t k = record {
    consistent = world-Consistent t w k;
    known = λ n d. absurd (ground (arith, d));
  }
  signer-Managed c (ok signer, w) t k =
      let g =
        get_or_create-Given env.duration (manager_config env c signer) t.registry k.registered in
      use_manager-Managed c (get_or_create env.duration (manager_config env c signer) t.registry)
        (record t { world = w }) g.registered g.there
        (record { managed = k.alike.managed; assigned = k.alike.assigned })

  pub get_ssh_manager-Managed :
      (c : Claim) (t : Tracking W) → Consistent t → Managed c (get_ssh_manager env c t)
  unfolding get_ssh_manager
  get_ssh_manager-Managed c t k =
      if_both (Managed c) t.has_registry _ _ (signer-Managed c (ssh_signer env.keys c t.world) t k)
        (record { consistent = k; known = λ n d. absurd (ground (arith, d)) })
