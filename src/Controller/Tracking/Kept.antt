-- ===== src/Controller/Tracking/Kept.antt =====
-- internal/controller/publicipclaim_controller.go: which claims the maps of the reconciler know.
use text.Mathlib.TextEquality.{eq_iff}
use cilium_dhcp_wanip_operat.Base.{
  ◌≡◌, refl, ◌∙◌, ap, ℕ, zero, suc, String, Bool, true, false, not, ◌&&◌, Option, none, some, List,
  [], ◌∷◌, ◌==◌, arith, is_some, if_both, Option-cases, inl, inr, sym, subst, is_empty,
}
use cilium_dhcp_wanip_operat.Base.Dict.{
  lookup, delete, lookup-delete_other, lookup-insert_other, lookup-delete_self, lookup-insert_self,
}
use cilium_dhcp_wanip_operat.Api.{Claim}
use cilium_dhcp_wanip_operat.Ssh.Manager.{Manager, register_handler, unregister_handler}
use cilium_dhcp_wanip_operat.Ssh.Registry.{close_at, remove}
use cilium_dhcp_wanip_operat.Controller.Credentials.{value_or_empty}
use cilium_dhcp_wanip_operat.Controller.Tracking.{
  Watcher, Tracking, manager_at, put_manager, handler_key, router_address, on_manager, is_unused,
  close_if_unused, drop_handler_of, drop_old, add_watcher, watch, track,
}

-- The three maps know the same claims.
pub record SameClaims {W : Type 0} (t : Tracking W) : Type 0 where
  pub managed :
      (key : String) → is_some (lookup key t.ssh_handlers) ≡ is_some (lookup key t.claim_managers)
  pub assigned :
      (key : String)
      → is_some (lookup key t.ssh_handlers) ≡ is_some (lookup key t.router_assignments)

-- Another state that knows the same of a claim.
pub record Same {W : Type 0} (key : String) (t u : Tracking W) : Type 0 where
  pub handler : lookup key u.ssh_handlers ≡ lookup key t.ssh_handlers
  pub manager : lookup key u.claim_managers ≡ lookup key t.claim_managers
  pub router : lookup key u.router_assignments ≡ lookup key t.router_assignments

pub manager_at-put :
    {H : Type 0} (n k : ℕ) (m : Manager H) (ms : List (Manager H))
    → is_some (manager_at n (put_manager k m ms)) ≡ is_some (manager_at n ms)
manager_at-put n k m [] = refl
manager_at-put zero zero m (x ∷ ms) = refl
manager_at-put zero (suc k) m (x ∷ ms) = refl
manager_at-put (suc n) zero m (x ∷ ms) = refl
manager_at-put (suc n) (suc k) m (x ∷ ms) = manager_at-put n k m ms

pub manager_at-close :
    {H : Type 0} (n k : ℕ) (ms : List (Manager H))
    → is_some (manager_at n (close_at k ms)) ≡ is_some (manager_at n ms)
manager_at-close n k [] = refl
manager_at-close zero zero (x ∷ ms) = refl
manager_at-close zero (suc k) (x ∷ ms) = refl
manager_at-close (suc n) zero (x ∷ ms) = refl
manager_at-close (suc n) (suc k) (x ∷ ms) = manager_at-close n k ms

module _ {W : Type 0} where
  -- The heap has a manager with the number.
  abbrev pub InHeap : ℕ → Tracking W → Type 0
  InHeap n t = is_some (manager_at n t.registry.heap) ≡ true

  pub on_manager-Same :
      (key : String) (n : ℕ) (f : Manager Watcher → Manager Watcher) (t : Tracking W)
      → Same key t (on_manager n f t)
  unfolding on_manager
  on_manager-Same key n f t = record {
    handler = ground arith;
    manager = ground arith;
    router = ground arith;
  }

  -- The claims that are known after the old handler was dropped: all others as before, and a router
  -- is still assigned to this one.
  record Dropped (key : String) (t u : Tracking W) : Type 0 where
    pub others : (j : String) → (key == j) ≡ false → Same j t u
    pub both :
        is_some (lookup key t.ssh_handlers) ≡ is_some (lookup key t.claim_managers)
        → is_some (lookup key u.ssh_handlers) ≡ is_some (lookup key u.claim_managers)
    pub heap :
        (n : ℕ) → is_some (manager_at n u.registry.heap) ≡ is_some (manager_at n t.registry.heap)

  on_manager-heap :
      (n k : ℕ) (f : Manager Watcher → Manager Watcher) (t : Tracking W)
      → is_some (manager_at n (on_manager k f t).registry.heap)
        ≡ is_some (manager_at n t.registry.heap)
  unfolding on_manager
  on_manager-heap n k f t = elim (Option-cases (manager_at k t.registry.heap)) [
    | inl e ↦ ground (arith, e)
    | inr (m, e) ↦ ground (arith, e, manager_at-put n k (f m) t.registry.heap)
  ]

  pub close_if_unused-Same :
      (j : String) (n : ℕ) (address : String) (t : Tracking W)
      → Same j t (close_if_unused n address t)
  unfolding close_if_unused is_unused
  close_if_unused-Same j n address t = record {
    handler = ground arith;
    manager = ground arith;
    router = ground arith;
  }

  close_if_unused-heap :
      (n k : ℕ) (address : String) (t : Tracking W)
      → is_some (manager_at n (close_if_unused k address t).registry.heap)
        ≡ is_some (manager_at n t.registry.heap)
  unfolding close_if_unused is_unused remove
  close_if_unused-heap n k address t = ground (arith, manager_at-close n k t.registry.heap)

  unchanged-Dropped : (key : String) (t : Tracking W) → Dropped key t t
  unchanged-Dropped key t = record {
    others = λ j d. record { handler = refl; manager = refl; router = refl };
    both = λ e. e;
    heap = λ n. refl;
  }

  drop_handler_of-Dropped :
      (key previous : String) (o p : Option ℕ) (t : Tracking W)
      → Dropped key t (drop_handler_of key previous o p t)
  unfolding drop_handler_of
  drop_handler_of-Dropped key previous (some id) (some n) t =
      let cut = on_manager n (unregister_handler id) t in
      let u : Tracking W = record cut {
        ssh_handlers = delete key t.ssh_handlers;
        claim_managers = delete key t.claim_managers;
      } in
      record {
        others = λ j d.
            let s = close_if_unused-Same j n previous u in
            record {
              handler = s.handler ∙ lookup-delete_other key j t.ssh_handlers d;
              manager = s.manager ∙ lookup-delete_other key j t.claim_managers d;
              router = s.router ∙ (on_manager-Same j n (unregister_handler id) t).router;
            };
        both = λ e.
            let s = close_if_unused-Same key n previous u in
            ap is_some (
              s.handler
              ∙ lookup-delete_self key t.ssh_handlers
              ∙ sym (lookup-delete_self key t.claim_managers)
              ∙ sym s.manager);
        heap = λ k.
            close_if_unused-heap k n previous u ∙ on_manager-heap k n (unregister_handler id) t;
      }
  drop_handler_of-Dropped key previous (some id) none t = unchanged-Dropped key t
  drop_handler_of-Dropped key previous none p t = unchanged-Dropped key t

  drop_old-Dropped :
      (key address : String) (t : Tracking W) → Dropped key t (drop_old key address t)
  unfolding drop_old
  drop_old-Dropped key address t =
      let previous = value_or_empty (lookup key t.router_assignments) in
      if_both (Dropped key t) (not (is_empty previous) && not (previous == address)) _ t
        (drop_handler_of-Dropped key previous (lookup key t.ssh_handlers)
          (lookup key t.claim_managers) t)
        (unchanged-Dropped key t)

  -- A claim has its handler afterwards, the maps are else unchanged.
  record Watched (key : String) (t u : Tracking W) : Type 0 where
    pub has_handler : is_some (lookup key u.ssh_handlers) ≡ true
    pub others :
        (j : String) → (key == j) ≡ false → lookup j u.ssh_handlers ≡ lookup j t.ssh_handlers
    pub managers : u.claim_managers ≡ t.claim_managers
    pub routers : u.router_assignments ≡ t.router_assignments

  watch-Watched :
      (key : String) (watcher : Watcher) (n : ℕ) (o : Option ℕ) (t : Tracking W)
      → lookup key t.ssh_handlers ≡ o
      → InHeap n t
      → Watched key t (watch key watcher n o t)
  unfolding watch add_watcher
  watch-Watched key watcher n (some id) t e h = record {
    has_handler = rw e refl;
    others = λ j d. refl;
    managers = refl;
    routers = refl;
  }
  watch-Watched key watcher n none t e h = elim (Option-cases (manager_at n t.registry.heap)) [
    | inl f ↦ absurd (ground (arith, f, h))
    | inr (m, f) ↦
        let id = (register_handler (some watcher) m).0 in
        rw (watch, f)
          (record {
            has_handler = rw (lookup-insert_self key id t.ssh_handlers) refl;
            others = λ j d. lookup-insert_other key j id t.ssh_handlers d;
            managers = refl;
            routers = refl;
          })
  ]

  -- What is known of a claim once it is tracked, and of the others.
  pub record Tracked (c : Claim) (n : ℕ) (t u : Tracking W) : Type 0 where
    pub handler : is_some (lookup (handler_key c) u.ssh_handlers) ≡ true
    pub manager : lookup (handler_key c) u.claim_managers ≡ some n
    pub router : lookup (handler_key c) u.router_assignments ≡ some (router_address c)
    pub others : (j : String) → (handler_key c == j) ≡ false → Same j t u

  pub track-Tracked :
      (c : Claim) (n : ℕ) (t : Tracking W) → InHeap n t → Tracked c n t (track c n t)
  unfolding track
  track-Tracked c n t h =
      let key = handler_key c in
      let address = router_address c in
      let watcher : Watcher = record { claim_name = c.name; claim_namespace = c.claim_namespace } in
      let d = drop_old-Dropped key address t in
      let u = drop_old key address t in
      let w = watch-Watched key watcher n (lookup key u.ssh_handlers) u refl (d.heap n ∙ h) in
      let v = watch key watcher n (lookup key u.ssh_handlers) u in
      record {
        handler = w.has_handler;
        manager = lookup-insert_self key n v.claim_managers;
        router = lookup-insert_self key address v.router_assignments;
        others = λ j e.
            let s = d.others j e in
            record {
              handler = w.others j e ∙ s.handler;
              manager =
                  lookup-insert_other key j n v.claim_managers e
                  ∙ ap (lookup j) w.managers
                  ∙ s.manager;
              router =
                  lookup-insert_other key j address v.router_assignments e
                  ∙ ap (lookup j) w.routers
                  ∙ s.router;
            };
      }

  pub Same-alike :
      (j : String) (t u : Tracking W)
      → Same j t u
      → SameClaims t
      → (is_some (lookup j u.ssh_handlers) ≡ is_some (lookup j u.claim_managers))
        × (is_some (lookup j u.ssh_handlers) ≡ is_some (lookup j u.router_assignments))
  Same-alike j t u o s = (
    ap is_some o.handler ∙ s.managed j ∙ sym (ap is_some o.manager),
    ap is_some o.handler ∙ s.assigned j ∙ sym (ap is_some o.router),
  )

  known_alike :
      (c : Claim) (n : ℕ) (t u : Tracking W)
      → Tracked c n t u
      → SameClaims t
      → (j : String) (b : Bool) → (handler_key c == j) ≡ b
      → (is_some (lookup j u.ssh_handlers) ≡ is_some (lookup j u.claim_managers))
        × (is_some (lookup j u.ssh_handlers) ≡ is_some (lookup j u.router_assignments))
  known_alike c n t u k s j true e =
      subst
        (λ x.
          (is_some (lookup x u.ssh_handlers) ≡ is_some (lookup x u.claim_managers))
          × (is_some (lookup x u.ssh_handlers) ≡ is_some (lookup x u.router_assignments)))
        ((eq_iff (handler_key c) j).0 e)
        (k.handler ∙ sym (ap is_some k.manager), k.handler ∙ sym (ap is_some k.router))
  known_alike c n t u k s j false e = Same-alike j t u (k.others j e) s

  pub Tracked-SameClaims :
      (c : Claim) (n : ℕ) (t u : Tracking W) → Tracked c n t u → SameClaims t → SameClaims u
  Tracked-SameClaims c n t u k s = record {
    managed = λ j. (known_alike c n t u k s j (handler_key c == j) refl).0;
    assigned = λ j. (known_alike c n t u k s j (handler_key c == j) refl).1;
  }
