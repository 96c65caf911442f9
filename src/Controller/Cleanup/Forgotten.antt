-- ===== src/Controller/Cleanup/Forgotten.antt =====
-- internal/controller/publicipclaim_controller.go: what a cleanup forgets, and when.
use text.Mathlib.TextEquality.{eq_iff}
use cilium_dhcp_wanip_operat.Base.{
  ◌≡◌, refl, ◌∙◌, ap, sym, subst, ℕ, String, Bool, true, false, not, ◌&&◌, Option, none, some,
  Result, ok, err, ◌==◌, arith, is_some, is_empty, if◌then◌else◌,
}
use cilium_dhcp_wanip_operat.Base.Dict.{lookup, delete, lookup-delete_other, lookup-delete_self}
use cilium_dhcp_wanip_operat.Api.{Claim}
use cilium_dhcp_wanip_operat.Ssh.Manager.{unregister_handler}
use cilium_dhcp_wanip_operat.Router.Connection.Calls.{AgentCalls}
use cilium_dhcp_wanip_operat.Controller.Credentials.{Keys, ssh_signer}
use cilium_dhcp_wanip_operat.Controller.Tracking.{Tracking, handler_key, router_address}
use cilium_dhcp_wanip_operat.Controller.Tracking.Kept.{
  SameClaims, Same, Same-alike, on_manager-Same, close_if_unused-Same,
}
use cilium_dhcp_wanip_operat.Controller.Tracking.Numbers.{
  Fewer, Fewer-refl, Fewer-trans, Fewer-Registered,
}
use cilium_dhcp_wanip_operat.Controller.Tracking.Steps.{on_manager-Fewer, close_if_unused-Fewer}
use cilium_dhcp_wanip_operat.Controller.Cleanup.{
  forget_handler, close_last, forget, release_and_forget, clean_with_signer,
  default_cleanup_router_interface,
}
use cilium_dhcp_wanip_operat.Controller.Managers.Managed.{Consistent, world-Consistent}
use cilium_dhcp_wanip_operat.Controller.Reconcile.Calls.{is_ok}
use cilium_dhcp_wanip_operat.Controller.Credentials.{client_config}
use cilium_dhcp_wanip_operat.Base.Action.{continue, ◌>>=◌}

-- A claim that the maps have forgotten, and the others.
pub record Forgotten {W : Type 0} (c : Claim) (t u : Tracking W) : Type 0 where
  pub handler : lookup (handler_key c) u.ssh_handlers ≡ none
  pub manager : lookup (handler_key c) u.claim_managers ≡ none
  pub router : lookup (handler_key c) u.router_assignments ≡ none
  pub others : (j : String) → (handler_key c == j) ≡ false → Same j t u
  pub fewer : Fewer t.registry u.registry

module _ {W : Type 0} where
  -- The handlers after that of a claim was forgotten.
  record Unhandled (key : String) (t u : Tracking W) : Type 0 where
    pub gone : lookup key u.ssh_handlers ≡ none
    pub others :
        (j : String) → (key == j) ≡ false → lookup j u.ssh_handlers ≡ lookup j t.ssh_handlers
    pub managers : (j : String) → lookup j u.claim_managers ≡ lookup j t.claim_managers
    pub routers : (j : String) → lookup j u.router_assignments ≡ lookup j t.router_assignments
    pub fewer : Fewer t.registry u.registry

  forget_handler-Unhandled :
      (key : String) (o p : Option ℕ) (t : Tracking W)
      → lookup key t.ssh_handlers ≡ o
      → Unhandled key t (forget_handler key o p t)
  unfolding forget_handler
  forget_handler-Unhandled key (some id) (some n) t e = record {
    gone = lookup-delete_self key t.ssh_handlers;
    others = λ j d. lookup-delete_other key j t.ssh_handlers d;
    managers = λ j. (on_manager-Same j n (unregister_handler id) t).manager;
    routers = λ j. (on_manager-Same j n (unregister_handler id) t).router;
    fewer = on_manager-Fewer n (unregister_handler id) t;
  }
  forget_handler-Unhandled key (some id) none t e = record {
    gone = lookup-delete_self key t.ssh_handlers;
    others = λ j d. lookup-delete_other key j t.ssh_handlers d;
    managers = λ j. refl;
    routers = λ j. refl;
    fewer = Fewer-refl t.registry;
  }
  forget_handler-Unhandled key none p t e = record {
    gone = e;
    others = λ j d. refl;
    managers = λ j. refl;
    routers = λ j. refl;
    fewer = Fewer-refl t.registry;
  }

  close_last-Same :
      (c : Claim) (o : Option ℕ) (t : Tracking W) (j : String) → Same j t (close_last c o t)
  unfolding close_last
  close_last-Same c none t j = record { handler = refl; manager = refl; router = refl }
  close_last-Same c (some n) t j = close_if_unused-Same j n (router_address c) t

  close_last-Fewer :
      (c : Claim) (o : Option ℕ) (t : Tracking W) → Fewer t.registry (close_last c o t).registry
  unfolding close_last
  close_last-Fewer c none t = Fewer-refl t.registry
  close_last-Fewer c (some n) t = close_if_unused-Fewer n (router_address c) t

  pub forget-Forgotten : (c : Claim) (t : Tracking W) → Forgotten c t (forget c t)
  unfolding forget
  forget-Forgotten c t =
      let key = handler_key c in
      let mgr = lookup key t.claim_managers in
      let u = forget_handler key (lookup key t.ssh_handlers) mgr t in
      let h = forget_handler-Unhandled key (lookup key t.ssh_handlers) mgr t refl in
      let v : Tracking W = record u {
        router_assignments = delete key u.router_assignments;
        claim_managers = delete key u.claim_managers;
      } in
      let s = close_last-Same c mgr v in
      record {
        handler = (s key).handler ∙ h.gone;
        manager = (s key).manager ∙ lookup-delete_self key u.claim_managers;
        router = (s key).router ∙ lookup-delete_self key u.router_assignments;
        others = λ j d. record {
          handler = (s j).handler ∙ h.others j d;
          manager = (s j).manager ∙ lookup-delete_other key j u.claim_managers d ∙ h.managers j;
          router = (s j).router ∙ lookup-delete_other key j u.router_assignments d ∙ h.routers j;
        };
        fewer = Fewer-trans h.fewer (close_last-Fewer c mgr v);
      }

  known_nowhere :
      (c : Claim) (t u : Tracking W)
      → Forgotten c t u
      → SameClaims t
      → (j : String) (b : Bool) → (handler_key c == j) ≡ b
      → (is_some (lookup j u.ssh_handlers) ≡ is_some (lookup j u.claim_managers))
        × (is_some (lookup j u.ssh_handlers) ≡ is_some (lookup j u.router_assignments))
  known_nowhere c t u f s j true e =
      subst
        (λ x.
          (is_some (lookup x u.ssh_handlers) ≡ is_some (lookup x u.claim_managers))
          × (is_some (lookup x u.ssh_handlers) ≡ is_some (lookup x u.router_assignments)))
        ((eq_iff (handler_key c) j).0 e)
        (ap is_some (f.handler ∙ sym f.manager), ap is_some f.handler ∙ sym (ap is_some f.router))
  known_nowhere c t u f s j false e = Same-alike j t u (f.others j e) s

  forget-Consistent : (c : Claim) (t : Tracking W) → Consistent t → Consistent (forget c t)
  forget-Consistent c t k =
      let f = forget-Forgotten c t in
      record {
        registered = Fewer-Registered f.fewer k.registered;
        alike = record {
          managed = λ j. (known_nowhere c t (forget c t) f k.alike j (handler_key c == j) refl).0;
          assigned = λ j. (known_nowhere c t (forget c t) f k.alike j (handler_key c == j) refl).1;
        };
      }

  -- A change of the world is no change of what is known.
  pub moved-Forgotten :
      (c : Claim) (t u : Tracking W) (w x : W)
      → Forgotten c (record t { world = w }) u
      → Forgotten c t (record u { world = x })
  moved-Forgotten c t u w x f = record {
    handler = f.handler;
    manager = f.manager;
    router = f.router;
    others = λ j d.
        let o = f.others j d in
        record { handler = o.handler; manager = o.manager; router = o.router };
    fewer = record { heap = f.fewer.heap; entries = f.fewer.entries };
  }

-- The maps and the registry are as they were.
pub record Untouched {W : Type 0} (t u : Tracking W) : Type 0 where
  pub registry : u.registry ≡ t.registry
  pub same : (j : String) → Same j t u

module _ {W T : Type 0} (keys : Keys W) (agents : AgentCalls W T) (c : Claim) where
  -- Whether a cleanup gets as far as the agent: the claim has an interface, its key can be read, and
  -- the client connects.
  abbrev pub reachable : W → Bool
  reachable w =
      not (is_empty c.status.wan_interface)
      && is_ok
          ((ssh_signer keys c >>= λ signer.
              agents.connect c.spec.router.host (client_config c signer))
            w).0

  pub record Cleaned (t : Tracking W) (r : Result (Unit {0}) × Tracking W) (reached : Bool)
      : Type 0 where
    pub fine : r.0 ≡ ok tt
    pub forgotten : reached ≡ true → Forgotten c t r.1
    pub untouched : reached ≡ false → Untouched t r.1
    pub consistent : Consistent t → Consistent r.1

  skipped : (t : Tracking W) (w : W) → Cleaned t (ok tt, record t { world = w }) false
  skipped t w = record {
    fine = refl;
    forgotten = λ e. absurd (ground (arith, e));
    untouched = λ e. record {
      registry = refl;
      same = λ j. record { handler = refl; manager = refl; router = refl };
    };
    consistent = world-Consistent t w;
  }

  release-Cleaned :
      (r : Result T × W) (t : Tracking W)
      → Cleaned t (release_and_forget keys agents c r t) (is_ok r.0)
  unfolding release_and_forget
  release-Cleaned (err e, w) t = skipped t w
  release-Cleaned (ok client, w) t =
      let w₁ = (agents.release_lease client c.status.wan_interface w).1 in
      let u : Tracking W = record t { world = w₁ } in
      let left = forget c u in
      let w₂ = (agents.disconnect client left.world).1 in
      record {
        fine = refl;
        forgotten = λ e. moved-Forgotten c t left w₁ w₂ (forget-Forgotten c u);
        untouched = λ e. absurd (ground (arith, e));
        consistent =
            λ k. world-Consistent left w₂ (forget-Consistent c u (world-Consistent t w₁ k));
      }

  signer-Cleaned :
      (r : Result String × W) (t : Tracking W)
      → Cleaned t (clean_with_signer keys agents c r t) (
          is_ok
            (continue r (λ signer. agents.connect c.spec.router.host (client_config c signer))).0)
  unfolding clean_with_signer
  signer-Cleaned (err e, w) t = skipped t w
  signer-Cleaned (ok signer, w) t =
      release-Cleaned (agents.connect c.spec.router.host (client_config c signer) w) t

  by_interface :
      (t : Tracking W) (b : Bool)
      → Cleaned t
          (if b then (ok tt, t) else clean_with_signer keys agents c (ssh_signer keys c t.world) t)
          (not b
            && is_ok
                ((ssh_signer keys c >>= λ signer.
                    agents.connect c.spec.router.host (client_config c signer))
                  t.world).0)
  by_interface t true = skipped t t.world
  by_interface t false = signer-Cleaned (ssh_signer keys c t.world) t

  -- The cleanup of a claim never fails. If the claim has an interface, its key can be read and the client of the agent connects, then afterwards its handler, its manager and its router are forgotten, and what is known of all other claims is as before, whether or not the agent has released the lease; if not, the registry and all that is known of any claim, this one included, stay as they were.
  pub default_cleanup-Cleaned :
      (t : Tracking W)
      → Cleaned t (default_cleanup_router_interface keys agents c t) (reachable t.world)
  unfolding default_cleanup_router_interface
  default_cleanup-Cleaned t = by_interface t (is_empty c.status.wan_interface)
