-- ===== src/Controller/Tracking/Numbers.antt =====
-- internal/ssh/registry.go with internal/controller/publicipclaim_controller.go: every manager that
-- the registry names is there.
use cilium_dhcp_wanip_operat.Base.{
  ◌≡◌, refl, ◌∙◌, ℕ, zero, suc, String, true, Option, none, some, List, [], ◌∷◌, ◌++◌, Result, ok,
  err, ◌==◌, arith, is_some, inl, inr, length,
}
use cilium_dhcp_wanip_operat.Base.Dict.{lookup}
use cilium_dhcp_wanip_operat.Ssh.Config.{RouterConfig}
use cilium_dhcp_wanip_operat.Ssh.Manager.{Manager, new_ssh_connection_manager}
use cilium_dhcp_wanip_operat.Ssh.Registry.{
  Registry, entries_at, config_identity, add_manager, found_or_new, get_or_create,
}
use cilium_dhcp_wanip_operat.Ssh.Registry.Entries.{lookup-new}
use cilium_dhcp_wanip_operat.Controller.Tracking.{manager_at}

module _ {H : Type 0} where
  pub HasManager : ℕ → Registry H → Type 0
  HasManager n r = is_some (manager_at n r.heap) ≡ true

  -- The numbers that the registry has are those of managers.
  unfoldable pub Registered : Registry H → Type 0
  Registered r =
      (address key : String) (n : ℕ)
      → lookup key (entries_at address r.managers) ≡ some n
      → is_some (manager_at n r.heap) ≡ true

  -- A registry that has the same managers and names no more of them.
  pub record Fewer (r s : Registry H) : Type 0 where
    pub heap : (n : ℕ) → is_some (manager_at n s.heap) ≡ is_some (manager_at n r.heap)
    pub entries :
        (address key : String) (n : ℕ)
        → lookup key (entries_at address s.managers) ≡ some n
        → lookup key (entries_at address r.managers) ≡ some n

  pub Fewer-refl : (r : Registry H) → Fewer r r
  Fewer-refl r = record { heap = λ n. refl; entries = λ address key n e. e }

  pub Fewer-trans : {r s t : Registry H} → Fewer r s → Fewer s t → Fewer r t
  Fewer-trans f g = record {
    heap = λ n. g.heap n ∙ f.heap n;
    entries = λ address key n e. f.entries address key n (g.entries address key n e);
  }

  pub Fewer-Registered : {r s : Registry H} → Fewer r s → Registered r → Registered s
  unfolding Registered
  Fewer-Registered f g address key n e = f.heap n ∙ g address key n (f.entries address key n e)

  manager_at-append :
      (n : ℕ) (m : Manager H) (ms : List (Manager H))
      → is_some (manager_at n ms) ≡ true
      → is_some (manager_at n (ms ++ m ∷ [])) ≡ true
  manager_at-append n m [] e = ground (arith, e)
  manager_at-append zero m (x ∷ ms) e = refl
  manager_at-append (suc n) m (x ∷ ms) e = manager_at-append n m ms e

  manager_at-length :
      (m : Manager H) (ms : List (Manager H)) → manager_at (length ms) (ms ++ m ∷ []) ≡ some m
  manager_at-length m [] = refl
  manager_at-length m (x ∷ ms) = manager_at-length m ms

module _ {H : Type 0} (duration : ℕ → String) where
  -- A manager, if one is given, is there.
  pub record Given (r : Result ℕ × Registry H) : Type 0 where
    pub registered : Registered r.1
    pub there : (n : ℕ) → r.0 ≡ ok n → is_some (manager_at n r.1.heap) ≡ true

  added-Given :
      (key : String) (cfg : RouterConfig) (m : Result (Manager H)) (r : Registry H)
      → Registered r
      → Given (add_manager duration key cfg m r)
  unfolding add_manager Registered
  added-Given key cfg (err e) r g = record { registered = g; there = λ n d. ground (arith, d) }
  added-Given key cfg (ok m) r g = record {
    registered = λ address k n e.
        elim (lookup-new cfg.address key address k (length r.heap) r.managers
          (cfg.address == address) (key == k) refl refl e) [
            | inl (p, q, d) ↦ rw (d, manager_at-length m r.heap) refl
            | inr d ↦ manager_at-append n m r.heap (g address k n d)
          ];
    there = λ n d. ground (arith, d, manager_at-length m r.heap);
  }

  found-Given :
      (key : String) (cfg : RouterConfig) (o : Option ℕ) (r : Registry H)
      → lookup key (entries_at cfg.address r.managers) ≡ o
      → Registered r
      → Given (found_or_new duration key cfg o r)
  unfolding found_or_new Registered
  found-Given key cfg (some n) r e g = record {
    registered = g;
    there = λ k d. ground (arith, d, g cfg.address key n e);
  }
  found-Given key cfg none r e g = added-Given key cfg (new_ssh_connection_manager cfg) r g

  pub get_or_create-Given :
      (cfg : RouterConfig) (r : Registry H) → Registered r → Given (get_or_create duration cfg r)
  unfolding get_or_create
  get_or_create-Given cfg r g =
      let key = config_identity duration cfg in
      found-Given key cfg (lookup key (entries_at cfg.address r.managers)) r refl g
