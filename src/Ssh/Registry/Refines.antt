-- ===== src/Ssh/Registry/Refines.antt =====
-- internal/ssh/registry.go: the registry as a table of shared managers.
use cilium_dhcp_wanip_operat.Base.{
  ◌≡◌, refl, ◌∙◌, ap, ℕ, zero, suc, ◌+◌, String, Bool, true, false, ◌&&◌, Option, none, some, List,
  [], ◌∷◌, Result, ok, err, is_ok, ◌==◌, arith, length, length-append, if◌then◌else◌,
}
use cilium_dhcp_wanip_operat.Base.Dict.{lookup}
use cilium_dhcp_wanip_operat.Ssh.Config.{RouterConfig, validate}
use cilium_dhcp_wanip_operat.Ssh.Manager.{Manager, new_ssh_connection_manager}
use cilium_dhcp_wanip_operat.Ssh.Registry.{
  Registry, new_registry, entries_at, config_identity, close_at, close_each, all_numbers,
  add_manager, found_or_new, get_or_create, remove, close_all,
}
use cilium_dhcp_wanip_operat.Ssh.Registry.Entries.{entries-gone, entries-add}

-- A call of a method of the registry, and what it leaves.
pub data RegistryCall : Type 0 where
  creates : RouterConfig → RegistryCall
  removes : String → RegistryCall
  closes_all : RegistryCall

module _ {H : Type 0} (duration : ℕ → String) where
  unfoldable pub registry_step : RegistryCall → Registry H → Registry H
  unfolding get_or_create remove close_all
  registry_step (creates cfg) r = (get_or_create duration cfg r).1
  registry_step (removes address) r = remove address r
  registry_step closes_all r = close_all r

  unfoldable pub run_registry : List RegistryCall → Registry H → Registry H
  unfolding registry_step
  run_registry [] r = r
  run_registry (c ∷ cs) r = run_registry cs (registry_step c r)

-- The specification: which manager an address and an identity share, and how many there have been.
pub record Sharing : Type 0 where
  pub shared : String → String → Option ℕ
  pub created : ℕ

abbrev pub nothing_shared : Sharing
nothing_shared = record { shared = λ a k. none; created = 0 }

abbrev pub shares : String → String → Option ℕ → Bool → Sharing → Sharing
shares address key (some n) valid s = s
shares address key none true s = record {
  shared = λ a k. if address == a && key == k then some s.created else s.shared a k;
  created = s.created + 1;
}
shares address key none false s = s

-- What a caller gets: the manager that is shared, or else a new one if the configuration is valid.
abbrev pub gives : Option ℕ → Bool → Sharing → Option ℕ
gives (some n) valid s = some n
gives none true s = some s.created
gives none false s = none

module _ (duration : ℕ → String) where
  abbrev pub shared_for : RouterConfig → Sharing → Option ℕ
  shared_for cfg s = s.shared cfg.address (config_identity duration cfg)

  abbrev pub sharing_step : RegistryCall → Sharing → Sharing
  sharing_step (creates cfg) s =
      shares cfg.address (config_identity duration cfg) (shared_for cfg s) (is_ok (validate cfg)) s
  sharing_step (removes address) s = record s {
    shared = λ a k. if address == a then none else s.shared a k;
  }
  sharing_step closes_all s = record s { shared = λ a k. none }

  abbrev pub run_sharing : List RegistryCall → Sharing → Sharing
  run_sharing [] s = s
  run_sharing (c ∷ cs) s = run_sharing cs (sharing_step c s)

abbrev pub number_of : Result ℕ → Option ℕ
number_of (ok n) = some n
number_of (err e) = none

-- The registry has the entries of the specification.
pub record Refines {H : Type 0} (r : Registry H) (s : Sharing) : Type 0 where
  pub entries : (a k : String) → lookup k (entries_at a r.managers) ≡ s.shared a k
  pub made : length r.heap ≡ s.created

close_at-length : {H : Type 0} (n : ℕ) (ms : List (Manager H)) → length (close_at n ms) ≡ length ms
close_at-length n [] = refl
close_at-length zero (m ∷ ms) = refl
close_at-length (suc n) (m ∷ ms) = ap (λ (k : ℕ). suc k) (close_at-length n ms)

close_each-length :
    {H : Type 0} (ns : List ℕ) (ms : List (Manager H)) → length (close_each ns ms) ≡ length ms
close_each-length [] ms = refl
close_each-length (n ∷ ns) ms = close_each-length ns (close_at n ms) ∙ close_at-length n ms

module _ {H : Type 0} (duration : ℕ → String) where
  -- The answer and the registry after it.
  record Answered (address key : String) (o : Option ℕ) (valid : Bool) (s : Sharing)
      (p : Result ℕ × Registry H) : Type 0 where
    answer : number_of p.0 ≡ gives o valid s
    refines : Refines p.1 (shares address key o valid s)

  added-Answered :
      (key : String) (cfg : RouterConfig) (v : Result (Unit {0})) (r : Registry H) (s : Sharing)
      → validate cfg ≡ v
      → Refines r s
      → Answered cfg.address key none
          (is_ok v)
          s
          (add_manager duration key cfg (new_ssh_connection_manager cfg) r)
  unfolding add_manager new_ssh_connection_manager
  added-Answered key cfg (err e) r s d f = rw d (record { answer = refl; refines = f })
  added-Answered key cfg (ok t) r s d f = rw d (record {
    answer = ap (λ n. some n) f.made;
    refines = record {
      entries = λ a k.
          entries-add cfg.address key a k (length r.heap) r.managers
          ∙ ground (arith, f.entries a k, f.made);
      made = length-append r.heap _ ∙ ground (arith, f.made);
    };
  })

  found-Answered :
      (key : String) (cfg : RouterConfig) (o : Option ℕ) (r : Registry H) (s : Sharing)
      → Refines r s
      → Answered cfg.address key o (is_ok (validate cfg)) s (found_or_new duration key cfg o r)
  unfolding found_or_new
  found-Answered key cfg (some n) r s f = record { answer = refl; refines = f }
  found-Answered key cfg none r s f = added-Answered key cfg (validate cfg) r s refl f

  create-Answered :
      (cfg : RouterConfig) (r : Registry H) (s : Sharing)
      → Refines r s
      → Answered cfg.address
          (config_identity duration cfg)
          (shared_for duration cfg s)
          (is_ok (validate cfg))
          s
          (get_or_create duration cfg r)
  unfolding get_or_create
  create-Answered cfg r s f =
      let key = config_identity duration cfg in
      rw (f.entries cfg.address key) (found-Answered key cfg (shared_for duration cfg s) r s f)

  step-Refines :
      (c : RegistryCall) (r : Registry H) (s : Sharing)
      → Refines r s
      → Refines (registry_step duration c r) (sharing_step duration c s)
  unfolding registry_step remove close_all lookup
  step-Refines (creates cfg) r s f = (create-Answered cfg r s f).refines
  step-Refines (removes address) r s f = record {
    entries = λ a k. entries-gone address a k r.managers ∙ ground (arith, f.entries a k);
    made = f.made;
  }
  step-Refines closes_all r s f = record {
    entries = λ a k. refl;
    made = close_each-length (all_numbers r.managers) r.heap ∙ f.made;
  }

  run-Refines :
      (cs : List RegistryCall) (r : Registry H) (s : Sharing)
      → Refines r s
      → Refines (run_registry duration cs r) (run_sharing duration cs s)
  unfolding run_registry
  run-Refines [] r s f = f
  run-Refines (c ∷ cs) r s f =
      run-Refines cs (registry_step duration c r) (sharing_step duration c s) (step-Refines c r s f)

  -- After any calls of `GetOrCreate`, `Remove` and `CloseAll` on a new registry, `GetOrCreate` answers as the specification: the manager that was made for the address and the identity of the configuration, if one was made since the address was last removed and all were last closed; otherwise a new one, if the configuration is valid, and else an error. And the registry has exactly the entries of the specification.
  pub run_registry-Refines :
      (cs : List RegistryCall) (cfg : RouterConfig)
      → let r = run_registry {H = H} duration cs new_registry in
        let s = run_sharing duration cs nothing_shared in
        (number_of (get_or_create duration cfg r).0
          ≡ gives (shared_for duration cfg s) (is_ok (validate cfg)) s)
        × Refines r s
  unfolding lookup
  run_registry-Refines cs cfg =
      let f =
        run-Refines cs new_registry nothing_shared
          (record { entries = λ a k. refl; made = refl }) in
      ((create-Answered cfg _ _ f).answer, f)
