-- ===== src/Controller/Tracking.antt =====
-- internal/controller/publicipclaim_controller.go: `getSSHManager`, which gives a claim the manager
-- of its router and registers a handler of its events, and the maps that keep track of both. A
-- manager is the number that it has in the heap of the registry. Each access to a map is under the
-- map's own mutex; a reconcile of a claim runs to its end before the next one of the claim.
pub mod Kept
pub mod Numbers
pub mod Steps
use Prim.Native.String
use cilium_dhcp_wanip_operat.Base.{
  ℕ, zero, suc, ◌*◌, String, Bool, true, false, not, ◌&&◌, ◌||◌, Option, none, some, List, [], ◌∷◌,
  Result, ok, err, lit, fmt, ◌==◌, eqb, is_empty, if◌then◌else◌,
}
use cilium_dhcp_wanip_operat.Base.Action.{Action, continue}
use cilium_dhcp_wanip_operat.Base.Decimal.{decimal}
use cilium_dhcp_wanip_operat.Base.Dict.{Dict, lookup, insert, delete}
use cilium_dhcp_wanip_operat.Api.{Claim}
use cilium_dhcp_wanip_operat.Ssh.Config.{RouterConfig, second}
use cilium_dhcp_wanip_operat.Ssh.Manager.{
  Manager, register_handler, unregister_handler, handler_count, start,
}
use cilium_dhcp_wanip_operat.Ssh.Registry.{Registry, new_registry, get_or_create, close_at, remove}
use cilium_dhcp_wanip_operat.Controller.Names.{coalesce_int}
use cilium_dhcp_wanip_operat.Controller.Credentials.{value_or_empty}

-- What the closure of an event handler captures.
pub record Watcher : Type 0 where
  pub claim_name : String
  pub claim_namespace : String

-- The registry and the maps of the reconciler. `has_registry` says that the registry is not nil.
pub record Tracking (W : Type 0) : Type 0 where
  pub has_registry : Bool
  pub registry : Registry Watcher
  pub ssh_handlers : Dict ℕ
  pub router_assignments : Dict String
  pub claim_managers : Dict ℕ
  pub world : W

-- `SetupWithManager`
abbrev pub new_tracking : {W : Type 0} → W → Tracking W
new_tracking w = record {
  has_registry = true;
  registry = new_registry;
  ssh_handlers = [];
  router_assignments = [];
  claim_managers = [];
  world = w;
}

-- The manager with a number, and a change of it. The numbers in use are all in the heap.
abbrev pub manager_at : {H : Type 0} → ℕ → List (Manager H) → Option (Manager H)
manager_at n [] = none
manager_at zero (m ∷ ms) = some m
manager_at (suc n) (m ∷ ms) = manager_at n ms

abbrev pub put_manager : {H : Type 0} → ℕ → Manager H → List (Manager H) → List (Manager H)
put_manager n m [] = []
put_manager zero m (_ ∷ ms) = m ∷ ms
put_manager (suc n) m (x ∷ ms) = x ∷ put_manager n m ms

-- `fmt.Sprintf("%s/%s", claim.Namespace, claim.Name)`
abbrev pub handler_key : Claim → String
handler_key c = String.◌++◌ c.claim_namespace (String.◌++◌ "/" c.name)

-- `fmt.Sprintf("%s:%d", claim.Spec.Router.Host, coalesceInt(claim.Spec.Router.Port, 22))`
unfoldable pub router_address : Claim → String
router_address c =
    String.◌++◌ c.spec.router.host (String.◌++◌ ":" (decimal (coalesce_int c.spec.router.port 22)))

module _ {W : Type 0} where
  abbrev pub with_heap : List (Manager Watcher) → Tracking W → Tracking W
  with_heap ms t = record t { registry = record t.registry { heap = ms } }

  -- A change of one manager.
  unfoldable pub on_manager : ℕ → (Manager Watcher → Manager Watcher) → Tracking W → Tracking W
  on_manager n f t = elim (manager_at n t.registry.heap) [
    | none ↦ t
    | some m ↦ with_heap (put_manager n (f m) t.registry.heap) t
  ]

  -- `mgr.HandlerCount() == 0`
  unfoldable pub is_unused : ℕ → Tracking W → Bool
  is_unused n t = elim (manager_at n t.registry.heap) [
    | none ↦ false
    | some m ↦ eqb (handler_count m) 0
  ]

  -- A manager without handlers is closed, and the registry forgets all managers of an address.
  unfoldable pub close_if_unused : ℕ → String → Tracking W → Tracking W
  unfolding is_unused
  close_if_unused n address t =
      if is_unused n t
      then record t {
        registry = remove address (record t.registry { heap = close_at n t.registry.heap });
      }
      else t

  -- The handler and the manager of the claim, if both are known, when its router has changed.
  unfoldable pub drop_handler_of : String → String → Option ℕ → Option ℕ → Tracking W → Tracking W
  unfolding on_manager close_if_unused
  drop_handler_of key previous (some id) (some n) t =
      close_if_unused n previous (record (on_manager n (unregister_handler id) t) {
        ssh_handlers = delete key t.ssh_handlers;
        claim_managers = delete key t.claim_managers;
      })
  drop_handler_of key previous (some id) none t = t
  drop_handler_of key previous none o t = t

  unfoldable pub drop_old : String → String → Tracking W → Tracking W
  unfolding drop_handler_of
  drop_old key address t =
      let previous = value_or_empty (lookup key t.router_assignments) in
      if not (is_empty previous) && not (previous == address)
      then drop_handler_of key previous (lookup key t.ssh_handlers) (lookup key t.claim_managers) t
      else t

  -- A handler is registered unless the claim has one.
  unfoldable pub add_watcher : String → Watcher → ℕ → Manager Watcher → Tracking W → Tracking W
  add_watcher key watcher n m t =
      let (id, m') = register_handler (some watcher) m in
      record t {
        registry = record t.registry { heap = put_manager n m' t.registry.heap };
        ssh_handlers = insert key id t.ssh_handlers;
      }

  unfoldable pub watch : String → Watcher → ℕ → Option ℕ → Tracking W → Tracking W
  unfolding add_watcher
  watch key watcher n (some id) t = t
  watch key watcher n none t = elim (manager_at n t.registry.heap) [
    | none ↦ t
    | some m ↦ add_watcher key watcher n m t
  ]

  -- The claim with its manager and its router.
  unfoldable pub track : Claim → ℕ → Tracking W → Tracking W
  unfolding drop_old watch
  track c n t =
      let key = handler_key c in
      let address = router_address c in
      let dropped = drop_old key address t in
      let watched =
        watch key (record { claim_name = c.name; claim_namespace = c.claim_namespace }) n
          (lookup key dropped.ssh_handlers) dropped in
      record watched {
        claim_managers = insert key n watched.claim_managers;
        router_assignments = insert key address watched.router_assignments;
      }
