-- ===== src/Controller/Managers.antt =====
-- internal/controller/publicipclaim_controller.go: `getSSHManager`, which reads the key of the
-- claim's router, takes its manager from the registry, starts it, and tracks it.
pub mod Managed
use cilium_dhcp_wanip_operat.Base.{
  ℕ, ◌*◌, String, Bool, ◌||◌, Option, none, some, Result, ok, err, lit, fmt, if◌then◌else◌,
}
use cilium_dhcp_wanip_operat.Base.Action.{Action}
use cilium_dhcp_wanip_operat.Api.{Claim}
use cilium_dhcp_wanip_operat.Ssh.Config.{RouterConfig, second}
use cilium_dhcp_wanip_operat.Ssh.Manager.{Manager, start}
use cilium_dhcp_wanip_operat.Ssh.Registry.{Registry, get_or_create}
use cilium_dhcp_wanip_operat.Controller.Credentials.{Keys, ssh_signer}
use cilium_dhcp_wanip_operat.Controller.Tracking.{
  Watcher, Tracking, manager_at, put_manager, with_heap, router_address, track,
}

abbrev pub state_text : Manager Watcher → String
state_text m =
    if m.connected then "connected" else if m.reconnecting then "reconnecting" else "disconnected"

unfoldable pub with_state : Option (Manager Watcher) → Claim → Claim
with_state none c = c
with_state (some m) c = record c { status = record c.status { connection_state = state_text m } }

-- `public_keys` and `insecure` are the identities of `ssh.PublicKeys` of a signer and of the callback
-- that accepts every host key, `dial` is what `Start` calls, `duration` is `time.Duration.String`.
pub record Managers (W : Type 0) : Type 0 where
  pub keys : Keys W
  pub public_keys : String → String
  pub insecure : String
  pub dial : RouterConfig → Action W ℕ
  pub duration : ℕ → String

module _ {W : Type 0} (env : Managers W) where
  unfoldable pub manager_config : Claim → String → RouterConfig
  unfolding router_address
  manager_config c signer = record {
    address = router_address c;
    username = c.spec.router.user;
    auth_method = some (env.public_keys signer);
    host_key_callback = some env.insecure;
    timeout = 30 * second;
    keep_alive_interval = 30 * second;
    keep_alive_command = "cat /proc/uptime";
    dial = none;
    runner = none;
    max_backoff = 0;
    initial_backoff = 0;
  }

  -- `Start` dials unless the manager was started before; its error is logged only.
  unfoldable pub start_at : ℕ → Manager Watcher → Tracking W → Tracking W
  start_at n m t =
      if m.connected || m.reconnecting
      then t
      else if m.started
      then t
      else (let (dialled, w) = env.dial m.config t.world in
          with_heap (put_manager n (start dialled m).1 t.registry.heap) (record t { world = w }))

  unfoldable pub ensure_started : ℕ → Tracking W → Tracking W
  unfolding start_at
  ensure_started n t = elim (manager_at n t.registry.heap) [ none ↦ t | some m ↦ start_at n m t ]

  unfoldable pub use_manager :
      Claim → Result ℕ × Registry Watcher → Tracking W → (Result ℕ × Claim) × Tracking W
  unfolding ensure_started with_state track
  use_manager c (err e, r) t =
      ((err (fmt "failed to get SSH manager: %w" e), c), record t { registry = r })
  use_manager c (ok n, r) t =
      let started = ensure_started n (record t { registry = r }) in
      ((ok n, with_state (manager_at n started.registry.heap) c), track c n started)

  unfoldable pub with_signer :
      Claim → Result String × W → Tracking W → (Result ℕ × Claim) × Tracking W
  unfolding use_manager manager_config
  with_signer c (err e, w) t = ((err e, c), record t { world = w })
  with_signer c (ok signer, w) t =
      use_manager c (get_or_create env.duration (manager_config c signer) t.registry)
        (record t { world = w })

  unfoldable pub get_ssh_manager : Claim → Tracking W → (Result ℕ × Claim) × Tracking W
  unfolding with_signer ssh_signer
  get_ssh_manager c t =
      if t.has_registry
      then with_signer c (ssh_signer env.keys c t.world) t
      else ((err (lit "SSH registry not initialized"), c), t)
