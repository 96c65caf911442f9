-- ===== src/Ssh/Registry.antt =====
-- internal/ssh/registry.go: the managers by address and identity. Managers are shared by reference,
-- so that the registry holds their numbers in a heap.
pub mod Shared
pub mod Entries
pub mod Refines
mod Samples
use Prim.Native.String
use cilium_dhcp_wanip_operat.Base.{
  ℕ, zero, suc, ◌+◌, String, Option, none, some, List, [], ◌∷◌, ◌++◌, Result, ok, err, length,
}
use cilium_dhcp_wanip_operat.Base.Dict.{Dict, lookup, insert, delete}
use cilium_dhcp_wanip_operat.Ssh.Config.{RouterConfig}
use cilium_dhcp_wanip_operat.Ssh.Manager.{Manager, new_ssh_connection_manager, close}

pub record Registry (H : Type 0) : Type 0 where
  pub managers : Dict (Dict ℕ)
  pub heap : List (Manager H)

abbrev pub new_registry : {H : Type 0} → Registry H
new_registry = record { managers = []; heap = [] }

-- A nil value, or the text of a type and a pointer.
abbrev pub pointer_identity : Option String → String
pointer_identity none = "nil"
pointer_identity (some identity) = identity

-- `strings.Join(parts, "|")`
abbrev join : List String → String
join [] = ""
join (s ∷ []) = s
join (s ∷ ss) = let rest = join ss in String.◌++◌ s (String.◌++◌ "|" rest)

-- `duration` is `time.Duration.String`.
unfoldable pub config_identity : (ℕ → String) → RouterConfig → String
config_identity duration cfg = join (
    cfg.address
    ∷ cfg.username
    ∷ duration cfg.timeout
    ∷ duration cfg.keep_alive_interval
    ∷ cfg.keep_alive_command
    ∷ duration cfg.max_backoff
    ∷ duration cfg.initial_backoff
    ∷ pointer_identity cfg.auth_method
    ∷ pointer_identity cfg.host_key_callback
    ∷ pointer_identity cfg.dial
    ∷ pointer_identity cfg.runner
    ∷ [])

abbrev pub entries_at : String → Dict (Dict ℕ) → Dict ℕ
entries_at address managers = elim (lookup address managers) [ none ↦ [] | some entries ↦ entries ]

-- `mgr.Close()` of the manager with a number.
abbrev pub close_at : {H : Type 0} → ℕ → List (Manager H) → List (Manager H)
close_at n [] = []
close_at zero (m ∷ ms) = close m ∷ ms
close_at (suc n) (m ∷ ms) = m ∷ close_at n ms

abbrev pub close_each : {H : Type 0} → List ℕ → List (Manager H) → List (Manager H)
close_each [] ms = ms
close_each (n ∷ ns) ms = close_each ns (close_at n ms)

-- The numbers of an address, and of all addresses.
abbrev pub numbers_of : Dict ℕ → List ℕ
numbers_of [] = []
numbers_of ((key, n) ∷ entries) = n ∷ numbers_of entries

abbrev pub all_numbers : Dict (Dict ℕ) → List ℕ
all_numbers [] = []
all_numbers ((address, entries) ∷ rest) = numbers_of entries ++ all_numbers rest

module _ {H : Type 0} (duration : ℕ → String) where
  unfoldable pub add_manager :
      String → RouterConfig → Result (Manager H) → Registry H → Result ℕ × Registry H
  add_manager key cfg (err e) r = (err e, r)
  add_manager key cfg (ok m) r =
      let n = length r.heap in
      (
        ok n,
        record r {
          managers =
              insert cfg.address (insert key n (entries_at cfg.address r.managers)) r.managers;
          heap = r.heap ++ m ∷ [];
        },
      )

  unfoldable pub found_or_new :
      String → RouterConfig → Option ℕ → Registry H → Result ℕ × Registry H
  unfolding add_manager
  found_or_new key cfg (some n) r = (ok n, r)
  found_or_new key cfg none r = add_manager key cfg (new_ssh_connection_manager cfg) r

  unfoldable pub get_or_create : RouterConfig → Registry H → Result ℕ × Registry H
  unfolding found_or_new
  get_or_create cfg r =
      let key = config_identity duration cfg in
      found_or_new key cfg (lookup key (entries_at cfg.address r.managers)) r

unfoldable pub remove : {H : Type 0} → String → Registry H → Registry H
remove address r = record r { managers = delete address r.managers }

unfoldable pub close_all : {H : Type 0} → Registry H → Registry H
close_all r = record { managers = []; heap = close_each (all_numbers r.managers) r.heap }

abbrev pub count_managers : Dict (Dict ℕ) → ℕ
count_managers [] = 0
count_managers ((address, entries) ∷ rest) = length entries + count_managers rest

unfoldable pub len : {H : Type 0} → Registry H → ℕ
len r = count_managers r.managers
