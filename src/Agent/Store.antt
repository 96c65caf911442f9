-- ===== src/Agent/Store.antt =====
-- internal/agent/lease/types.go: the operations of the lease store.
use Prim.Native.String
use cilium_dhcp_wanip_operat.Base.{
  String, Bool, true, false, Option, List, [], ◌∷◌, map, fmt, Result, ok, err, ◌==◌, if◌then◌else◌,
}
use cilium_dhcp_wanip_operat.Base.Action.{Action, returns, wrapping, ◌>>=◌, ◌>>◌}
use cilium_dhcp_wanip_operat.Base.Dict.{Dict, lookup, insert, delete}
use cilium_dhcp_wanip_operat.Agent.Network.{LinkReply, found, not_found, unreadable}
use cilium_dhcp_wanip_operat.Agent.State.{
  Lease, Store, Agent, FileReply, contents, no_file, unreadable as unread, Host, in_world,
}

abbrev pub get : String → Store → Option Lease
get iface s = lookup iface s.leases

-- In the order of the dictionary; the code's order is that of a map.
abbrev pub list : Store → List Lease
list s = map (λ e. e.1) s.leases

abbrev pub member : String → List String → Bool
member x [] = false
member x (y ∷ ys) = if y == x then true else member x ys

abbrev pub without : String → List String → List String
without x [] = []
without x (y ∷ ys) = let rest = without x ys in if y == x then rest else y ∷ rest

-- Whether the name was free, and the store after that.
unfoldable pub acquire_inflight : String → Store → Bool × Store
acquire_inflight iface s =
    if member iface s.inflight
    then (false, s)
    else (true, record s { inflight = iface ∷ s.inflight })

unfoldable pub release_inflight : String → Store → Store
release_inflight iface s = record s { inflight = without iface s.inflight }

module _ {W L D : Type 0} (h : Host W L D) where
  -- `save` of the leases, in the states of the host.
  unfoldable pub save_leases : String → Dict Lease → Action W (Unit {0})
  save_leases state_file leases = do
    let tmp_file = String.◌++◌ state_file ".tmp"
    text ← wrapping "failed to marshal leases: %w" (λ w. (h.marshal leases, w))
    wrapping "failed to write temp file: %w" (h.write_state tmp_file text)
    wrapping "failed to rename temp file: %w" (h.rename tmp_file state_file)

  unfoldable pub save : Action (Agent W) (Unit {0})
  unfolding save_leases
  save a = in_world (save_leases a.store.state_file a.store.leases) a

  -- `Set`
  unfoldable pub set_lease : Lease → Action (Agent W) (Unit {0})
  unfolding save
  set_lease l a =
      save (record a { store = record a.store { leases = insert l.iface l a.store.leases } })

  -- `Delete`
  unfoldable pub delete_lease : String → Action (Agent W) (Unit {0})
  unfolding save
  delete_lease iface a =
      save (record a { store = record a.store { leases = delete iface a.store.leases } })

  unfoldable pub parse_state : FileReply D × W → Result (Dict Lease) × W
  parse_state (contents text, w) =
      wrapping "failed to unmarshal leases: %w" (λ w. (h.unmarshal text, w)) w
  parse_state (no_file, w) = (ok [], w)
  parse_state (unread e, w) = (err (fmt "failed to read state file: %w" e), w)

  -- `load` into a store that has no leases.
  unfoldable pub load : String → Action W (Dict Lease)
  unfolding parse_state
  load state_file w = parse_state (h.read_state state_file w)

  -- `filepath.Join` is written out for a directory whose name is clean.
  unfoldable pub new_store : String → Action W Store
  unfolding load
  new_store state_dir = do
    let file = String.◌++◌ state_dir "/leases.json"
    wrapping "failed to create state directory: %w" (h.mkdir_all state_dir)
    saved ← wrapping "failed to load state: %w" (load file)
    returns (record { leases = saved; state_file = file; inflight = [] })

  exists_reply : LinkReply L × W → Result Bool × W
  exists_reply (found l, w) = (ok true, w)
  exists_reply (not_found e, w) = (ok false, w)
  exists_reply (unreadable e, w) = (err (fmt "failed to check interface: %w" e), w)

  unfoldable pub verify_interface_exists : String → Action W Bool
  unfolding exists_reply
  verify_interface_exists iface w = exists_reply (h.kernel.link_by_name iface w)
