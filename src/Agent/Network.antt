-- ===== src/Agent/Network.antt =====
-- internal/agent/network/config.go: the macvlan interface of a lease and its settings. The kernel's
-- netlink interface and the files under /proc are a parameter, over the state `W` of the host.
pub mod Links
use Prim.Native.String
use cilium_dhcp_wanip_operat.Base.{String, Text, lit, fmt, Result, ok, err}
use cilium_dhcp_wanip_operat.Base.Action.{Action, returns, wrapping, ◌>>=◌, ◌>>◌}

-- An answer of `netlink.LinkByName`; `not_found` is a `LinkNotFoundError`.
pub data LinkReply (L : Type 0) : Type 0 where
  found : L → LinkReply L
  not_found : Text → LinkReply L
  unreadable : Text → LinkReply L

-- No error, an error for which `os.IsNotExist` holds, or another one.
pub data IoReply : Type 0 where
  written : IoReply
  missing : Text → IoReply
  refused : Text → IoReply

-- `L` is the type of links. `add_macvlan name parent mac` is `LinkAdd` of a macvlan in bridge mode.
pub record Kernel (W L : Type 0) : Type 0 where
  pub link_by_name : String → W → LinkReply L × W
  pub add_macvlan : String → L → String → Action W L
  pub link_set_up : L → Action W (Unit {0})
  pub link_del : L → Action W (Unit {0})
  pub neigh_set : L → String → Action W (Unit {0})
  pub neigh_del : L → String → W → IoReply × W
  pub write_file : String → String → W → IoReply × W

abbrev pub proc_path : String → String → String
proc_path iface file =
    String.◌++◌ "/proc/sys/net/ipv4/conf/" (String.◌++◌ iface (String.◌++◌ "/" file))

module _ {W L : Type 0} (k : Kernel W L) where
  -- Every error of a look-up is returned.
  pub need_link : String → LinkReply L × W → Result L × W
  need_link message (found l, w) = (ok l, w)
  need_link message (not_found e, w) = (err (fmt message e), w)
  need_link message (unreadable e, w) = (err (fmt message e), w)

  -- Every error of a write is returned.
  pub need_written : String → IoReply × W → Result (Unit {0}) × W
  need_written message (written, w) = (ok tt, w)
  need_written message (missing e, w) = (err (fmt message e), w)
  need_written message (refused e, w) = (err (fmt message e), w)

  -- `if err != nil { if !os.IsNotExist(err) { return … } }`
  pub allow_missing : String → IoReply × W → Result (Unit {0}) × W
  allow_missing message (written, w) = (ok tt, w)
  allow_missing message (missing e, w) = (ok tt, w)
  allow_missing message (refused e, w) = (err (fmt message e), w)

  unfoldable pub setup_interface : String → String → Action W (Unit {0})
  unfolding need_link need_written
  setup_interface iface ip = do
    link ← (λ w. need_link "failed to get interface: %w" (k.link_by_name iface w))
    (λ w.
        need_written "failed to enable proxy ARP: %w"
          (k.write_file (proc_path iface "proxy_arp") "1" w))
    wrapping "failed to add neighbor proxy: %w" (k.neigh_set link ip)
    (λ w.
        need_written "failed to disable rp_filter: %w"
          (k.write_file (proc_path iface "rp_filter") "0" w))

  pub cleanup_link : String → String → LinkReply L × W → Result (Unit {0}) × W
  unfolding allow_missing
  cleanup_link iface ip (not_found e, w) = (ok tt, w)
  cleanup_link iface ip (unreadable e, w) = (err (fmt "failed to get interface: %w" e), w)
  cleanup_link iface ip (found link, v) =
      (do
        (λ w. allow_missing "failed to remove neighbor proxy: %w" (k.neigh_del link ip w))
        (λ w.
            allow_missing "failed to disable proxy ARP: %w"
              (k.write_file (proc_path iface "proxy_arp") "0" w))
        (λ w.
            allow_missing "failed to re-enable rp_filter: %w"
              (k.write_file (proc_path iface "rp_filter") "1" w)))
        v

  unfoldable pub cleanup_interface : String → String → Action W (Unit {0})
  unfolding cleanup_link
  cleanup_interface iface ip w = cleanup_link iface ip (k.link_by_name iface w)

  -- The interface is brought up, or deleted again.
  pub set_up_or_delete : L → Result (Unit {0}) × W → Result (Unit {0}) × W
  set_up_or_delete link (ok u, w) = (ok tt, w)
  set_up_or_delete link (err e, w) =
      let (_, w') = k.link_del link w in (err (fmt "failed to bring interface up: %w" e), w')

  pub add_unless_found : String → L → String → LinkReply L × W → Result (Unit {0}) × W
  unfolding set_up_or_delete
  add_unless_found iface parent mac (found l, w) =
      (err (fmt "interface %s already exists" (lit iface)), w)
  add_unless_found iface parent mac (not_found e, v) =
      (do
        link ← wrapping "failed to create macvlan interface: %w" (k.add_macvlan iface parent mac)
        (λ w. set_up_or_delete link (k.link_set_up link w)))
        v
  add_unless_found iface parent mac (unreadable e, v) =
      (do
        link ← wrapping "failed to create macvlan interface: %w" (k.add_macvlan iface parent mac)
        (λ w. set_up_or_delete link (k.link_set_up link w)))
        v

  unfoldable pub create_macvlan : String → String → String → Action W (Unit {0})
  unfolding need_link add_unless_found
  create_macvlan iface parent mac = do
    let message = String.◌++◌ "failed to get parent interface " (String.◌++◌ parent ": %w")
    above ← (λ w. need_link message (k.link_by_name parent w))
    (λ w. add_unless_found iface above mac (k.link_by_name iface w))

  pub delete_link : LinkReply L × W → Result (Unit {0}) × W
  delete_link (found link, w) = wrapping "failed to delete interface: %w" (k.link_del link) w
  delete_link (not_found e, w) = (ok tt, w)
  delete_link (unreadable e, w) = (err (fmt "failed to get interface: %w" e), w)

  unfoldable pub delete_macvlan : String → Action W (Unit {0})
  unfolding delete_link
  delete_macvlan iface w = delete_link (k.link_by_name iface w)
