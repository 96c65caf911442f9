-- ===== src/Router/Tunnel/Copy.antt =====
-- internal/router/agent_client.go: `copyConn`, which copies both ways between a connection of the
-- client and one to the agent, by the ends of its two copies.
use cilium_dhcp_wanip_operat.Base.{
  ◌≡◌, Bool, true, false, ◌&&◌, ◌||◌, List, [], ◌∷◌, arith, if◌then◌else◌,
}

-- The copy of a direction returns, at the end of what it reads or by an error.
pub data CopyEnd : Type 0 where
  to_remote to_local : CopyEnd

-- Which copies have returned, on which connections the end of writing was signalled, and whether
-- both connections are closed.
pub record Copying : Type 0 where
  pub sent : Bool
  pub received : Bool
  pub remote_told : Bool
  pub local_told : Bool
  pub closed : Bool

abbrev pub new_copying : Copying
new_copying = record {
  sent = false;
  received = false;
  remote_told = false;
  local_told = false;
  closed = false;
}

-- `wg.Wait()`, after which the deferred calls close both.
abbrev waited : Copying → Copying
waited c = record c { closed = c.sent && c.received }

-- Whether the connections are TCP connections; one that crypto/ssh dials is not.
module _ (remote_is_tcp local_is_tcp : Bool) where
  unfoldable pub copy_ends : CopyEnd → Copying → Copying
  copy_ends to_remote c =
      if c.sent then c else waited (record c { sent = true; remote_told = remote_is_tcp })
  copy_ends to_local c =
      if c.received then c else waited (record c { received = true; local_told = local_is_tcp })

  unfoldable pub copy_conn : List CopyEnd → Copying → Copying
  unfolding copy_ends
  copy_conn [] c = c
  copy_conn (e ∷ es) c = copy_conn es (copy_ends e c)

abbrev ends_sending : List CopyEnd → Bool
ends_sending [] = false
ends_sending (to_remote ∷ es) = true
ends_sending (to_local ∷ es) = ends_sending es

abbrev ends_receiving : List CopyEnd → Bool
ends_receiving [] = false
ends_receiving (to_remote ∷ es) = ends_receiving es
ends_receiving (to_local ∷ es) = true

module _ (remote_is_tcp local_is_tcp : Bool) where
  -- A state by which copies have returned.
  abbrev ended : Bool → Bool → Copying
  ended s r = record {
    sent = s;
    received = r;
    remote_told = remote_is_tcp && s;
    local_told = local_is_tcp && r;
    closed = s && r;
  }

  copies-ended :
      (es : List CopyEnd) (s r : Bool)
      → copy_conn remote_is_tcp local_is_tcp es (ended s r)
        ≡ ended (s || ends_sending es) (r || ends_receiving es)
  unfolding copy_conn copy_ends
  copies-ended [] s r = ground arith
  copies-ended (to_remote ∷ es) s r = ground (arith, copies-ended es true r, copies-ended es s r)
  copies-ended (to_local ∷ es) s r = ground (arith, copies-ended es s true, copies-ended es s r)

  -- Whatever copies return: both connections are closed exactly if both directions have ended, and the end of writing is signalled exactly on a TCP connection whose direction has ended.
  pub copy_conn-closed :
      (es : List CopyEnd)
      → let c = copy_conn remote_is_tcp local_is_tcp es new_copying in
        (c.closed ≡ (ends_sending es && ends_receiving es))
        × (c.remote_told ≡ (remote_is_tcp && ends_sending es))
        × (c.local_told ≡ (local_is_tcp && ends_receiving es))
  copy_conn-closed es = ground (arith, copies-ended es false false)

-- Over SSH, a client that has ended its connection is not reported to the agent, and the connections stay open until the agent ends its side.
pub ssh_end_untold :
    (local_is_tcp : Bool) (es : List CopyEnd)
    → ends_receiving es ≡ false
    → let c = copy_conn false local_is_tcp es new_copying in
      (c.closed ≡ false) × (c.remote_told ≡ false)
ssh_end_untold local_is_tcp es n = ground (arith, n, copy_conn-closed false local_is_tcp es)
