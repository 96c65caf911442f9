-- ===== src/Ssh/Manager/Connection.antt =====
-- internal/ssh/manager.go: how a manager connects, loses its connection, reconnects and closes.
-- Each operation runs to its end before the next begins; `Manager/Race` takes two of them apart.
use cilium_dhcp_wanip_operat.Base.{
  ℕ, ◌+◌, ◌-◌, ◌*◌, ◌%◌, ◌^◌, Bool, true, false, Option, none, some, ◌∷◌, Text, lit, fmt, Result,
  ok, err, ltb, if◌then◌else◌,
}
use cilium_dhcp_wanip_operat.Ssh.Manager.State.{
  connection_drop, reconnect_success, Manager, inc64, dec64, close_conn, notify_handlers,
}

-- The comparison of two int64 by their bit patterns, whose upper half is negative.
abbrev pub less64 : ℕ → ℕ → Bool
less64 a b = ltb ((a + 2 ^ 63) % 2 ^ 64) ((b + 2 ^ 63) % 2 ^ 64)

-- `backoff *= 2`, an int64 that wraps, then capped.
abbrev pub next_backoff : ℕ → ℕ → ℕ
next_backoff max b = let doubled = b * 2 % 2 ^ 64 in if less64 max doubled then max else doubled

module _ {H : Type 0} where
  -- `establishConnection` once `dial` has returned a client.
  unfoldable pub install : ℕ → Manager H → Manager H
  unfolding notify_handlers
  install client m =
      notify_handlers (record { reason = reconnect_success; error = none })
        (record m {
          conn = some client;
          connected = true;
          reconnecting = false;
          opened = client ∷ m.opened;
          closed = close_conn m.conn m.closed;
          metrics = record m.metrics {
            active = if m.connected then m.metrics.active else inc64 m.metrics.active;
            reconnects = inc64 m.metrics.reconnects;
          };
        })

  -- `establishConnection` by what `dial` returns.
  unfoldable pub establish_connection : Result ℕ → Manager H → Result (Unit {0}) × Manager H
  unfolding install
  establish_connection (err e) m = (err (fmt "ssh dial failed: %w" e), m)
  establish_connection (ok client) m = (ok tt, install client m)

  unfoldable pub transition_to_reconnecting : Text → Manager H → Manager H
  unfolding notify_handlers
  transition_to_reconnecting e m =
      if m.reconnecting
      then m
      else (let dropped : Manager H = record m {
        reconnecting = true;
        connected = false;
        conn = none;
        has_ctx = false;
        closed = close_conn m.conn m.closed;
        metrics = record m.metrics {
          active = if m.connected then dec64 m.metrics.active else m.metrics.active;
          drops = inc64 m.metrics.drops;
        };
      } in
          let told =
            notify_handlers (record { reason = connection_drop; error = some e }) dropped in
          record told {
            reconnect_loops = told.reconnect_loops + 1;
            backoff = told.config.initial_backoff;
          })

  abbrev pub handle_connection_drop : Text → Manager H → Manager H
  handle_connection_drop = transition_to_reconnecting

  after_dial : Result (Unit {0}) × Manager H → Result (Unit {0}) × Manager H
  unfolding transition_to_reconnecting
  after_dial (err e, m) = (
    err (fmt "initial connection failed, reconnecting in background: %w" e),
    transition_to_reconnecting e m,
  )
  after_dial (ok u, m) = (ok tt, record m { keep_alive_loops = m.keep_alive_loops + 1 })

  -- `Start` with a context that is not nil, by what `dial` returns.
  unfoldable pub start : Result ℕ → Manager H → Result (Unit {0}) × Manager H
  unfolding establish_connection after_dial
  start dialled m =
      if m.started
      then (err (lit "ssh manager already started"), m)
      else after_dial (
          establish_connection dialled
            (record m { started = true; has_base_ctx = true; has_ctx = true }))

  after_reconnect : Result (Unit {0}) × Manager H → Manager H
  after_reconnect (err e, m) = record m {
    waits = m.backoff ∷ m.waits;
    backoff = next_backoff m.config.max_backoff m.backoff;
  }
  after_reconnect (ok u, m) = record m {
    has_ctx = true;
    reconnecting = false;
    keep_alive_loops = m.keep_alive_loops + 1;
    reconnect_loops = m.reconnect_loops - 1;
  }

  -- One round of `reconnectLoop`: after a failure it waits for `backoff`, which then doubles, and
  -- after a success it hands over to a keep-alive loop.
  unfoldable pub reconnect_attempt : Result ℕ → Manager H → Manager H
  unfolding establish_connection after_reconnect
  reconnect_attempt dialled m = after_reconnect (establish_connection dialled m)

  -- The first part of `Close`, under the lock.
  unfoldable pub clear : Manager H → Manager H
  clear m = record m {
    has_ctx = false;
    has_base_ctx = false;
    started = false;
    conn = none;
    connected = false;
    reconnecting = false;
  }

  -- The rest of `Close`, with the client and the flag that the first part has taken out, where
  -- `wg.Wait` returns: the contexts are cancelled, and the loops, which are in a select, have seen
  -- it and returned. `Manager/Race` has a check of the connection that is under way, after which
  -- `wg.Wait` does not return.
  unfoldable pub finish_close : Option ℕ → Bool → Manager H → Manager H
  finish_close client was_connected m = record m {
    keep_alive_loops = 0;
    reconnect_loops = 0;
    closed = close_conn client m.closed;
    metrics = record m.metrics {
      active = if was_connected then dec64 m.metrics.active else m.metrics.active;
    };
  }

  unfoldable pub close : Manager H → Manager H
  unfolding clear finish_close
  close m = if m.started then finish_close m.conn m.connected (clear m) else m

  -- The context that `Start` was given is cancelled: both loops end.
  unfoldable pub parent_done : Manager H → Manager H
  parent_done m = record m { keep_alive_loops = 0; reconnect_loops = 0 }
