-- ===== src/Router/Tunnel.antt =====
-- internal/router/agent_client.go: the goroutine of `NewAgentClient` that forwards connections
-- through the tunnel, by its steps between two calls that may block. `N` names connections.
pub mod Ends
pub mod Copy
mod Samples
use cilium_dhcp_wanip_operat.Base.{Bool, true, false, List, [], ◌∷◌, Result, ok, err, if◌then◌else◌}

-- The goroutine looks at its context, waits in `Accept`, has a connection, or dials the agent for
-- it; or it has returned.
pub data Point (N : Type 0) : Type 0 where
  at_select : Point N
  at_accept : Point N
  accepted : N → Point N
  dialing : N → Point N
  returned : Point N

-- What `Accept` answers: a timeout after the deadline of a second, another error, a connection.
pub data Accepted (N : Type 0) : Type 0 where
  timed_out : Accepted N
  accept_failed : Accepted N
  connection : N → Accepted N

-- The answers to `Accept` and to the dial, of which a step uses one or none.
pub record Answers (N : Type 0) : Type 0 where
  pub accepts : Accepted N
  pub dials : Result N

-- The connections that the goroutine has taken, closed, and handed to `copyConn` with the
-- connection to the agent, the last first.
pub record Tunnel (N : Type 0) : Type 0 where
  pub point : Point N
  pub cancelled : Bool
  pub listening : Bool
  pub taken : List N
  pub closed : List N
  pub forwarded : List (N × N)

module _ {N : Type 0} where
  abbrev pub new_tunnel : Tunnel N
  new_tunnel = record {
    point = at_select;
    cancelled = false;
    listening = true;
    taken = [];
    closed = [];
    forwarded = [];
  }

  -- The deferred call closes the listener.
  unfoldable pub returns_now : Tunnel N → Tunnel N
  returns_now t = record t { point = returned; listening = false }

  unfoldable pub close_local : N → Tunnel N → Tunnel N
  close_local conn t = record t { closed = conn ∷ t.closed }

  unfoldable pub after_accept : Accepted N → Tunnel N → Tunnel N
  unfolding returns_now
  after_accept timed_out t = record t { point = at_select }
  after_accept accept_failed t = returns_now t
  after_accept (connection conn) t = record t { point = accepted conn; taken = conn ∷ t.taken }

  unfoldable pub after_remote_dial : N → Result N → Tunnel N → Tunnel N
  unfolding close_local
  after_remote_dial conn (err e) t = record (close_local conn t) { point = at_select }
  after_remote_dial conn (ok remote) t = record t {
    point = at_select;
    forwarded = (conn, remote) ∷ t.forwarded;
  }

  unfoldable pub tunnel_at : Point N → Answers N → Tunnel N → Tunnel N
  unfolding returns_now close_local after_accept after_remote_dial
  tunnel_at at_select a t = if t.cancelled then returns_now t else record t { point = at_accept }
  tunnel_at at_accept a t = after_accept a.accepts t
  tunnel_at (accepted conn) a t =
      if t.cancelled then returns_now (close_local conn t) else record t { point = dialing conn }
  tunnel_at (dialing conn) a t = after_remote_dial conn a.dials t
  tunnel_at returned a t = t

  unfoldable pub tunnel_step : Answers N → Tunnel N → Tunnel N
  unfolding tunnel_at
  tunnel_step a t = tunnel_at t.point a t

  -- `tunnelCtx` is cancelled.
  abbrev pub cancel : Tunnel N → Tunnel N
  cancel t = record t { cancelled = true }

  unfoldable pub run_tunnel : List (Answers N) → Tunnel N → Tunnel N
  unfolding tunnel_step
  run_tunnel [] t = t
  run_tunnel (a ∷ rest) t = run_tunnel rest (tunnel_step a t)
