-- ===== src/Ssh/Manager/Invariant.antt =====
-- internal/ssh/manager.go: what holds of a manager after any calls.
use cilium_dhcp_wanip_operat.Base.{
  ◌≡◌, ℕ, ◌≤◌, ◌<◌, true, false, ◌&&◌, Option, none, some, List, [], ◌∷◌, Result, ok, err, arith,
  is_some, if◌then◌else◌,
}
use cilium_dhcp_wanip_operat.Ssh.Config.{RouterConfig}
use cilium_dhcp_wanip_operat.Ssh.Manager.{
  Manager, Call, starts, ticks, retries, closes, parent_ends, registers, unregisters, step,
  run_calls, start, keep_alive_tick, reconnect_attempt, close, parent_done, register_handler,
  unregister_handler, close_conn, fresh,
}

-- The flags agree with the client, the gauge with the flag, the loops with the state, and of the clients that were opened all but the present one have been closed, each once.
pub record Inv {H : Type 0} (m : Manager H) : Type 0 where
  pub client : m.connected ≡ is_some m.conn
  pub exclusive : m.connected && m.reconnecting ≡ false
  pub gauge : m.metrics.active ≡ (if m.connected then 1 else 0)
  pub context : m.connected ≡ true → m.has_ctx ≡ true
  pub stopped : m.started ≡ false → (m.connected ≡ false) × (m.reconnecting ≡ false)
  pub one_keep_alive : m.keep_alive_loops ≤ (if m.connected then 1 else 0)
  pub one_reconnect : m.reconnect_loops ≤ (if m.reconnecting then 1 else 0)
  pub no_leak : m.opened ≡ close_conn m.conn m.closed

module _ {H : Type 0} (parse : List ℕ → Result ℕ) where
  fresh-Inv : (cfg : RouterConfig) → Inv (fresh {H = H} cfg)
  fresh-Inv cfg = ground arith

  start-Inv : (m : Manager H) (d : Result ℕ) → Inv m → Inv (start d m).1
  unfolding start
  start-Inv m (ok c) v = ground arith
  start-Inv m (err e) v = ground arith

  tick-Inv :
      (m : Manager H) (run : ℕ → Result (List ℕ))
      → 0 < m.keep_alive_loops
      → Inv m
      → Inv (keep_alive_tick parse run m)
  unfolding keep_alive_tick
  tick-Inv m run l v = ground arith

  attempt-Inv :
      (m : Manager H) (d : Result ℕ) → 0 < m.reconnect_loops → Inv m → Inv (reconnect_attempt d m)
  unfolding reconnect_attempt
  attempt-Inv m (ok c) l v = ground arith
  attempt-Inv m (err e) l v = ground arith

  close-Inv : (m : Manager H) → Inv m → Inv (close m)
  unfolding close
  close-Inv m v = ground arith

  register-Inv : (m : Manager H) (h : Option H) → Inv m → Inv (register_handler h m).1
  unfolding register_handler
  register-Inv m none v = v
  register-Inv m (some h) v = ground arith

  unregister-Inv : (m : Manager H) (id : ℕ) → Inv m → Inv (unregister_handler id m)
  unfolding unregister_handler
  unregister-Inv m id v = ground arith

  parent-Inv : (m : Manager H) → Inv m → Inv (parent_done m)
  unfolding parent_done
  parent-Inv m v = ground arith

  pub step-Inv : (m : Manager H) (c : Call H) → Inv m → Inv (step parse m c)
  unfolding step
  step-Inv m (starts d) v = start-Inv m d v
  step-Inv m (ticks run) v = ground (arith, tick-Inv m run)
  step-Inv m (retries d) v = ground (arith, attempt-Inv m d)
  step-Inv m closes v = close-Inv m v
  step-Inv m parent_ends v = parent-Inv m v
  step-Inv m (registers h) v = register-Inv m h v
  step-Inv m (unregisters id) v = unregister-Inv m id v

  run_calls_from-Inv : (m : Manager H) (cs : List (Call H)) → Inv m → Inv (run_calls parse m cs)
  unfolding run_calls
  run_calls_from-Inv m [] v = v
  run_calls_from-Inv m (c ∷ cs) v = run_calls_from-Inv (step parse m c) cs (step-Inv m c v)

  -- After any calls on a new manager, in any order and with any answers of the SSH library: a client is present exactly when the manager counts as connected, and then its context is set and its share of the gauge of active connections is one, else zero; it is never connected and reconnecting at once; a manager that is not started is neither; at most one loop of each kind runs, and only in its state; and every client that was opened is the present one or has been closed once.
  pub run_calls-Inv :
      (cfg : RouterConfig) (cs : List (Call H)) → Inv (run_calls parse (fresh cfg) cs)
  run_calls-Inv cfg cs = run_calls_from-Inv (fresh cfg) cs (fresh-Inv cfg)
