-- ===== src/Ssh/Manager/Race.antt =====
-- internal/ssh/manager.go: `Close` while the reconnect loop is dialling, or while the keep-alive loop
-- is checking the connection. `Close` clears the state under the lock and then waits for the loops.
-- A reconnect loop whose dial returns a client meanwhile installs it and hands over to a keep-alive
-- loop, which ends at once. A keep-alive loop whose check is cancelled starts a reconnect loop, which
-- finds no base context, so that it runs on `context.Background()`, which never ends.
use cilium_dhcp_wanip_operat.Base.{
  ◌≡◌, ◌⊎◌, ℕ, ◌+◌, Bool, true, false, none, some, List, [], ◌∷◌, All, Text, Result, ok, err, arith,
}
use cilium_dhcp_wanip_operat.Ssh.Manager.{
  Manager, inc64, clear, finish_close, reconnect_attempt, close, Call, ticks, retries, starts,
  closes, parent_ends, registers, unregisters, step, run_calls, after_check, keep_alive_tick,
}

-- The order of steps in which the dial returns between the two parts of `Close`.
abbrev pub close_during_dial : {H : Type 0} → ℕ → Manager H → Manager H
close_during_dial client m =
    finish_close m.conn m.connected (reconnect_attempt (ok client) (clear m))

-- If the dial of a reconnecting manager returns a client while `Close` waits, then after `Close` the manager is not started and no loop runs, but the client is still installed and open, the manager counts as connected and in the gauge, and closing it again changes nothing.
pub close_leaks :
    {H : Type 0} (client : ℕ) (m : Manager H)
    → m.connected ≡ false
    → m.conn ≡ none
    → let after = close_during_dial client m in
      (after.started ≡ false)
      × (after.keep_alive_loops ≡ 0)
      × (after.reconnect_loops ≡ 0)
      × (after.connected ≡ true)
      × (after.conn ≡ some client)
      × (after.opened ≡ client ∷ m.opened)
      × (after.closed ≡ m.closed)
      × (after.metrics.active ≡ inc64 m.metrics.active)
      × (close after ≡ after)
unfolding clear finish_close reconnect_attempt close
close_leaks client m d n = ground arith

-- The state while `Close` waits, once the check that it has cancelled has failed.
abbrev pub close_during_check : {H : Type 0} → Text → Manager H → Manager H
close_during_check e m = after_check (err e, clear m)

-- A dial that returns, or a check; no context ends any more.
abbrev pub of_loop : {H : Type 0} → Call H → Bool
of_loop (ticks run) = true
of_loop (retries dialled) = true
of_loop _ = false

-- One loop runs on a context that does not end.
abbrev Runs : {H : Type 0} → Manager H → Type 0
Runs m =
    (m.keep_alive_loops ≡ 0) × (m.reconnect_loops ≡ 1)
    ⊎ (m.keep_alive_loops ≡ 1) × (m.reconnect_loops ≡ 0) × (m.reconnecting ≡ false)

module _ {H : Type 0} (parse : List ℕ → Result ℕ) where
  step-Runs :
      (m : Manager H) (c : Call H)
      → of_loop c ≡ true
      → (m.started ≡ false) × Runs m
      → (step parse m c).started ≡ false × Runs (step parse m c)
  unfolding step keep_alive_tick reconnect_attempt
  step-Runs m (ticks run) o (s, r) = ground arith
  step-Runs m (retries (ok client)) o (s, r) = ground arith
  step-Runs m (retries (err e)) o (s, r) = ground arith
  step-Runs m (starts d) o s = absurd (ground (arith, o))
  step-Runs m closes o s = absurd (ground (arith, o))
  step-Runs m parent_ends o s = absurd (ground (arith, o))
  step-Runs m (registers h) o s = absurd (ground (arith, o))
  step-Runs m (unregisters id) o s = absurd (ground (arith, o))

  run-Runs :
      (m : Manager H) (cs : List (Call H))
      → All (λ c. of_loop c ≡ true) cs
      → (m.started ≡ false) × Runs m
      → (run_calls parse m cs).started ≡ false × Runs (run_calls parse m cs)
  unfolding run_calls
  run-Runs m [] o r = r
  run-Runs m (c ∷ cs) o r = run-Runs (step parse m c) cs o.1 (step-Runs m c o.0 r)

  -- If `Close` is called on a manager whose only loop is a keep-alive loop that is checking the connection, and the check then fails: whatever the dials and the checks that follow answer, the manager is not started, and exactly one loop runs, so that the wait of `Close` for all loops never ends.
  pub close_hangs :
      (e : Text) (m : Manager H) (later : List (Call H))
      → m.keep_alive_loops ≡ 1
      → m.reconnect_loops ≡ 0
      → All (λ c. of_loop c ≡ true) later
      → let n = run_calls parse (close_during_check e m) later in
        (n.started ≡ false) × (n.keep_alive_loops + n.reconnect_loops ≡ 1)
  unfolding clear after_check
  close_hangs e m later k r o =
      let (s, runs) = run-Runs (close_during_check e m) later o (ground (arith, k, r)) in
      (s, ground (arith, runs))
