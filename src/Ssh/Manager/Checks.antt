-- ===== src/Ssh/Manager/Checks.antt =====
-- internal/ssh/manager.go: the commands of a manager and its keep-alive check.
use cilium_dhcp_wanip_operat.Base.{
  ℕ, ◌+◌, ◌-◌, ◌&&◌, Option, none, some, List, lit, Result, ok, err, ltb, if◌then◌else◌,
}
use cilium_dhcp_wanip_operat.Ssh.Manager.State.{reboot, Manager, notify_handlers}
use cilium_dhcp_wanip_operat.Ssh.Manager.Connection.{
  transition_to_reconnecting, handle_connection_drop,
}

abbrev run_with_client : Option ℕ → (ℕ → Result (List ℕ)) → Result (List ℕ)
run_with_client none run = err (lit "ssh connection not established")
run_with_client (some client) run = run client

abbrev parse_reply : (List ℕ → Result ℕ) → Result (List ℕ) → Result ℕ
parse_reply parse (err e) = err e
parse_reply parse (ok output) = parse output

module _ {H : Type 0} where
  -- `RunCommand` with a context, by what the runner returns for the client.
  unfoldable pub run_command : (ℕ → Result (List ℕ)) → Manager H → Result (List ℕ)
  run_command run m = run_with_client m.conn run

  -- An uptime that `checkConnection` has parsed, in hundredths of a second.
  unfoldable pub record_uptime : ℕ → Manager H → Manager H
  unfolding notify_handlers
  record_uptime uptime m =
      let seen : Manager H = record m { last_uptime = uptime } in
      if ltb 0 m.last_uptime && ltb (uptime + 100) m.last_uptime
      then notify_handlers (record { reason = reboot; error = none }) seen
      else seen

  check_uptime : Result ℕ → Manager H → Result (Unit {0}) × Manager H
  unfolding record_uptime
  check_uptime (err e) m = (err e, m)
  check_uptime (ok uptime) m = (ok tt, record_uptime uptime m)

  -- `checkConnection`; `parse` is `parseUptime`.
  unfoldable pub check_connection :
      (List ℕ → Result ℕ) → (ℕ → Result (List ℕ)) → Manager H → Result (Unit {0}) × Manager H
  unfolding check_uptime run_command
  check_connection parse run m =
      if m.has_ctx
      then check_uptime (parse_reply parse (run_command run m)) m
      else (err (lit "manager context unavailable"), m)

  unfoldable pub after_check : Result (Unit {0}) × Manager H → Manager H
  unfolding transition_to_reconnecting
  after_check (ok u, m) = m
  after_check (err e, m) =
      let left = handle_connection_drop e m in
      record left { keep_alive_loops = left.keep_alive_loops - 1 }

  -- One tick of `keepAliveLoop`, which returns after a failed check.
  unfoldable pub keep_alive_tick :
      (List ℕ → Result ℕ) → (ℕ → Result (List ℕ)) → Manager H → Manager H
  unfolding check_connection after_check
  keep_alive_tick parse run m = after_check (check_connection parse run m)
