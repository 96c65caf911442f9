-- ===== src/Ssh/Manager/Samples.antt =====
-- A manager and calls on which the theorems are tried.
use Prim.Native.Nat.{min}
use cilium_dhcp_wanip_operat.Base.{
  ◌≡◌, refl, ℕ, ◌+◌, ◌*◌, ◌^◌, ◌<◌, String, true, false, none, some, List, [], ◌∷◌, ◌++◌, Text, lit,
  Result, ok, err, arith,
}
use cilium_dhcp_wanip_operat.Base.Codes.{codes}
use cilium_dhcp_wanip_operat.Ssh.Config.{
  RouterConfig, second, split_host_port, validate, with_defaults,
}
use cilium_dhcp_wanip_operat.Ssh.Manager.{
  Manager, Call, starts, ticks, retries, registers, step, run_calls, fresh, inc64, put_handler,
  close, start, keep_alive_tick, reconnect_attempt, register_handler, unregister_handler,
  handler_count, reboot, new_ssh_connection_manager, connection_drop, reconnect_success,
}
use cilium_dhcp_wanip_operat.Ssh.Manager.Invariant.{Inv, run_calls-Inv}
use cilium_dhcp_wanip_operat.Ssh.Manager.Liveness.{Watched, run_calls-Watched}
use cilium_dhcp_wanip_operat.Ssh.Manager.Backoff.{failures, doubling, backoff_doubles}
use cilium_dhcp_wanip_operat.Ssh.Manager.Race.{
  close_during_dial, close_leaks, close_during_check, close_hangs,
}
use cilium_dhcp_wanip_operat.Ssh.Manager.Handlers.{unregister-register}

abbrev config : RouterConfig
config = record {
  address = "192.168.1.1:22";
  username = "root";
  auth_method = some "key";
  host_key_callback = none;
  timeout = 0;
  keep_alive_interval = 0;
  keep_alive_command = "";
  dial = none;
  runner = none;
  max_backoff = 0;
  initial_backoff = 0;
}

-- The output of the keep-alive command, as the number of its characters.
abbrev parse : List ℕ → Result ℕ
parse out = ok (digits_of out)
  where
    digits_of : List ℕ → ℕ
    digits_of [] = 0
    digits_of (c ∷ cs) = c * 100

abbrev history : List (Call String)
history =
    registers (some "claim")
    ∷ starts (err (lit "timeout"))
    ∷ retries (ok 7)
    ∷ ticks (λ c. ok (500 ∷ []))
    ∷ ticks (λ c. ok (20 ∷ []))
    ∷ ticks (λ c. err (lit "broken pipe"))
    ∷ []

abbrev dropped : Manager String
dropped = run_calls parse (fresh config) history

-- The handler hears of the first drop, the connection, the reboot and the second drop.
delivered_test :
    dropped.delivered
    ≡ ("claim", record { reason = connection_drop; error = some (lit "broken pipe") })
      ∷ ("claim", record { reason = reboot; error = none })
      ∷ ("claim", record { reason = reconnect_success; error = none })
      ∷ (
        "claim",
        record {
          reason = connection_drop;
          error = some (Text.fmt "ssh dial failed: %w" (lit "timeout"));
        },
      )
      ∷ []
unfolding run_calls step register_handler start keep_alive_tick reconnect_attempt put_handler
delivered_test = refl

split_test : split_host_port (codes "192.168.1.1:22") ≡ some (codes "192.168.1.1", codes "22")
unfolding split_host_port
split_test = refl

split_ipv6_test :
    split_host_port (codes "[2001:db8::1]:22") ≡ some (codes "2001:db8::1", codes "22")
unfolding split_host_port
split_ipv6_test = refl

split_bare_ipv6_test : split_host_port (codes "2001:db8::1:22") ≡ none
unfolding split_host_port
split_bare_ipv6_test = refl

new_test : new_ssh_connection_manager config ≡ ok (fresh {H = String} config)
unfolding new_ssh_connection_manager validate split_host_port
new_test = refl

run_calls-Inv_example : Inv dropped
run_calls-Inv_example = run_calls-Inv parse config history

still_started : dropped.started ≡ true
unfolding run_calls step register_handler start keep_alive_tick reconnect_attempt
still_started = refl

run_calls-Watched_example : Watched dropped
run_calls-Watched_example =
    run_calls-Watched parse config history (refl, (refl, (refl, (refl, (refl, (refl, tt))))))
      still_started

dropped_loops : (dropped.reconnect_loops ≡ 1) × (dropped.backoff ≡ 2 * second)
unfolding run_calls step register_handler start keep_alive_tick reconnect_attempt with_defaults
dropped_loops = (refl, refl)

abbrev waiting : Manager String
waiting = record (fresh config) {
  reconnecting = true;
  reconnect_loops = 1;
  backoff = 2;
  started = true;
}

backoff_doubles_example : run_calls parse waiting (failures 3 (lit "refused")) ≡ record waiting {
  waits = doubling waiting.config.max_backoff 2 3 ++ [];
  backoff = min (2 * 2 ^ 3) waiting.config.max_backoff;
}
unfolding with_defaults
backoff_doubles_example =
    backoff_doubles parse (lit "refused") 3 waiting (omega arith) (omega arith) (omega arith)

waits_test : (run_calls parse waiting (failures 3 (lit "refused"))).waits ≡ 8 ∷ 4 ∷ 2 ∷ []
unfolding run_calls step reconnect_attempt with_defaults
waits_test = refl

close_leaks_example :
    let after = close_during_dial 9 waiting in
    (after.started ≡ false)
    × (after.keep_alive_loops ≡ 0)
    × (after.reconnect_loops ≡ 0)
    × (after.connected ≡ true)
    × (after.conn ≡ some 9)
    × (after.opened ≡ 9 ∷ waiting.opened)
    × (after.closed ≡ waiting.closed)
    × (after.metrics.active ≡ inc64 waiting.metrics.active)
    × (close after ≡ after)
close_leaks_example = close_leaks 9 waiting refl refl

-- A manager that is connected, and a check that `Close` cancels; then a dial succeeds, and so on.
abbrev connected : Manager String
connected = record (fresh config) {
  started = true;
  connected = true;
  conn = some 7;
  has_ctx = true;
  has_base_ctx = true;
  keep_alive_loops = 1;
}

abbrev after_cancel : List (Call String)
after_cancel =
    retries (err (lit "refused")) ∷ retries (ok 8) ∷ ticks (λ c. err (lit "broken pipe")) ∷ []

close_hangs_example :
    let n = run_calls parse (close_during_check (lit "context canceled") connected) after_cancel in
    (n.started ≡ false) × (n.keep_alive_loops + n.reconnect_loops ≡ 1)
close_hangs_example =
    close_hangs parse (lit "context canceled") connected after_cancel refl refl
      (refl, (refl, (refl, tt)))

unregister-register_example :
    let (id, after) = register_handler (some "second claim") dropped in
    (0 < id)
    × (after.handlers ≡ dropped.handlers ++ (id, "second claim") ∷ [])
    × (handler_count after ≡ handler_count dropped + 1)
    × ((unregister_handler id after).handlers ≡ dropped.handlers)
unregister-register_example = unregister-register parse config history "second claim" (omega arith)
