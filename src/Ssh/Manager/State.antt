-- ===== src/Ssh/Manager/State.antt =====
-- internal/ssh/manager.go: the state of the connection manager of one router, and its event
-- handlers. Contexts are kept as whether they are set. `backoff` is the local variable of
-- `reconnectLoop`, and `waits` are the durations for which it has waited, the last first. `keep_alive_loops` and `reconnect_loops` count the goroutines that run; `opened`
-- and `closed` are the SSH clients that `dial` returned and those that were closed, `delivered` is
-- what was handed to the event handlers, the last first in each.
use cilium_dhcp_wanip_operat.Base.{
  ℕ, ◌+◌, ◌-◌, ◌%◌, ◌^◌, Bool, false, Option, none, some, List, [], ◌∷◌, ◌++◌, map, Text, Result,
  ok, err, eqb, length, if◌then◌else◌,
}
use cilium_dhcp_wanip_operat.Ssh.Config.{RouterConfig, validate, with_defaults}

pub data EventReason : Type 0 where
  reboot connection_drop reconnect_success : EventReason

pub record Event : Type 0 where
  pub reason : EventReason
  pub error : Option Text

-- Each is an int64 that wraps, kept as its bit pattern.
pub record Metrics : Type 0 where
  pub active : ℕ
  pub drops : ℕ
  pub reconnects : ℕ

-- An SSH client is named by a number, and a handler by a value of `H`.
pub record Manager (H : Type 0) : Type 0 where
  pub config : RouterConfig
  pub conn : Option ℕ
  pub connected : Bool
  pub reconnecting : Bool
  pub last_uptime : ℕ
  pub started : Bool
  pub handlers : List (ℕ × H)
  pub handler_seq : ℕ
  pub has_base_ctx : Bool
  pub has_ctx : Bool
  pub keep_alive_loops : ℕ
  pub reconnect_loops : ℕ
  pub backoff : ℕ
  pub waits : List ℕ
  pub metrics : Metrics
  pub opened : List ℕ
  pub closed : List ℕ
  pub delivered : List (H × Event)

-- The arithmetic of `atomic.Int64` and of the uint64 sequence number.
abbrev pub inc64 : ℕ → ℕ
inc64 a = (a + 1) % 2 ^ 64

abbrev pub dec64 : ℕ → ℕ
dec64 a = (a + 2 ^ 64 - 1) % 2 ^ 64

abbrev pub close_conn : Option ℕ → List ℕ → List ℕ
close_conn none closed = closed
close_conn (some c) closed = c ∷ closed

module _ {H : Type 0} where
  -- `NewSSHConnectionManager`, for a config that is valid.
  abbrev pub fresh : RouterConfig → Manager H
  fresh cfg = record {
    config = with_defaults cfg;
    conn = none;
    connected = false;
    reconnecting = false;
    last_uptime = 0;
    started = false;
    handlers = [];
    handler_seq = 0;
    has_base_ctx = false;
    has_ctx = false;
    keep_alive_loops = 0;
    reconnect_loops = 0;
    backoff = 0;
    waits = [];
    metrics = record { active = 0; drops = 0; reconnects = 0 };
    opened = [];
    closed = [];
    delivered = [];
  }

  make : RouterConfig → Result (Unit {0}) → Result (Manager H)
  make cfg (err e) = err e
  make cfg (ok v) = ok (fresh cfg)

  unfoldable pub new_ssh_connection_manager : RouterConfig → Result (Manager H)
  unfolding make
  new_ssh_connection_manager cfg = make cfg (validate cfg)

  -- Every handler that is registered is called with the event.
  unfoldable pub notify_handlers : Event → Manager H → Manager H
  notify_handlers event m = record m {
    delivered = map (λ h. (h.1, event)) m.handlers ++ m.delivered;
  }

  -- `m.handlers[id] = handler` and `delete(m.handlers, id)`.
  unfoldable pub put_handler : ℕ → H → List (ℕ × H) → List (ℕ × H)
  put_handler id h [] = (id, h) ∷ []
  put_handler id h ((j, g) ∷ hs) = if eqb j id then (id, h) ∷ hs else (j, g) ∷ put_handler id h hs

  unfoldable pub drop_handler : ℕ → List (ℕ × H) → List (ℕ × H)
  drop_handler id [] = []
  drop_handler id ((j, g) ∷ hs) =
      let rest = drop_handler id hs in if eqb j id then rest else (j, g) ∷ rest

  -- `none` is a nil handler.
  unfoldable pub register_handler : Option H → Manager H → ℕ × Manager H
  register_handler none m = (0, m)
  register_handler (some h) m =
      let id = inc64 m.handler_seq in
      (id, record m { handler_seq = id; handlers = put_handler id h m.handlers })

  unfoldable pub unregister_handler : ℕ → Manager H → Manager H
  unregister_handler id m =
      if eqb id 0 then m else record m { handlers = drop_handler id m.handlers }

  abbrev pub handler_count : Manager H → ℕ
  handler_count m = length m.handlers
