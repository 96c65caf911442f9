-- ===== src/Ssh/Manager.antt =====
-- internal/ssh/manager.go: a manager as what its calls, its loops and its context make of it.
mod State
mod Connection
mod Checks
pub mod Invariant
pub mod Liveness
pub mod Backoff
pub mod Race
pub mod Handlers
mod Samples
unfoldable pub use State.*
unfoldable pub use Connection.*
unfoldable pub use Checks.*
use cilium_dhcp_wanip_operat.Base.{ℕ, Bool, Option, List, [], ◌∷◌, Result, ltb, if◌then◌else◌}

-- What may happen to a manager, with the answers of the SSH library.
pub data Call (H : Type 0) : Type 0 where
  starts : Result ℕ → Call H
  ticks : (ℕ → Result (List ℕ)) → Call H
  retries : Result ℕ → Call H
  closes : Call H
  parent_ends : Call H
  registers : Option H → Call H
  unregisters : ℕ → Call H

module _ {H : Type 0} (parse : List ℕ → Result ℕ) where
  -- A tick and a retry happen only while their loop runs.
  unfoldable pub step : Manager H → Call H → Manager H
  step m (starts dialled) = (start dialled m).1
  step m (ticks run) = if ltb 0 m.keep_alive_loops then keep_alive_tick parse run m else m
  step m (retries dialled) = if ltb 0 m.reconnect_loops then reconnect_attempt dialled m else m
  step m closes = close m
  step m parent_ends = parent_done m
  step m (registers h) = (register_handler h m).1
  step m (unregisters id) = unregister_handler id m

  unfoldable pub run_calls : Manager H → List (Call H) → Manager H
  run_calls m [] = m
  run_calls m (c ∷ cs) = run_calls (step m c) cs
