-- ===== src/Ssh/Manager/Liveness.antt =====
-- internal/ssh/manager.go: a manager that is started always has the loop that its state calls for.
use cilium_dhcp_wanip_operat.Base.{
  ◌≡◌, ◌⊎◌, inl, inr, ℕ, ◌<◌, Bool, true, false, Option, none, some, List, [], ◌∷◌, All, Result, ok,
  err, arith, if◌then◌else◌,
}
use cilium_dhcp_wanip_operat.Ssh.Config.{RouterConfig}
use cilium_dhcp_wanip_operat.Ssh.Manager.{
  Manager, Call, starts, ticks, retries, closes, parent_ends, registers, unregisters, step,
  run_calls, start, keep_alive_tick, reconnect_attempt, close, register_handler, unregister_handler,
  fresh,
}

-- A stopped manager has no loop, a connected one the keep-alive loop alone, and every other one the reconnect loop alone.
record IsAlive {H : Type 0} (m : Manager H) : Type 0 where
  pub keeps : m.keep_alive_loops ≡ (if m.connected then 1 else 0)
  pub retrying : m.reconnect_loops ≡ (if m.reconnecting then 1 else 0)
  pub one_state :
      m.started ≡ true
      → (m.connected ≡ true) × (m.reconnecting ≡ false)
        ⊎ (m.connected ≡ false) × (m.reconnecting ≡ true)
  pub stopped : m.started ≡ false → (m.connected ≡ false) × (m.reconnecting ≡ false)

-- One loop, which is that of the state.
abbrev pub Watched : {H : Type 0} → Manager H → Type 0
Watched m =
    (m.connected ≡ true)
      × (m.reconnecting ≡ false)
      × (m.keep_alive_loops ≡ 1)
      × (m.reconnect_loops ≡ 0)
    ⊎ (m.connected ≡ false)
      × (m.reconnecting ≡ true)
      × (m.keep_alive_loops ≡ 0)
      × (m.reconnect_loops ≡ 1)

watched : {H : Type 0} (m : Manager H) → IsAlive m → m.started ≡ true → Watched m
watched m v s = elim (v.one_state s) [
  | inl (c, r) ↦ inl (c, r, ground (arith, v, c), ground (arith, v, r))
  | inr (c, r) ↦ inr (c, r, ground (arith, v, c), ground (arith, v, r))
]

-- The context that `Start` was given has not ended.
abbrev pub keeps_parent : {H : Type 0} → Call H → Bool
keeps_parent parent_ends = false
keeps_parent _ = true

module _ {H : Type 0} (parse : List ℕ → Result ℕ) where
  start-IsAlive : (m : Manager H) (d : Result ℕ) → IsAlive m → IsAlive (start d m).1
  unfolding start
  start-IsAlive m (ok c) v = ground arith
  start-IsAlive m (err e) v = ground arith

  tick-IsAlive :
      (m : Manager H) (run : ℕ → Result (List ℕ))
      → 0 < m.keep_alive_loops
      → IsAlive m
      → IsAlive (keep_alive_tick parse run m)
  unfolding keep_alive_tick
  tick-IsAlive m run l v = ground arith

  attempt-IsAlive :
      (m : Manager H) (d : Result ℕ)
      → 0 < m.reconnect_loops
      → IsAlive m
      → IsAlive (reconnect_attempt d m)
  unfolding reconnect_attempt
  attempt-IsAlive m (ok c) l v = ground arith
  attempt-IsAlive m (err e) l v = ground arith

  close-IsAlive : (m : Manager H) → IsAlive m → IsAlive (close m)
  unfolding close
  close-IsAlive m v = ground arith

  handlers-IsAlive :
      (m : Manager H) (h : Option H) (id : ℕ)
      → IsAlive m
      → IsAlive (register_handler h m).1 × IsAlive (unregister_handler id m)
  unfolding register_handler unregister_handler
  handlers-IsAlive m none id v = ground arith
  handlers-IsAlive m (some h) id v = ground arith

  step-IsAlive :
      (m : Manager H) (c : Call H) → keeps_parent c ≡ true → IsAlive m → IsAlive (step parse m c)
  unfolding step
  step-IsAlive m (starts d) k v = start-IsAlive m d v
  step-IsAlive m (ticks run) k v = ground (arith, tick-IsAlive m run)
  step-IsAlive m (retries d) k v = ground (arith, attempt-IsAlive m d)
  step-IsAlive m closes k v = close-IsAlive m v
  step-IsAlive m parent_ends k v = cc
  step-IsAlive m (registers h) k v = (handlers-IsAlive m h 0 v).0
  step-IsAlive m (unregisters id) k v = (handlers-IsAlive m none id v).1

  run_calls_from-IsAlive :
      (m : Manager H) (cs : List (Call H))
      → All (λ c. keeps_parent c ≡ true) cs
      → IsAlive m
      → IsAlive (run_calls parse m cs)
  unfolding run_calls
  run_calls_from-IsAlive m [] k v = v
  run_calls_from-IsAlive m (c ∷ cs) k v =
      run_calls_from-IsAlive (step parse m c) cs k.1 (step-IsAlive m c k.0 v)

  -- After any calls on a new manager, each of which runs to its end before the next, and as long as the context that `Start` was given has not ended: if the manager is started, it is either connected, with one keep-alive loop running and no reconnect loop, or reconnecting, with one reconnect loop running and no keep-alive loop.
  pub run_calls-Watched :
      (cfg : RouterConfig) (cs : List (Call H))
      → All (λ c. keeps_parent c ≡ true) cs
      → (run_calls parse (fresh cfg) cs).started ≡ true
      → Watched (run_calls parse (fresh cfg) cs)
  run_calls-Watched cfg cs k s =
      watched (run_calls parse (fresh cfg) cs)
        (run_calls_from-IsAlive (fresh cfg) cs k (ground arith)) s
