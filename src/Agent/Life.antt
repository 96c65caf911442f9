-- ===== src/Agent/Life.antt =====
-- internal/agent/agent.go: what happens to the agent while it runs: a request, a timer, the end of
-- a renewal goroutine. A goroutine that was cancelled may still take its timer first.
pub mod Stored
pub mod Served
pub mod Renewed
pub mod Sound
pub mod Orphan
mod Samples
use cilium_dhcp_wanip_operat.Base.{ℕ, Option, none, some, List, [], ◌∷◌, Result, eqb, if◌then◌else◌}
use cilium_dhcp_wanip_operat.Agent.State.{Loop, Agent, Host}
use cilium_dhcp_wanip_operat.Agent.Handlers.{LeaseRequest, Route, serve}
use cilium_dhcp_wanip_operat.Agent.Renewal.{tick, loop_returns}
use cilium_dhcp_wanip_operat.Agent.Server.{start_agent, shutdown}

-- Loops by their numbers; `shuts_down` names the loops that return while it waits.
pub data Occurrence (B : Type 0) : Type 0 where
  starts : Occurrence B
  request : Route B → Occurrence B
  timer_fires : ℕ → Occurrence B
  ends : ℕ → Occurrence B
  shuts_down : List Loop → Occurrence B

abbrev pub find_loop : ℕ → List Loop → Option Loop
find_loop n [] = none
find_loop n (x ∷ xs) = let rest = find_loop n xs in if eqb x.number n then some x else rest

module _ {W L D : Type 0} (h : Host W L D) where
  -- The loop with a number, if there is one.
  unfoldable pub tick_found : Option Loop → Agent W → Agent W
  unfolding tick
  tick_found none a = a
  tick_found (some x) a = tick h x a

  unfoldable pub end_found : Option Loop → Agent W → Agent W
  unfolding loop_returns
  end_found none a = a
  end_found (some x) a = if x.cancelled then loop_returns h x a else a

  unfoldable pub happen :
      {B : Type 0} → (B → Result LeaseRequest) → Occurrence B → Agent W → Agent W
  unfolding start_agent serve tick_found end_found shutdown
  happen decode starts a = start_agent h a
  happen decode (request route) a = (serve h decode route a).1
  happen decode (timer_fires n) a = tick_found (find_loop n a.loops) a
  happen decode (ends n) a = end_found (find_loop n a.loops) a
  happen decode (shuts_down ended) a = shutdown h ended a

  unfoldable pub run_agent :
      {B : Type 0} → (B → Result LeaseRequest) → List (Occurrence B) → Agent W → Agent W
  unfolding happen
  run_agent decode [] a = a
  run_agent decode (o ∷ os) a = run_agent decode os (happen decode o a)
