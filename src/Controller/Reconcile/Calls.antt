-- ===== src/Controller/Reconcile/Calls.antt =====
-- internal/controller/publicipclaim_controller.go: what `Reconcile` calls, and the record of its
-- calls. The API server, the event recorder and the helpers of apimachinery and controller-runtime
-- are parameters, and so are the four steps that have a hook (`runRouterScriptFn` and its kin), the
-- SSH manager and the verification, over the state `W` of all that they act on. `Controller.Wiring`
-- gives them the reconciler's own methods.
use cilium_dhcp_wanip_operat.Base.{
  ℕ, ◌*◌, String, Bool, Option, none, some, List, ◌∷◌, Text, Result, ok, err,
}
use cilium_dhcp_wanip_operat.Base.Action.{Action}
pub use cilium_dhcp_wanip_operat.Base.{is_ok}
pub use cilium_dhcp_wanip_operat.Base.Action.{attempt}
use cilium_dhcp_wanip_operat.Api.{Claim, Condition}

abbrev pub finalizer_name : String
finalizer_name = "serialx.net/cleanup-wan-interface"

abbrev pub event_annotation : String
event_annotation = "network.serialx.net/last-router-event"

abbrev pub event_reason_annotation : String
event_reason_annotation = "network.serialx.net/last-router-event-reason"

-- Durations in nanoseconds.
abbrev pub second : ℕ
second = 1000000000

abbrev pub minute : ℕ
minute = 60 * second

-- `ctrl.Result`: empty, `Requeue: true`, or `RequeueAfter`.
pub data Outcome : Type 0 where
  done : Outcome
  requeue : Outcome
  requeue_after : ℕ → Outcome

-- An answer to `r.Get`; `absent` is what `IgnoreNotFound` recognises.
pub data ClaimReply : Type 0 where
  found : Claim → ClaimReply
  absent : ClaimReply
  refused : Text → ClaimReply

-- An update returns the object as the server has stored it. `M` is the type of SSH managers;
-- `get_ssh_manager` and `verify_claim_state` also write to the claim that they are given.
pub record Ops (W M : Type 0) : Type 0 where
  pub get : String → String → W → ClaimReply × W
  pub update : Claim → Action W Claim
  pub update_status : Claim → Action W Claim
  pub cleanup_router_interface : Claim → Action W (Unit {0})
  pub remove_ip_from_pool : String → String → Action W (Unit {0})
  pub ensure_ip_in_pool : String → String → Action W (Unit {0})
  pub run_router_script : Claim → String → String → Action W String
  pub get_ssh_manager : Claim → W → (Result M × Claim) × W
  pub interface_exists : M → String → Action W Bool
  pub verify_claim_state : Claim → M → W → (Result (Unit {0}) × Claim) × W
  pub generate_unique_mac : W → String × W
  pub now : W → ℕ × W
  pub record_event : Claim → String → String → Text → W → W
  pub parses_ip : String → Bool
  pub contains_finalizer : List String → String → Bool
  pub add_finalizer : List String → String → List String
  pub remove_finalizer : List String → String → List String
  pub set_status_condition : Condition → List Condition → List Condition

-- A call that was made, with its arguments and whether it succeeded.
pub data Called : Type 0 where
  updated : Claim → Bool → Called
  status_updated : Claim → Bool → Called
  cleaned : Claim → Bool → Called
  removed_ip : String → String → Bool → Called
  ensured_ip : String → String → Bool → Called
  ran_script : String → String → Option String → Called
  got_manager : Called
  checked_interface : String → Called
  verified : Called
  emitted : String → Called

-- The state of the world, and the calls so far, the last first.
pub record Run (W : Type 0) : Type 0 where
  pub world : W
  pub calls : List Called

abbrev pub value_of : {A : Type 0} → Result A → Option A
value_of (ok a) = some a
value_of (err e) = none

module _ {W A : Type 0} where
  -- A call is made and recorded, and its error returned.
  abbrev pub calling : (Result A → Called) → Action W A → Action (Run W) A
  calling log m r = let (a, w) = m r.world in (a, record { world = w; calls = log a ∷ r.calls })

  -- A call that returns no error.
  abbrev pub always : (W → A × W) → Action W A
  always m w = let (a, w') = m w in (ok a, w')

  -- A call that is not recorded.
  abbrev pub quietly : (W → A × W) → Action (Run W) A
  quietly m r = let (a, w) = m r.world in (ok a, record r { world = w })

module _ {W M : Type 0} (ops : Ops W M) where
  abbrev pub call_update : Claim → Action (Run W) Claim
  call_update c = calling (λ a. updated c (is_ok a)) (ops.update c)

  abbrev pub call_update_status : Claim → Action (Run W) Claim
  call_update_status c = calling (λ a. status_updated c (is_ok a)) (ops.update_status c)

  abbrev pub call_remove_ip : String → String → Action (Run W) (Unit {0})
  call_remove_ip pool ip =
      calling (λ a. removed_ip pool ip (is_ok a)) (ops.remove_ip_from_pool pool ip)

  abbrev pub call_ssh_manager : Claim → Action (Run W) (Result M × Claim)
  call_ssh_manager c = calling (λ a. got_manager) (always (ops.get_ssh_manager c))

  abbrev pub call_record_event : Claim → String → String → Text → Action (Run W) (Unit {0})
  call_record_event c kind reason message =
      calling (λ a. emitted reason) (λ w. (ok tt, ops.record_event c kind reason message w))
