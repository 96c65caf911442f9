-- ===== src/Controller/Reconcile/Allocation.antt =====
-- internal/controller/publicipclaim_controller.go: the rest of `Reconcile`, which allocates an
-- address for a claim that has none, and `fail`.

use cilium_dhcp_wanip_operat.Base.{
  ℕ, ◌*◌, String, true, Option, none, some, Text, lit, fmt, fmt_quoted, Result, ok, err, is_empty,
  if◌then◌else◌,
}
use cilium_dhcp_wanip_operat.Base.Action.{Action, returns, fails, ◌>>=◌, ◌>>◌}
use cilium_dhcp_wanip_operat.Api.{
  Claim, ClaimSpec, ClaimPhase, ready, failed, condition_true, condition_ready,
}
use cilium_dhcp_wanip_operat.Controller.Names.{generated_interface}
use cilium_dhcp_wanip_operat.Controller.Reconcile.Calls.{
  Ops, Run, Outcome, done, requeue_after, minute, ensured_ip, ran_script, is_ok, value_of, calling,
  quietly, attempt, call_update_status, call_record_event,
}

-- The first required field that is empty, in the order of the checks.
abbrev pub missing_field : ClaimSpec → Option String
missing_field s =
    if is_empty s.pool_name
    then some "spec.poolName is required"
    else if is_empty s.router.host
    then some "spec.router.host is required"
    else if is_empty s.router.ssh_secret_ref
    then some "spec.router.sshSecretRef is required"
    else if is_empty s.router.user
    then some "spec.router.user is required"
    else if is_empty s.router.wan_parent
    then some "spec.router.wanParent is required"
    else if is_empty s.router.command
    then some "spec.router.command is required"
    else none

abbrev pub failed_status : Text → Claim → Claim
failed_status e c = record c { status = record c.status { phase = failed; message = e } }

-- The interface of the spec, or a generated one.
abbrev pub interface_for : Claim → String
interface_for c =
    if is_empty c.spec.router.wan_interface
    then generated_interface c.name
    else c.spec.router.wan_interface

abbrev pub in_progress : String → String → Claim → Claim
in_progress wan_if mac c = record c {
  status = record c.status { wan_interface = wan_if; mac_address = mac };
}

module _ {W M : Type 0} (ops : Ops W M) where
  unfoldable pub fail : Claim → Text → Action (Run W) Outcome
  fail c e = do call_update_status ops (failed_status e c); fails e

  unfoldable pub mac_for : Claim → Action (Run W) String
  mac_for c =
      if is_empty c.spec.router.mac_address
      then quietly ops.generate_unique_mac
      else returns c.spec.router.mac_address

  -- The status of a claim that has its address.
  abbrev pub assigned_status : String → ℕ → Claim → Claim
  assigned_status ip now c = record c {
    status = record c.status {
      assigned_ip = ip;
      phase = ready;
      message = lit "Assigned";
      last_reconciliation_reason = "configuration_applied";
      last_verified = some now;
      configuration_verified = true;
      conditions =
          ops.set_status_condition
            (record {
              type = condition_ready;
              status = condition_true;
              reason = "ConfigurationApplied";
              message = lit "Configuration applied successfully";
              observed_generation = c.generation;
            })
            c.status.conditions;
    };
  }

  unfoldable pub publish : String → Claim → Action (Run W) Outcome
  publish ip c = do
    now ← quietly ops.now
    stored ← call_update_status ops (assigned_status ip now c)
    call_record_event ops stored "Normal" "ConfigurationApplied"
        (fmt "Configuration applied successfully for IP %s" (lit ip))
    returns (requeue_after (60 * minute))

  unfoldable pub after_ensure : String → Claim → Result (Unit {0}) → Action (Run W) Outcome
  after_ensure ip c (err e) = fail c (fmt "ensure pool: %w" e)
  after_ensure ip c (ok u) = publish ip c

  unfoldable pub add_to_pool : String → Claim → Action (Run W) Outcome
  add_to_pool ip c = do
    ensured ← attempt (
        calling (λ a. ensured_ip c.spec.pool_name ip (is_ok a))
          (ops.ensure_ip_in_pool c.spec.pool_name ip))
    after_ensure ip c ensured

  unfoldable pub after_script : Claim → Result String → Action (Run W) Outcome
  after_script c (err e) = fail c (fmt "router script: %w" e)
  after_script c (ok ip) =
      if ops.parses_ip ip
      then add_to_pool ip c
      else fail c (fmt_quoted "invalid IP returned by router: %q" ip)

  -- Everything from the persisted work in progress on.
  unfoldable pub run_and_publish : String → String → Claim → Action (Run W) Outcome
  run_and_publish wan_if mac c = do
    script ←
        attempt
          (calling (λ a. ran_script wan_if mac (value_of a)) (ops.run_router_script c wan_if mac))
    after_script c script

  unfoldable pub allocate : Claim → Action (Run W) Outcome
  unfolding mac_for
  allocate c = do
    let wan_if = interface_for c
    mac ← mac_for c
    stored ← call_update_status ops (in_progress wan_if mac c)
    run_and_publish wan_if mac stored

  unfoldable pub validate_and_allocate : Claim → Option String → Action (Run W) Outcome
  validate_and_allocate c (some message) = fail c (lit message)
  validate_and_allocate c none = allocate c

  unfoldable pub by_phase : Claim → ClaimPhase → Action (Run W) Outcome
  unfolding validate_and_allocate
  by_phase c failed = returns (requeue_after (5 * minute))
  by_phase c _ =
      if is_empty c.status.wan_interface
      then validate_and_allocate c (missing_field c.spec)
      else returns done

  -- Work in progress is left alone, and so is a failed claim.
  unfoldable pub allocate_unless_busy : Claim → Action (Run W) Outcome
  unfolding by_phase
  allocate_unless_busy c = by_phase c c.status.phase
