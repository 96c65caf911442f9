-- ===== src/Controller/Reconcile/Stuck.antt =====
-- internal/controller/publicipclaim_controller.go: claims on which a reconcile does nothing.
use cilium_dhcp_wanip_operat.Base.{
  ◌≡◌, refl, subst, ◌⊎◌, inl, inr, ◌*◌, String, Bool, true, false, Option, none, some, List, [],
  ◌∷◌, Text, lit, fmt, fmt_quoted, Result, ok, err, arith, is_empty, if◌then◌else◌,
}
use cilium_dhcp_wanip_operat.Base.Action.{continue, returns, fails, ◌>>=◌, ◌>>◌}
use cilium_dhcp_wanip_operat.Base.Dict.{lookup}
use cilium_dhcp_wanip_operat.Api.{Claim, ClaimPhase, ready, failed}
use cilium_dhcp_wanip_operat.Controller.Reconcile.{reconcile_claim, reconcile_live}
use cilium_dhcp_wanip_operat.Controller.Reconcile.Allocation.{
  allocate_unless_busy, by_phase, in_progress, interface_for, failed_status, fail, publish,
  assigned_status, after_ensure, add_to_pool, after_script, run_and_publish, allocate, mac_for,
  validate_and_allocate, missing_field,
}
use cilium_dhcp_wanip_operat.Controller.Reconcile.Deletion.{start_run}
use cilium_dhcp_wanip_operat.Controller.Reconcile.Calls.{
  Ops, Run, Outcome, done, requeue_after, minute, finalizer_name, event_annotation, Called, updated,
  status_updated, cleaned, removed_ip, ensured_ip, ran_script, got_manager, checked_interface,
  verified, emitted, is_ok, value_of, quietly, call_update_status, call_record_event,
}

-- A claim that is not being deleted, has the finalizer, and carries no router event.
pub record IsSettled {W M : Type 0} (ops : Ops W M) (c : Claim) : Type 0 where
  pub kept : c.deletion_timestamp ≡ none
  pub finalized : ops.contains_finalizer c.finalizers finalizer_name ≡ true
  pub quiet : lookup event_annotation c.annotations ≡ none

-- The phases in which a claim with an interface name counts as work in progress.
abbrev pub is_unfinished : ClaimPhase → Bool
is_unfinished ready = false
is_unfinished failed = false
is_unfinished _ = true

-- A settled claim that is Failed, or that has an interface name in an unfinished phase.
pub record Idle {W M : Type 0} (ops : Ops W M) (c : Claim) : Type 0 where
  pub settled : IsSettled ops c
  pub rests :
      (c.status.phase ≡ failed)
      ⊎ ((is_unfinished c.status.phase ≡ true) × (is_empty c.status.wan_interface ≡ false))

-- The claim as the last write of its status that succeeded has left it.
abbrev pub last_stored : List Called → Option Claim
last_stored [] = none
last_stored (status_updated c true ∷ calls) = some c
last_stored (status_updated c false ∷ calls) = last_stored calls
last_stored (updated c b ∷ calls) = last_stored calls
last_stored (cleaned c b ∷ calls) = last_stored calls
last_stored (removed_ip pool ip b ∷ calls) = last_stored calls
last_stored (ensured_ip pool ip b ∷ calls) = last_stored calls
last_stored (ran_script iface mac ip ∷ calls) = last_stored calls
last_stored (got_manager ∷ calls) = last_stored calls
last_stored (checked_interface iface ∷ calls) = last_stored calls
last_stored (verified ∷ calls) = last_stored calls
last_stored (emitted reason ∷ calls) = last_stored calls

-- A write of the status that succeeds gives back the claim that was written.
abbrev pub Echoes : {W M : Type 0} → Ops W M → Type 0
Echoes {W} ops =
    (d : Claim) (w : W)
    → ((ops.update_status d w).0 ≡ ok d) ⊎ ((e : Text) × ((ops.update_status d w).0 ≡ err e))

module _ {W M : Type 0} (ops : Ops W M) where
  -- A reconcile of a claim that is idle makes no call and changes nothing.
  reconcile_claim-Idle :
      (c : Claim) (r : Run W)
      → Idle ops c
      → (reconcile_claim ops c r ≡ (ok (requeue_after (5 * minute)), r))
        ⊎ (reconcile_claim ops c r ≡ (ok done, r))
  unfolding reconcile_claim reconcile_live allocate_unless_busy by_phase
  reconcile_claim-Idle c r i =
      let s = i.settled in
      elim i.rests [ inl p ↦ inl (ground (arith, s, p)) | inr p ↦ inr (ground (arith, s, p)) ]

  abbrev IsIdle : Option Claim → Type 0
  IsIdle none = Unit
  IsIdle (some c) = Idle ops c

  -- A run that ends with an error leaves the claim idle, if it has stored one.
  abbrev Rests : Result Outcome × Run W → Type 0
  Rests (ok o, r) = Unit
  Rests (err e, r) = IsIdle (last_stored r.calls)

  -- A claim whose work is in progress, and which stays idle if that is left.
  record Open (c : Claim) : Type 0 where
    settled : IsSettled ops c
    unfinished : is_unfinished c.status.phase ≡ true
    interface : is_empty c.status.wan_interface ≡ false

  Open-Idle : (c : Claim) → Open c → Idle ops c
  Open-Idle c o = record { settled = o.settled; rests = inr (o.unfinished, o.interface) }

  failed_status-Idle : (c : Claim) (e : Text) → IsSettled ops c → Idle ops (failed_status e c)
  failed_status-Idle c e s = record {
    settled = record { kept = s.kept; finalized = s.finalized; quiet = s.quiet };
    rests = inl refl;
  }

  failing-Rests :
      (d : Claim) (e : Text) (calls : List Called) (u : Result Claim × W)
      → Idle ops d
      → IsIdle (last_stored calls)
      → Rests (
          continue
            (u.0, record { world = u.1; calls = status_updated d (is_ok u.0) ∷ calls })
            (λ stored. fails e))
  failing-Rests d e calls (ok stored, w) i k = i
  failing-Rests d e calls (err x, w) i k = k

  fail-Rests :
      (c : Claim) (e : Text) (r : Run W)
      → IsSettled ops c
      → IsIdle (last_stored r.calls)
      → Rests (fail ops c e r)
  unfolding fail
  fail-Rests c e r s k =
      failing-Rests (failed_status e c) e r.calls (ops.update_status (failed_status e c) r.world)
        (failed_status-Idle c e s) k

  published-Rests :
      (ip : String) (d : Claim) (calls : List Called) (u : Result Claim × W)
      → IsIdle (last_stored calls)
      → Rests (
          continue
            (u.0, record { world = u.1; calls = status_updated d (is_ok u.0) ∷ calls })
            (λ stored.
              call_record_event ops stored "Normal" "ConfigurationApplied"
                (fmt "Configuration applied successfully for IP %s" (lit ip))
              >> returns (requeue_after (60 * minute))))
  published-Rests ip d calls (ok stored, w) k = tt
  published-Rests ip d calls (err x, w) k = k

  publish-Rests :
      (ip : String) (c : Claim) (r : Run W)
      → IsIdle (last_stored r.calls)
      → Rests (publish ops ip c r)
  unfolding publish
  publish-Rests ip c r k =
      let (now, w) = ops.now r.world in
      let d = assigned_status ops ip now c in published-Rests ip d r.calls (ops.update_status d w) k

  ensured-Rests :
      (ip : String) (c : Claim) (u : Result (Unit {0})) (r : Run W)
      → IsSettled ops c
      → IsIdle (last_stored r.calls)
      → Rests (after_ensure ops ip c u r)
  unfolding after_ensure
  ensured-Rests ip c (ok t) r s k = publish-Rests ip c r k
  ensured-Rests ip c (err e) r s k = fail-Rests c (fmt "ensure pool: %w" e) r s k

  add-Rests :
      (ip : String) (c : Claim) (r : Run W)
      → IsSettled ops c
      → IsIdle (last_stored r.calls)
      → Rests (add_to_pool ops ip c r)
  unfolding add_to_pool
  add-Rests ip c r s k =
      let (a, w) = ops.ensure_ip_in_pool c.spec.pool_name ip r.world in
      ensured-Rests ip c a
        (record { world = w; calls = ensured_ip c.spec.pool_name ip (is_ok a) ∷ r.calls }) s k

  script-Rests :
      (c : Claim) (a : Result String) (r : Run W)
      → IsSettled ops c
      → IsIdle (last_stored r.calls)
      → Rests (after_script ops c a r)
  unfolding after_script
  script-Rests c (err e) r s k = fail-Rests c (fmt "router script: %w" e) r s k
  script-Rests c (ok ip) r s k = parsed (ops.parses_ip ip)
    where
      parsed :
          (b : Bool)
          → Rests (
              (if b
                  then add_to_pool ops ip c
                  else fail ops c (fmt_quoted "invalid IP returned by router: %q" ip))
                r)
      parsed true = add-Rests ip c r s k
      parsed false = fail-Rests c (fmt_quoted "invalid IP returned by router: %q" ip) r s k

  stored-Rests :
      (wan mac : String) (d : Claim) (u : Result Claim × W)
      → Open d
      → (u.0 ≡ ok d) ⊎ ((e : Text) × (u.0 ≡ err e))
      → Rests (
          continue
            (u.0, record { world = u.1; calls = status_updated d (is_ok u.0) ∷ [] })
            (run_and_publish ops wan mac))
  unfolding run_and_publish
  stored-Rests wan mac d (err x, w) o e = tt
  stored-Rests wan mac d (ok stored, w) o e =
      let same : stored ≡ d = ground (arith, e) in
      let (a, w') = ops.run_router_script d wan mac w in
      rw same (
        script-Rests d a
          (record {
            world = w';
            calls = ran_script wan mac (value_of a) ∷ status_updated d true ∷ [];
          })
          o.settled (Open-Idle d o))

  -- The claim as it is before anything is done for it.
  pub record Starting (c : Claim) : Type 0 where
    pub settled : IsSettled ops c
    pub unfinished : is_unfinished c.status.phase ≡ true
    pub no_interface : is_empty c.status.wan_interface ≡ true
    pub named : is_empty (interface_for c) ≡ false

  progress-Rests :
      (mac : String) (c : Claim) (w : W)
      → Echoes ops
      → Starting c
      → Rests (
          (call_update_status ops (in_progress (interface_for c) mac c)
              >>= run_and_publish ops (interface_for c) mac)
            (start_run w))
  progress-Rests mac c w echo s =
      let d = in_progress (interface_for c) mac c in
      stored-Rests (interface_for c) mac d (ops.update_status d w)
        (record {
          settled = record {
            kept = s.settled.kept;
            finalized = s.settled.finalized;
            quiet = s.settled.quiet;
          };
          unfinished = s.unfinished;
          interface = s.named;
        })
        (echo d w)

  allocate-Rests :
      (c : Claim) (w : W) → Echoes ops → Starting c → Rests (allocate ops c (start_run w))
  unfolding allocate mac_for
  allocate-Rests c w echo s = drawn (is_empty c.spec.router.mac_address)
    where
      drawn :
          (b : Bool)
          → Rests (
              ((if b then quietly ops.generate_unique_mac else returns c.spec.router.mac_address)
                  >>= λ mac.
                      call_update_status ops (in_progress (interface_for c) mac c)
                      >>= run_and_publish ops (interface_for c) mac)
                (start_run w))
      drawn true = let (mac, w') = ops.generate_unique_mac w in progress-Rests mac c w' echo s
      drawn false = progress-Rests c.spec.router.mac_address c w echo s

  validated-Rests :
      (c : Claim) (w : W) (o : Option String)
      → Echoes ops
      → Starting c
      → Rests (validate_and_allocate ops c o (start_run w))
  unfolding validate_and_allocate
  validated-Rests c w none echo s = allocate-Rests c w echo s
  validated-Rests c w (some message) echo s = fail-Rests c (lit message) (start_run w) s.settled tt

  reconcile_claim-Starting :
      (c : Claim) (w : W)
      → Starting c
      → reconcile_claim ops c (start_run w)
        ≡ validate_and_allocate ops c (missing_field c.spec) (start_run w)
  unfolding reconcile_claim reconcile_live allocate_unless_busy by_phase
  reconcile_claim-Starting c w s = ground (arith, s, s.settled)

  rested :
      (p : Result Outcome × Run W) {d : Claim} {x : Text}
      → Rests p
      → p.0 ≡ err x
      → last_stored p.1.calls ≡ some d
      → Idle ops d
  rested (ok o, r) h e l = absurd (ground (arith, e))
  rested (err x, r) h e l = subst IsIdle l h

  -- With a server that stores the status that it is given or refuses it: if the first reconcile of a settled claim ends with an error, at whatever step, and has stored a status, then a later reconcile of the claim as it was stored makes no call and changes nothing: the allocation is never tried again.
  pub failed_allocation_stays :
      (c : Claim) (w : W) (later : Run W) {d : Claim} {x : Text}
      → Echoes ops
      → Starting c
      → (reconcile_claim ops c (start_run w)).0 ≡ err x
      → last_stored (reconcile_claim ops c (start_run w)).1.calls ≡ some d
      → (reconcile_claim ops d later ≡ (ok (requeue_after (5 * minute)), later))
        ⊎ (reconcile_claim ops d later ≡ (ok done, later))
  failed_allocation_stays c w later {d} echo s e l =
      let run = reconcile_claim ops c (start_run w) in
      let rests : Rests run =
        rw (reconcile_claim-Starting c w s) (validated-Rests c w (missing_field c.spec) echo s) in
      reconcile_claim-Idle d later (rested run rests e l)
