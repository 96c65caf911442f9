-- ===== src/Controller/Reconcile/Ordering.antt =====
-- internal/controller/publicipclaim_controller.go: what has been done before each outward step of
-- a reconcile, whatever the claim and whatever the calls answer.
use cilium_dhcp_wanip_operat.Base.{
  ◌≡◌, refl, String, Bool, true, false, Option, none, some, List, [], ◌∷◌, Text, lit, Result, ok,
  err, arith, inl, inr, is_empty, Result-cases, Bool-cases,
}
use cilium_dhcp_wanip_operat.Base.Action.{◌>>=◌, continue}
use cilium_dhcp_wanip_operat.Api.{Claim, ClaimPhase, ready}
use cilium_dhcp_wanip_operat.Controller.Reconcile.{reconcile_claim, reconcile_live}
use cilium_dhcp_wanip_operat.Controller.Reconcile.Branches.{
  handle_deletion, add_finalizer, handle_router_event, verify_ready,
}
use cilium_dhcp_wanip_operat.Controller.Reconcile.Allocation.{
  assigned_status, fail, publish, after_ensure, add_to_pool, after_script, run_and_publish,
  allocate, validate_and_allocate, by_phase, missing_field, allocate_unless_busy, in_progress,
  interface_for,
}
use cilium_dhcp_wanip_operat.Controller.Reconcile.Deletion.{start_run}
use cilium_dhcp_wanip_operat.Controller.Reconcile.Calls.{
  Ops, Run, Called, status_updated, ran_script, ensured_ip, call_update_status, is_ok, value_of,
}

-- The last call has persisted the interface name and the hardware address.
abbrev pub Persisted : String → String → List Called → Type 0
Persisted wan mac (status_updated c b ∷ rest) =
    (b ≡ true) × (c.status.wan_interface ≡ wan) × (c.status.mac_address ≡ mac)
Persisted wan mac _ = ⊥

-- The last call was a run of the router script that returned the address.
abbrev pub Returned : String → List Called → Type 0
Returned ip (ran_script wan mac (some ip') ∷ rest) = ip ≡ ip'
Returned ip _ = ⊥

-- The last call has put the address into the pool.
abbrev pub Ensured : String → List Called → Type 0
Ensured ip (ensured_ip pool ip' b ∷ rest) = (b ≡ true) × (ip ≡ ip')
Ensured ip _ = ⊥

-- What holds where a status is Ready and its address is not empty.
abbrev pub IfReady : ClaimPhase → Bool → Type 0 → Type 0
IfReady ready false P = P
IfReady _ _ P = Unit

module _ {W M : Type 0} (ops : Ops W M) where
  abbrev pub Guarded : List Called → Type 0
  Guarded [] = Unit
  Guarded (ran_script wan mac o ∷ rest) = Persisted wan mac rest × Guarded rest
  Guarded (ensured_ip pool ip b ∷ rest) =
      Returned ip rest × (ops.parses_ip ip ≡ true) × Guarded rest
  Guarded (status_updated c b ∷ rest) =
      IfReady c.status.phase (is_empty c.status.assigned_ip) (Ensured c.status.assigned_ip rest)
      × Guarded rest
  Guarded (_ ∷ rest) = Guarded rest

  fail-Guarded :
      (c : Claim) (e : Text) (r : Run W) → Guarded r.calls → Guarded (fail ops c e r).1.calls
  unfolding fail
  fail-Guarded c e r g = ground arith

  publish-Guarded :
      (ip : String) (c : Claim) (r : Run W)
      → Ensured ip r.calls
      → Guarded r.calls
      → Guarded (publish ops ip c r).1.calls
  unfolding publish
  publish-Guarded ip c r e g =
      let (now, w) = ops.now r.world in
      let guarded : IfReady ready (is_empty ip) (Ensured ip r.calls) × Guarded r.calls =
        (if_ready (is_empty ip) e, g) in
      elim (Result-cases (ops.update_status (assigned_status ops ip now c) w).0) [
        | inl (a, h) ↦ rw (h, ◌>>=◌) guarded
        | inr (x, h) ↦ rw (h, ◌>>=◌) guarded
      ]
    where
      if_ready : (b : Bool) → Ensured ip r.calls → IfReady ready b (Ensured ip r.calls)
      if_ready true h = tt
      if_ready false h = h

  add-Guarded :
      (ip : String) (c : Claim) (r : Run W)
      → Returned ip r.calls
      → ops.parses_ip ip ≡ true
      → Guarded r.calls
      → Guarded (add_to_pool ops ip c r).1.calls
  unfolding add_to_pool after_ensure
  add-Guarded ip c r e p g =
      let (a, w) = ops.ensure_ip_in_pool c.spec.pool_name ip r.world in ensured a w
    where
      ensured :
          (a : Result (Unit {0})) (w : W)
          → Guarded
              (after_ensure ops ip c a (record {
                world = w;
                calls = ensured_ip c.spec.pool_name ip (is_ok a) ∷ r.calls;
              })).1.calls
      ensured (ok u) w = publish-Guarded ip c _ (ground arith) (e, p, g)
      ensured (err x) w = fail-Guarded c _ _ (e, p, g)

  run-Guarded :
      (wan mac : String) (c : Claim) (r : Run W)
      → Persisted wan mac r.calls
      → Guarded r.calls
      → Guarded (run_and_publish ops wan mac c r).1.calls
  unfolding run_and_publish after_script
  run-Guarded wan mac c r p g = let (a, w) = ops.run_router_script c wan mac r.world in ran a w
    where
      ran :
          (a : Result String) (w : W)
          → Guarded
              (after_script ops c a
                (record { world = w; calls = ran_script wan mac (value_of a) ∷ r.calls })).1.calls
      ran (ok ip) w = elim (Bool-cases (ops.parses_ip ip)) [
        | inl v ↦ rw v (add-Guarded ip c _ (ground arith) v (p, g))
        | inr v ↦ rw v (fail-Guarded c _ _ (p, g))
      ]
      ran (err x) w = fail-Guarded c _ _ (p, g)

  allocate_with-Guarded :
      (c : Claim) (mac : String) (w : W)
      → IfReady c.status.phase (is_empty c.status.assigned_ip) ⊥
      → Guarded
          (((call_update_status ops (in_progress (interface_for c) mac c))
              >>= run_and_publish ops (interface_for c) mac)
            (start_run w)).1.calls
  allocate_with-Guarded c mac w h =
      let (a, w') = ops.update_status (in_progress (interface_for c) mac c) w in stored a w'
    where
      guarded :
          (p : ClaimPhase) (b : Bool)
          → IfReady p b ⊥
          → IfReady p b (Ensured c.status.assigned_ip [])
      guarded ready false k = absurd k
      guarded ready true k = tt
      guarded _ b k = tt

      stored :
          (a : Result Claim) (w' : W)
          → Guarded
              (continue
                (
                  a,
                  record {
                    world = w';
                    calls = status_updated (in_progress (interface_for c) mac c) (is_ok a) ∷ [];
                  },
                )
                (run_and_publish ops (interface_for c) mac)).1.calls
      stored (ok d) w' =
          run-Guarded (interface_for c) mac d _ (refl, refl, refl)
            (guarded c.status.phase (is_empty c.status.assigned_ip) h, tt)
      stored (err e) w' = (guarded c.status.phase (is_empty c.status.assigned_ip) h, tt)

  allocate-Guarded :
      (c : Claim) (w : W)
      → IfReady c.status.phase (is_empty c.status.assigned_ip) ⊥
      → Guarded (allocate ops c (start_run w)).1.calls
  unfolding allocate
  allocate-Guarded c w h = elim (Bool-cases (is_empty c.spec.router.mac_address)) [
    | inl e ↦
        rw e (allocate_with-Guarded c (ops.generate_unique_mac w).0 (ops.generate_unique_mac w).1 h)
    | inr e ↦ rw e (allocate_with-Guarded c c.spec.router.mac_address w h)
  ]

  validated-Guarded :
      (c : Claim) (o : Option String) (w : W)
      → IfReady c.status.phase (is_empty c.status.assigned_ip) ⊥
      → Guarded (validate_and_allocate ops c o (start_run w)).1.calls
  unfolding validate_and_allocate
  validated-Guarded c (some message) w h = fail-Guarded c (lit message) (start_run w) tt
  validated-Guarded c none w h = allocate-Guarded c w h

  busy-Guarded :
      (c : Claim) (w : W)
      → IfReady c.status.phase (is_empty c.status.assigned_ip) ⊥
      → Guarded (allocate_unless_busy ops c (start_run w)).1.calls
  unfolding allocate_unless_busy by_phase
  busy-Guarded c w h = ground (arith, validated-Guarded c (missing_field c.spec) w h)

  event-Guarded : (c : Claim) (w : W) → Guarded (handle_router_event ops c (start_run w)).1.calls
  unfolding handle_router_event
  event-Guarded c w = ground arith

  verify-Guarded : (c : Claim) (w : W) → Guarded (verify_ready ops c (start_run w)).1.calls
  unfolding verify_ready
  verify-Guarded c w = ground arith

  deletion-Guarded : (c : Claim) (w : W) → Guarded (handle_deletion ops c (start_run w)).1.calls
  unfolding handle_deletion
  deletion-Guarded c w = ground arith

  -- Whatever the claim that a reconcile reads and whatever its calls answer: the router script runs only directly after the interface name and the hardware address that it is given were persisted in the status; an address is put into the pool only directly after the script returned it, and only if it parses; and a status that is Ready with an address that is not empty is written only directly after that address was put into the pool.
  pub reconcile-Guarded :
      (c : Claim) (w : W) → Guarded (reconcile_claim ops c (start_run w)).1.calls
  unfolding reconcile_claim reconcile_live add_finalizer
  reconcile-Guarded c w =
      ground (arith, busy-Guarded c w, event-Guarded c w, verify-Guarded c w, deletion-Guarded c w)
