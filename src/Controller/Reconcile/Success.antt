-- ===== src/Controller/Reconcile/Success.antt =====
-- internal/controller/publicipclaim_controller.go: an allocation that succeeds.
use cilium_dhcp_wanip_operat.Base.{
  ◌≡◌, refl, ℕ, ◌*◌, String, true, false, some, List, [], ◌∷◌, Text, fmt_quoted, Result, ok, err,
  arith, is_empty, inl, inr, Bool-cases,
}
use cilium_dhcp_wanip_operat.Base.Action.{◌>>=◌, continue}
use cilium_dhcp_wanip_operat.Api.{Claim}
use cilium_dhcp_wanip_operat.Controller.Reconcile.Allocation.{
  fail, publish, after_ensure, add_to_pool, after_script, run_and_publish, allocate,
  assigned_status, in_progress, interface_for,
}
use cilium_dhcp_wanip_operat.Controller.Reconcile.Calls.{
  Ops, Run, Outcome, requeue_after, minute, Called, emitted, status_updated, ensured_ip, ran_script,
  is_ok, value_of, call_update_status,
}
use cilium_dhcp_wanip_operat.Controller.Reconcile.Deletion.{start_run}

module _ {W M : Type 0} (ops : Ops W M) where
  -- The calls of an allocation from a status that has been persisted.
  pub record Published (wan mac : String) (c : Claim) (before : List Called) (o : Outcome)
      (calls : List Called) : Type 0 where
    pub ip : String
    pub time : ℕ
    pub parsed : ops.parses_ip ip ≡ true
    pub due : o ≡ requeue_after (60 * minute)
    pub made :
        calls
        ≡ emitted "ConfigurationApplied"
          ∷ status_updated (assigned_status ops ip time c) true
          ∷ ensured_ip c.spec.pool_name ip true
          ∷ ran_script wan mac (some ip)
          ∷ before

  publish_ok :
      (ip : String) (c : Claim) (r : Run W) {o : Outcome}
      → (publish ops ip c r).0 ≡ ok o
      → (o ≡ requeue_after (60 * minute))
        × ((publish ops ip c r).1.calls
            ≡ emitted "ConfigurationApplied"
              ∷ status_updated (assigned_status ops ip (ops.now r.world).0 c) true
              ∷ r.calls)
  unfolding publish
  publish_ok ip c r h = ground arith

  fail_not_ok : (c : Claim) (e : Text) (r : Run W) {o : Outcome} → (fail ops c e r).0 ≡ ok o → ⊥
  unfolding fail
  fail_not_ok c e r h = ground arith

  add_ok :
      (ip : String) (c : Claim) (r : Run W) {o : Outcome}
      → (add_to_pool ops ip c r).0 ≡ ok o
      → (o ≡ requeue_after (60 * minute))
        × (time : ℕ) × ((add_to_pool ops ip c r).1.calls
            ≡ emitted "ConfigurationApplied"
              ∷ status_updated (assigned_status ops ip time c) true
              ∷ ensured_ip c.spec.pool_name ip true
              ∷ r.calls)
  unfolding add_to_pool after_ensure
  add_ok ip c r {o} h =
      let (a, w) = ops.ensure_ip_in_pool c.spec.pool_name ip r.world in ensured a w h
    where
      after : Result (Unit {0}) → W → Run W
      after a w = record { world = w; calls = ensured_ip c.spec.pool_name ip (is_ok a) ∷ r.calls }

      ensured :
          (a : Result (Unit {0})) (w : W)
          → (after_ensure ops ip c a (after a w)).0 ≡ ok o
          → (o ≡ requeue_after (60 * minute))
            × (time : ℕ) × ((after_ensure ops ip c a (after a w)).1.calls
                ≡ emitted "ConfigurationApplied"
                  ∷ status_updated (assigned_status ops ip time c) true
                  ∷ ensured_ip c.spec.pool_name ip true
                  ∷ r.calls)
      ensured (ok u) w k =
          let (due, made) = publish_ok ip c (after (ok u) w) k in (due, (ops.now w).0, made)
      ensured (err e) w k = absurd (fail_not_ok c _ (after (err e) w) k)

  script_ok :
      (wan mac : String) (c : Claim) (r : Run W) {o : Outcome}
      → (run_and_publish ops wan mac c r).0 ≡ ok o
      → Published wan mac c r.calls o (run_and_publish ops wan mac c r).1.calls
  unfolding run_and_publish after_script
  script_ok wan mac c r {o} h = let (a, w) = ops.run_router_script c wan mac r.world in ran a w h
    where
      after : Result String → W → Run W
      after a w = record { world = w; calls = ran_script wan mac (value_of a) ∷ r.calls }

      ran :
          (a : Result String) (w : W)
          → (after_script ops c a (after a w)).0 ≡ ok o
          → Published wan mac c r.calls o (after_script ops c a (after a w)).1.calls
      ran (err e) w k = absurd (fail_not_ok c _ (after (err e) w) k)
      ran (ok ip) w k = elim (Bool-cases (ops.parses_ip ip)) [
        | inl v ↦
            let k' : (add_to_pool ops ip c (after (ok ip) w)).0 ≡ ok o = rw v at k in
            let (due, time, made) = add_ok ip c (after (ok ip) w) k' in
            record { ip = ip; time = time; parsed = v; due = due; made = rw v made }
        | inr v ↦
            let k' : (fail ops c (fmt_quoted "invalid IP returned by router: %q" ip)
                  (after (ok ip) w)).0
                ≡ ok o =
              rw v at k in
            absurd (fail_not_ok c _ (after (ok ip) w) k')
      ]

  -- The calls of an allocation, with the claim as the server has stored it before the script.
  pub record Allocated (c : Claim) (o : Outcome) (calls : List Called) : Type 0 where
    pub mac : String
    pub stored : Claim
    pub given : is_empty c.spec.router.mac_address ≡ false → mac ≡ c.spec.router.mac_address
    pub published :
        Published
          (interface_for c)
          mac
          stored
          (status_updated (in_progress (interface_for c) mac c) true ∷ [])
          o
          calls

  with_mac :
      (mac : String) (c : Claim) (w : W)
      → (is_empty c.spec.router.mac_address ≡ false → mac ≡ c.spec.router.mac_address)
      → {o : Outcome}
      → ((call_update_status ops (in_progress (interface_for c) mac c)
            >>= run_and_publish ops (interface_for c) mac)
          (start_run w)).0
        ≡ ok o
      → Allocated c o
          ((call_update_status ops (in_progress (interface_for c) mac c)
              >>= run_and_publish ops (interface_for c) mac)
            (start_run w)).1.calls
  with_mac mac c w g {o} h =
      let (a, w') = ops.update_status (in_progress (interface_for c) mac c) w in stored a w' h
    where
      after : Result Claim → W → Run W
      after a w' = record {
        world = w';
        calls = status_updated (in_progress (interface_for c) mac c) (is_ok a) ∷ [];
      }

      stored :
          (a : Result Claim) (w' : W)
          → (continue (a, after a w') (run_and_publish ops (interface_for c) mac)).0 ≡ ok o
          → Allocated c o
              (continue (a, after a w') (run_and_publish ops (interface_for c) mac)).1.calls
      stored (ok d) w' k = record {
        mac = mac;
        stored = d;
        given = g;
        published = script_ok (interface_for c) mac d (after (ok d) w') k;
      }
      stored (err e) w' k = cc

  -- An allocation that ends without an error has made exactly these calls: the status was written with the interface and the hardware address, which is that of the spec if it has one, the script ran with them and returned an address that parses, this address was put into the pool of the claim as stored, the Ready status with the address was written, and the event recorded; the next verification is due in an hour.
  pub allocate_ok :
      (c : Claim) (w : W) {o : Outcome}
      → (allocate ops c (start_run w)).0 ≡ ok o
      → Allocated c o (allocate ops c (start_run w)).1.calls
  unfolding allocate
  allocate_ok c w {o} h = elim (Bool-cases (is_empty c.spec.router.mac_address)) [
    | inl e ↦ rw e (
        with_mac (ops.generate_unique_mac w).0 c (ops.generate_unique_mac w).1
          (λ n. ground (arith, n, e)) (rw e at h))
    | inr e ↦ rw e (with_mac c.spec.router.mac_address c w (λ n. refl) (rw e at h))
  ]
