-- ===== src/Controller/Wiring/Deleted.antt =====
-- internal/controller/publicipclaim_controller.go: the deletion of a claim by the reconciler with its
-- own methods.
use cilium_dhcp_wanip_operat.Base.{
  ◌≡◌, refl, sym, subst, ap, ◌⊎◌, inl, inr, ℕ, Bool, true, false, some, Result, ok, err, arith,
  if_both, [], ◌∷◌, is_empty, if◌then◌else◌,
}
use cilium_dhcp_wanip_operat.Base.Action.{Action, continue, returns, ◌>>◌}
use cilium_dhcp_wanip_operat.Api.{Claim}
use cilium_dhcp_wanip_operat.Router.Connection.Calls.{AgentCalls}
use cilium_dhcp_wanip_operat.Controller.Pool.{default_remove_ip_from_pool}
use cilium_dhcp_wanip_operat.Controller.Tracking.{Tracking}
use cilium_dhcp_wanip_operat.Controller.Managers.{Managers}
use cilium_dhcp_wanip_operat.Controller.Cleanup.{default_cleanup_router_interface}
use cilium_dhcp_wanip_operat.Controller.Cleanup.Forgotten.{
  Forgotten, Untouched, Cleaned, moved-Forgotten, reachable, default_cleanup-Cleaned,
}
use cilium_dhcp_wanip_operat.Controller.Reconcile.{reconcile_claim}
use cilium_dhcp_wanip_operat.Controller.Reconcile.Branches.{handle_deletion}
use cilium_dhcp_wanip_operat.Controller.Reconcile.Calls.{
  Ops, Run, Outcome, Called, calling, done, finalizer_name, cleaned, removed_ip, updated, is_ok,
  call_update, call_remove_ip,
}
use cilium_dhcp_wanip_operat.Controller.Reconcile.Deletion.{start_run, unfinalized}
use cilium_dhcp_wanip_operat.Controller.Wiring.{Outside, outside, reconciler}

-- The maps and the registry are those of another state.
Moved : {W : Type 0} → Tracking W → Tracking W → Type 0
Moved u v = v ≡ record u { world = v.world }

Moved-refl : {W : Type 0} (u : Tracking W) → Moved u u
unfolding Moved
Moved-refl u = refl

module _ {W : Type 0} (u : Tracking W) where
  -- A part of a run that leaves them alone.
  Keeps : {A : Type 0} → Action (Run (Tracking W)) A → Type 0
  Keeps q = (s : Run (Tracking W)) → Moved u s.world → Moved u (q s).1.world

  continue-Moved :
      {A B : Type 0} (r : Result A × Run (Tracking W)) (n : Action (Run (Tracking W)) B)
      → Moved u r.1.world
      → Keeps n
      → Moved u (continue r (λ _. n)).1.world
  unfolding Keeps
  continue-Moved (ok a, s) n m k = k s m
  continue-Moved (err e, s) n m k = m

  then-Keeps :
      {A B : Type 0} (q : Action (Run (Tracking W)) A) (n : Action (Run (Tracking W)) B)
      → Keeps q
      → Keeps n
      → Keeps (q >> n)
  unfolding Keeps
  then-Keeps q n k l s m = continue-Moved (q s) n (k s m) l

  returns-Keeps : {A : Type 0} (a : A) → Keeps (returns a)
  unfolding Keeps
  returns-Keeps a s m = m

  outside-Keeps :
      {A : Type 0} (log : Result A → Called) (m : Action W A) → Keeps (calling log (outside m))
  unfolding Moved Keeps
  outside-Keeps log m s e =
      ap {A = Tracking W} {B = Tracking W} (λ t. record t { world = (m s.world.world).1 }) e

reconcile_deleted :
    {V M : Type 0} (ops : Ops V M) (c : Claim) (r : Run V) {k : ℕ}
    → c.deletion_timestamp ≡ some k
    → handle_deletion ops c r ≡ reconcile_claim ops c r
unfolding reconcile_claim
reconcile_deleted ops c r d = ground (arith, d)

module _ {W T O : Type 0} (out : Outside W O) (env : Managers W) (agents : AgentCalls W T)
    (c : Claim) where
  -- What follows the cleanup.
  rest-Keeps :
      (u : Tracking W)
      → Keeps u (
          (if is_empty c.status.assigned_ip
            then returns tt
            else call_remove_ip (reconciler out env agents) c.spec.pool_name c.status.assigned_ip)
          >> (call_update (reconciler out env agents) (unfinalized (reconciler out env agents) c)
              >> returns done))
  unfolding reconciler
  rest-Keeps u =
      then-Keeps u _ _
        (if_both (Keeps u) (is_empty c.status.assigned_ip) _ _ (returns-Keeps u tt) (
          outside-Keeps u (λ a. removed_ip c.spec.pool_name c.status.assigned_ip (is_ok a))
            (default_remove_ip_from_pool out.pools c.spec.pool_name c.status.assigned_ip)))
        (then-Keeps u _ _
          (outside-Keeps u (λ a. updated (unfinalized (reconciler out env agents) c) (is_ok a))
            (out.update (unfinalized (reconciler out env agents) c)))
          (returns-Keeps u done))

  deletion-Moved :
      (t : Tracking W)
      → out.contains_finalizer c.finalizers finalizer_name ≡ true
      → let u = (default_cleanup_router_interface env.keys agents c t).1 in
        Moved u (handle_deletion (reconciler out env agents) c (start_run t)).1.world
  unfolding handle_deletion reconciler
  deletion-Moved t f =
      let (r, u) = default_cleanup_router_interface env.keys agents c t in
      rw f (
        continue-Moved u (r, record { world = u; calls = cleaned c (is_ok r) ∷ [] }) _
          (Moved-refl u) (rest-Keeps u))

  cleanup_cases :
      (t u v : Tracking W) (b : Bool)
      → Cleaned env.keys agents c t (ok tt, u) b
      → Moved u v
      → (b ≡ true) × Forgotten c t v ⊎ (b ≡ false) × Untouched t v
  unfolding Moved
  cleanup_cases t u v true k e = inl (
    refl,
    subst (Forgotten c t) (sym e) (moved-Forgotten c t u t.world v.world (k.forgotten refl)),
  )
  cleanup_cases t u v false k e =
      let same = k.untouched refl in
      inr (
        refl,
        subst (Untouched t) (sym e) (record {
          registry = same.registry;
          same = λ j.
              let o = same.same j in
              record { handler = o.handler; manager = o.manager; router = o.router };
        }),
      )

  -- A claim that is being deleted and has the finalizer, whatever the reconciler's calls answer: if the agent of its router can be reached, its handler, its manager and its router are forgotten by the reconcile; if it cannot, the handler and the manager of the claim stay, also where the finalizer is removed, so that the claim is gone.
  pub deletion-forgets :
      (t : Tracking W) {k : ℕ}
      → c.deletion_timestamp ≡ some k
      → out.contains_finalizer c.finalizers finalizer_name ≡ true
      → let u = (reconcile_claim (reconciler out env agents) c (start_run t)).1.world in
        (reachable env.keys agents c t.world ≡ true) × Forgotten c t u
        ⊎ (reachable env.keys agents c t.world ≡ false) × Untouched t u
  deletion-forgets t d f =
      let u = (default_cleanup_router_interface env.keys agents c t).1 in
      let k = default_cleanup-Cleaned env.keys agents c t in
      subst
        (λ (r : Result Outcome × Run (Tracking W)).
          (reachable env.keys agents c t.world ≡ true) × Forgotten c t r.1.world
          ⊎ (reachable env.keys agents c t.world ≡ false) × Untouched t r.1.world)
        (reconcile_deleted (reconciler out env agents) c (start_run t) d)
        (cleanup_cases t u (handle_deletion (reconciler out env agents) c (start_run t)).1.world
          (reachable env.keys agents c t.world)
          (record {
            fine = refl;
            forgotten = k.forgotten;
            untouched = k.untouched;
            consistent = k.consistent;
          })
          (deletion-Moved t f))
