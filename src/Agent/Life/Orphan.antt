-- ===== src/Agent/Life/Orphan.antt =====
-- internal/agent/agent.go: a renewal goroutine that returns after another one was started for its
-- interface.
use cilium_dhcp_wanip_operat.Base.{
  ◌≡◌, refl, ◌∙◌, ap, false, none, some, List, [], ◌∷◌, ◌++◌, arith, eqb, ℕ, String, ◌/◌,
}
use cilium_dhcp_wanip_operat.Base.Dict.{lookup, lookup-delete_self}
use cilium_dhcp_wanip_operat.Agent.State.{Lease, Loop, Agent, Host}
use cilium_dhcp_wanip_operat.Agent.Store.{delete_lease, save}
use cilium_dhcp_wanip_operat.Agent.Allocation.{
  minute, cancel_found, stop_renewal_loop, start_renewal_loop, release_lease,
}
use cilium_dhcp_wanip_operat.Agent.Renewal.{without_loop, loop_returns}
use cilium_dhcp_wanip_operat.Agent.Life.{find_loop}

find-append :
    (n : ℕ) (xs : List Loop) (x : Loop)
    → x.number ≡ n
    → find_loop n xs ≡ none
    → find_loop n (xs ++ x ∷ []) ≡ some x
find-append n [] x e f = ground (arith, e)
find-append n (y ∷ ys) x e f = ground (arith, e, f, find-append n ys x e)

module _ {W L D : Type 0} (h : Host W L D) where
  find-without :
      (n k : ℕ) (xs : List Loop)
      → eqb n k ≡ false
      → find_loop k (without_loop h n xs) ≡ find_loop k xs
  find-without n k [] d = refl
  find-without n k (x ∷ xs) d = ground (arith, d, find-without n k xs d)

  -- A stop does nothing for an interface that has no cancel function.
  stop-none :
      (iface : String) (a : Agent W)
      → lookup iface a.renewal_cancels ≡ none
      → stop_renewal_loop iface a ≡ a
  unfolding stop_renewal_loop cancel_found
  stop-none iface a e = rw e refl

  -- If a loop of an interface returns only after a new loop was started for a lease of it, and the numbers of loops are used once, then after a release of the lease the new loop is still there, and it is not cancelled unless the agent is shut down.
  pub returning_loop_orphans :
      (old : Loop) (l m : Lease) (a : Agent W)
      → old.lease.iface ≡ l.iface
      → m.iface ≡ l.iface
      → eqb old.number a.started_loops ≡ false
      → find_loop a.started_loops a.loops ≡ none
      → let b = (release_lease h m (loop_returns h old (start_renewal_loop l a))).1 in
        find_loop a.started_loops b.loops
        ≡ some (record {
          number = a.started_loops;
          lease = l;
          cancelled = a.shut_down;
          backoff = minute;
          timer = l.lease_time / 2;
        })
  unfolding release_lease delete_lease save loop_returns start_renewal_loop
  returning_loop_orphans old l m a e g d f =
      let b = loop_returns h old (start_renewal_loop l a) in
      let stopped =
        ap (λ c. find_loop a.started_loops c.loops)
          (stop-none m.iface b
            (rw (g, e) (lookup-delete_self l.iface (start_renewal_loop l a).renewal_cancels))) in
      stopped
      ∙ find-without old.number a.started_loops (start_renewal_loop l a).loops d
      ∙ find-append a.started_loops a.loops _ refl f
