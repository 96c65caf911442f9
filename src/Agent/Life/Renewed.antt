-- ===== src/Agent/Life/Renewed.antt =====
-- internal/agent/agent.go: the renewals, and the start and the end of the agent, keep every lease of
-- the agent sound.
use cilium_dhcp_wanip_operat.Base.{
  refl, true, false, Bool, Option, none, some, List, [], ◌∷◌, All, Result, ok, err, if_both,
}
use cilium_dhcp_wanip_operat.Base.Gives.{Of}
use cilium_dhcp_wanip_operat.Agent.State.{stale, Lease, LeaseInfo, Loop, Agent, Host, in_world}
use cilium_dhcp_wanip_operat.Agent.Dhcp.Terms.{Usable}
use cilium_dhcp_wanip_operat.Agent.Store.{list, verify_interface_exists}
use cilium_dhcp_wanip_operat.Agent.Renewal.{
  extended, renewed, renew_lease, rebound, rebind_lease, after_rebind, after_renew, renewal_round,
  tick, loop_returns, after_check, check_found, verify_each, verify_leases,
}
use cilium_dhcp_wanip_operat.Agent.Server.{start_agent, return_each, cancelled_loop, shutdown}
use cilium_dhcp_wanip_operat.Agent.Life.{tick_found, end_found}
use cilium_dhcp_wanip_operat.Agent.Life.Stored.{
  Sound, Fine, Found, list-All, replace-All, without-All, map-All, start-Fine, set-Fine,
}
use cilium_dhcp_wanip_operat.Agent.Life.Served.{UsableHost}

-- A lease and the agent after a step of its loop.
abbrev Both : {W : Type 0} → Lease → Agent W → Type 0
Both l a = Sound l × Fine a

module _ {W : Type 0} where
  elsewhere : (a : Agent W) (w : W) → Fine a → Fine (record a { world = w })
  elsewhere a w f = record { leases = f.leases; loops = f.loops }

module _ {W L D : Type 0} (h : Host W L D) (u : UsableHost h) where
  renewed-Both :
      (l : Lease) (r : Result LeaseInfo × Agent W)
      → Sound l
      → Of Usable r.0
      → Fine r.1
      → Both (renewed h l r).0.1 (renewed h l r).1
  unfolding renewed
  renewed-Both l (err e, a) s i f = (s, f)
  renewed-Both l (ok info, a) s i f =
      let (now, w) = h.now a.world in
      let t : Sound (extended now info l) = record {
        address = s.address;
        server = s.server;
        time = i.time;
      } in
      (t, set-Fine h _ _ t (elsewhere a w f))

  rebound-Both :
      (l : Lease) (r : Result LeaseInfo × Agent W)
      → Sound l
      → Of Usable r.0
      → Fine r.1
      → Both (rebound h l r).0.1 (rebound h l r).1
  unfolding rebound
  rebound-Both l (err e, a) s i f = (s, f)
  rebound-Both l (ok info, a) s i f =
      let (now, w) = h.now a.world in
      let t : Sound (record (extended now info l) { dhcp_server_ip = info.dhcp_server_ip }) =
        record { address = s.address; server = i.server; time = i.time } in
      (t, set-Fine h _ _ t (elsewhere a w f))

  stale-Sound : (l : Lease) → Sound l → Sound (record l { status = stale })
  stale-Sound l s = record { address = s.address; server = s.server; time = s.time }

  after_rebind-Both :
      (loop : Loop) (r : (Result (Unit {0}) × Lease) × Agent W)
      → Both r.0.1 r.1
      → Both (after_rebind h loop r).0.lease (after_rebind h loop r).1
  unfolding after_rebind
  after_rebind-Both loop ((ok t, l), a) b = b
  after_rebind-Both loop ((err e, l), a) b =
      (stale-Sound l b.0, set-Fine h _ a (stale-Sound l b.0) b.1)

  after_renew-Both :
      (loop : Loop) (r : (Result (Unit {0}) × Lease) × Agent W)
      → Both r.0.1 r.1
      → Both (after_renew h loop r).0.lease (after_renew h loop r).1
  unfolding after_renew rebind_lease
  after_renew-Both loop ((ok t, l), a) b = b
  after_renew-Both loop ((err e, l), a) b = after_rebind-Both loop (rebind_lease h l a) (
      rebound-Both l (in_world (h.rebind_lease l) a) b.0 (u.rebound l a.world b.0)
        (elsewhere a _ b.1))

  round-Both :
      (loop : Loop) (a : Agent W)
      → Both loop.lease a
      → Both (renewal_round h loop a).0.lease (renewal_round h loop a).1
  unfolding renewal_round renew_lease
  round-Both loop a b = after_renew-Both loop (renew_lease h loop.lease a) (
      renewed-Both loop.lease (in_world (h.renew_lease loop.lease) a) b.0
        (u.renewed loop.lease a.world b.0) (elsewhere a _ b.1))

  pub tick-Fine : (o : Option Loop) (a : Agent W) → Found o → Fine a → Fine (tick_found h o a)
  unfolding tick_found tick
  tick-Fine none a s f = f
  tick-Fine (some x) a s f =
      let b = round-Both x a (s, f) in
      record { leases = b.1.leases; loops = replace-All h _ _ b.0 b.1.loops }

  returns-Fine : (x : Loop) (a : Agent W) → Fine a → Fine (loop_returns h x a)
  unfolding loop_returns
  returns-Fine x a f = record { leases = f.leases; loops = without-All h x.number a.loops f.loops }

  pub end-Fine : (o : Option Loop) (a : Agent W) → Fine a → Fine (end_found h o a)
  unfolding end_found
  end-Fine none a f = f
  end-Fine (some x) a f = if_both Fine x.cancelled _ _ (returns-Fine x a f) f

  return_each-Fine : (xs : List Loop) (a : Agent W) → Fine a → Fine (return_each h xs a)
  unfolding return_each
  return_each-Fine [] a f = f
  return_each-Fine (x ∷ xs) a f = return_each-Fine xs _ (returns-Fine x a f)

  pub shutdown-Fine : (ended : List Loop) (a : Agent W) → Fine a → Fine (shutdown h ended a)
  unfolding shutdown
  shutdown-Fine ended a f =
      return_each-Fine ended _
        (record { leases = f.leases; loops = map-All cancelled_loop a.loops (λ x. refl) f.loops })

  checked-Fine :
      (l : Lease) (r : Result LeaseInfo × Agent W)
      → Sound l
      → Of Usable r.0
      → Fine r.1
      → Fine (after_check h l r)
  unfolding after_check
  checked-Fine l (err e, a) s i f = set-Fine h _ a (stale-Sound l s) f
  checked-Fine l (ok info, a) s i f =
      let (now, w) = h.now a.world in
      let t : Sound (extended now info l) = record {
        address = s.address;
        server = s.server;
        time = i.time;
      } in
      start-Fine _ _ t (set-Fine h _ _ t (elsewhere a w f))

  found-Fine :
      (l : Lease) (r : Result Bool × Agent W) → Sound l → Fine r.1 → Fine (check_found h l r)
  unfolding check_found
  found-Fine l (err e, a) s f = f
  found-Fine l (ok false, a) s f =
      set-Fine h _ a (record { address = s.address; server = s.server; time = s.time }) f
  found-Fine l (ok true, a) s f =
      let seen : Lease = record l { interface_exists = true } in
      let t : Sound seen = record { address = s.address; server = s.server; time = s.time } in
      checked-Fine seen (in_world (h.renew_lease seen) a) t (u.renewed seen a.world t)
        (elsewhere a _ f)

  each-Fine : (ls : List Lease) (a : Agent W) → All Sound ls → Fine a → Fine (verify_each h ls a)
  unfolding verify_each
  each-Fine [] a s f = f
  each-Fine (l ∷ ls) a s f =
      each-Fine ls _ s.1
        (found-Fine l (in_world (verify_interface_exists h l.iface) a) s.0 (elsewhere a _ f))

  pub start_agent-Fine : (a : Agent W) → Fine a → Fine (start_agent h a)
  unfolding start_agent verify_leases
  start_agent-Fine a f = each-Fine (list a.store) a (list-All a.store.leases f.leases) f
