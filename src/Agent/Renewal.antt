-- ===== src/Agent/Renewal.antt =====
-- internal/agent/agent.go: the renewal of leases by their loops and at the start of the agent.
use cilium_dhcp_wanip_operat.Base.{
  ℕ, ◌+◌, ◌*◌, ◌/◌, ◌%◌, ◌^◌, String, Bool, true, false, Option, none, some, List, [], ◌∷◌, Result,
  ok, err, ltb, eqb, if◌then◌else◌,
}
use cilium_dhcp_wanip_operat.Base.Dict.{delete}
use cilium_dhcp_wanip_operat.Agent.State.{
  active, stale, Lease, LeaseInfo, Loop, Agent, Host, in_world,
}
use cilium_dhcp_wanip_operat.Agent.Store.{set_lease, list, verify_interface_exists}
use cilium_dhcp_wanip_operat.Agent.Allocation.{minute, start_renewal_loop}

abbrev pub max_backoff : ℕ
max_backoff = 15 * minute

-- `if leaseInfo.Offer != nil { l.DHCPOffer = leaseInfo.Offer.ToBytes() }`
abbrev pub or_saved : Option String → Option String → Option String
or_saved none saved = saved
or_saved (some packet) saved = some packet

-- The lease after an exchange at the time `now`; an `int` counts in 64 bits.
abbrev pub extended : ℕ → LeaseInfo → Lease → Lease
extended now info l = record l {
  expires_at = now + info.lease_time;
  lease_time = info.lease_time;
  renewal_count = (l.renewal_count + 1) % 2 ^ 64;
  status = active;
  dhcp_offer = or_saved info.offer l.dhcp_offer;
  dhcp_ack = or_saved info.ack l.dhcp_ack;
}

-- The loop after a renewal.
abbrev pub resumed : Loop → Lease → Loop
resumed loop l = record loop { lease = l; backoff = minute; timer = l.lease_time / 2 }

-- The loop after a failure, with a lease that is stale.
abbrev pub delayed : Loop → Lease → Loop
delayed loop l = record loop {
  lease = l;
  timer = loop.backoff;
  backoff = if ltb max_backoff (loop.backoff * 2) then max_backoff else loop.backoff * 2;
}

module _ {W L D : Type 0} (h : Host W L D) where
  -- `renewLease` once the exchange has been answered: its result, and the lease, which it changes.
  unfoldable pub renewed :
      Lease → Result LeaseInfo × Agent W → (Result (Unit {0}) × Lease) × Agent W
  renewed l (err e, a) = ((err e, l), a)
  renewed l (ok info, a) =
      let (now, w) = h.now a.world in
      let l' = extended now info l in
      let (r, b) = set_lease h l' (record a { world = w }) in ((r, l'), b)

  unfoldable pub renew_lease : Lease → Agent W → (Result (Unit {0}) × Lease) × Agent W
  unfolding renewed
  renew_lease l a = renewed l (in_world (h.renew_lease l) a)

  -- `rebindLease`, which also takes over the server's address.
  unfoldable pub rebound :
      Lease → Result LeaseInfo × Agent W → (Result (Unit {0}) × Lease) × Agent W
  rebound l (err e, a) = ((err e, l), a)
  rebound l (ok info, a) =
      let (now, w) = h.now a.world in
      let l' : Lease = record (extended now info l) { dhcp_server_ip = info.dhcp_server_ip } in
      let (r, b) = set_lease h l' (record a { world = w }) in ((r, l'), b)

  unfoldable pub rebind_lease : Lease → Agent W → (Result (Unit {0}) × Lease) × Agent W
  unfolding rebound
  rebind_lease l a = rebound l (in_world (h.rebind_lease l) a)

  unfoldable pub after_rebind : Loop → (Result (Unit {0}) × Lease) × Agent W → Loop × Agent W
  after_rebind loop ((ok u, l), a) = (resumed loop l, a)
  after_rebind loop ((err e, l), a) =
      let l' : Lease = record l { status = stale } in
      let (_, b) = set_lease h l' a in (delayed loop l', b)

  unfoldable pub after_renew : Loop → (Result (Unit {0}) × Lease) × Agent W → Loop × Agent W
  unfolding rebind_lease after_rebind
  after_renew loop ((ok u, l), a) = (resumed loop l, a)
  after_renew loop ((err e, l), a) = after_rebind loop (rebind_lease l a)

  -- One round of a loop, when its timer fires.
  unfoldable pub renewal_round : Loop → Agent W → Loop × Agent W
  unfolding renew_lease after_renew
  renewal_round loop a = after_renew loop (renew_lease loop.lease a)

  abbrev pub replace_loop : Loop → List Loop → List Loop
  replace_loop loop [] = []
  replace_loop loop (x ∷ xs) =
      let rest = replace_loop loop xs in if eqb x.number loop.number then loop ∷ rest else x ∷ rest

  -- The timer of a loop fires.
  unfoldable pub tick : Loop → Agent W → Agent W
  unfolding renewal_round
  tick loop a =
      let (next, b) = renewal_round loop a in record b { loops = replace_loop next b.loops }

  abbrev pub without_loop : ℕ → List Loop → List Loop
  without_loop n [] = []
  without_loop n (x ∷ xs) =
      let rest = without_loop n xs in if eqb x.number n then rest else x ∷ rest

  -- A loop whose context is done returns, and its deferred call forgets the cancel function.
  unfoldable pub loop_returns : Loop → Agent W → Agent W
  loop_returns loop a = record a {
    renewal_cancels = delete loop.lease.iface a.renewal_cancels;
    loops = without_loop loop.number a.loops;
  }

  unfoldable pub after_check : Lease → Result LeaseInfo × Agent W → Agent W
  after_check l (err e, a) = (set_lease h (record l { status = stale }) a).1
  after_check l (ok info, a) =
      let (now, w) = h.now a.world in
      let l' = extended now info l in
      start_renewal_loop l' (set_lease h l' (record a { world = w })).1

  unfoldable pub check_found : Lease → Result Bool × Agent W → Agent W
  unfolding after_check
  check_found l (err e, a) = a
  check_found l (ok false, a) =
      (set_lease h (record l { status = stale; interface_exists = false }) a).1
  check_found l (ok true, a) =
      let seen : Lease = record l { interface_exists = true } in
      after_check seen (in_world (h.renew_lease seen) a)

  unfoldable pub verify_each : List Lease → Agent W → Agent W
  unfolding check_found
  verify_each [] a = a
  verify_each (l ∷ ls) a =
      verify_each ls (check_found l (in_world (verify_interface_exists h l.iface) a))

  -- `verifyLeases`
  unfoldable pub verify_leases : Agent W → Agent W
  unfolding verify_each
  verify_leases a = verify_each (list a.store) a
