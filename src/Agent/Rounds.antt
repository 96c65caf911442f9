-- ===== src/Agent/Rounds.antt =====
-- internal/agent/agent.go: what a round of a renewal loop leaves, and what it does to a lease that
-- was released meanwhile.
use Prim.Native.Nat.{min}
use text.Mathlib.TextEquality.{eq_iff}
use cilium_dhcp_wanip_operat.Base.{
  ◌≡◌, refl, ◌∙◌, ap, ◌⊎◌, inl, inr, ◌*◌, ◌/◌, String, none, some, Result, ok, err, arith, ◌==◌,
  if◌then◌else◌,
}
use cilium_dhcp_wanip_operat.Base.Dict.{lookup-insert}
use cilium_dhcp_wanip_operat.Agent.State.{active, stale, Lease, LeaseInfo, Loop, Agent, Host}
use cilium_dhcp_wanip_operat.Agent.Store.{get, save, set_lease}
use cilium_dhcp_wanip_operat.Agent.Locking.{release_lease-get}
use cilium_dhcp_wanip_operat.Agent.Allocation.{minute, release_lease}
use cilium_dhcp_wanip_operat.Agent.Renewal.{
  max_backoff, extended, renewed, renew_lease, rebound, rebind_lease, after_rebind, after_renew,
  renewal_round,
}

module _ {W L D : Type 0} (h : Host W L D) where
  -- The lease is stored under its interface, and all others are as before.
  abbrev pub Stored : Lease → Agent W → Agent W → Type 0
  Stored l a b = (j : String) → get j b.store ≡ (if l.iface == j then some l else get j a.store)

  pub set-Stored : (l : Lease) (a : Agent W) → Stored l a (set_lease h l a).1
  unfolding set_lease save
  set-Stored l a j = lookup-insert l.iface j l a.store.leases

  -- A lease that was renewed at some time, and one that was not.
  abbrev pub Renewed : Lease → Loop → Type 0
  Renewed l loop =
      (loop.lease.iface ≡ l.iface)
      × (loop.lease.status ≡ active)
      × (loop.backoff ≡ minute)
      × (loop.timer ≡ loop.lease.lease_time / 2)

  abbrev pub Delayed : Loop → Loop → Type 0
  Delayed before loop =
      (loop.lease.iface ≡ before.lease.iface)
      × (loop.lease.status ≡ stale)
      × (loop.timer ≡ before.backoff)
      × (loop.backoff ≡ min max_backoff (before.backoff * 2))

  Stored-twice :
      (l m : Lease) (a b c : Agent W)
      → m.iface ≡ l.iface
      → Stored l a b
      → Stored m b c
      → Stored m a c
  Stored-twice l m a b c e s t j = ground (arith, e, s j, t j, eq_iff l.iface j, eq_iff m.iface j)

  -- What a round leaves.
  pub record Round (before : Loop) (a : Agent W) (r : Loop × Agent W) : Type 0 where
    pub outcome : Renewed before.lease r.0 ⊎ Delayed before r.0
    pub stored : Stored r.0.lease a r.1

  -- The store after an exchange: unchanged, or with the lease.
  abbrev Exchanged : Lease → Agent W → (Result (Unit {0}) × Lease) × Agent W → Type 0
  Exchanged l a ((ok u, m), b) = (m.iface ≡ l.iface) × (m.status ≡ active) × Stored m a b
  Exchanged l a ((err e, m), b) =
      (m.iface ≡ l.iface) × (((j : String) → get j b.store ≡ get j a.store) ⊎ Stored m a b)

  set-Exchanged :
      (l m : Lease) (a b : Agent W) (r : Result (Unit {0}))
      → m.iface ≡ l.iface
      → m.status ≡ active
      → Stored m a b
      → Exchanged l a ((r, m), b)
  set-Exchanged l m a b (ok u) e s t = (e, s, t)
  set-Exchanged l m a b (err x) e s t = (e, inr t)

  renewed-Exchanged :
      (l : Lease) (a : Agent W) (r : Result LeaseInfo) (w : W)
      → Exchanged l a (renewed h l (r, record a { world = w }))
  unfolding renewed
  renewed-Exchanged l a (err e) w = (refl, inl (λ j. refl))
  renewed-Exchanged l a (ok info) w =
      let (now, w') = h.now w in
      let l' = extended now info l in
      let (r, b) = set_lease h l' (record a { world = w' }) in
      set-Exchanged l l' a b r refl refl (set-Stored l' (record a { world = w' }))

  rebound-Exchanged :
      (l : Lease) (a : Agent W) (r : Result LeaseInfo) (w : W)
      → Exchanged l a (rebound h l (r, record a { world = w }))
  unfolding rebound
  rebound-Exchanged l a (err e) w = (refl, inl (λ j. refl))
  rebound-Exchanged l a (ok info) w =
      let (now, w') = h.now w in
      let l' : Lease = record (extended now info l) { dhcp_server_ip = info.dhcp_server_ip } in
      let (r, b) = set_lease h l' (record a { world = w' }) in
      set-Exchanged l l' a b r refl refl (set-Stored l' (record a { world = w' }))

  -- Storing a lease over what an exchange left.
  set_over :
      (l : Lease) (a b c : Agent W)
      → ((j : String) → get j b.store ≡ get j a.store) ⊎ Stored l a b
      → (m : Lease) → m.iface ≡ l.iface
      → Stored m b c
      → Stored m a c
  set_over l a b c (inl same) m e s =
      λ j. s j ∙ ap (λ o. if m.iface == j then some m else o) (same j)
  set_over l a b c (inr t) m e s = Stored-twice l m a b c e t s

  rebind-Round :
      (before : Loop) (l : Lease) (a b : Agent W)
      → l.iface ≡ before.lease.iface
      → ((j : String) → get j b.store ≡ get j a.store) ⊎ Stored l a b
      → (r : (Result (Unit {0}) × Lease) × Agent W) → Exchanged l b r
      → Round before a (after_rebind h before r)
  unfolding after_rebind
  rebind-Round before l a b e was ((ok u, m), c) (f, s, t) = record {
    outcome = inl (f ∙ e, s, refl, refl);
    stored = set_over l a b c was m f t;
  }
  rebind-Round before l a b e was ((err x, m), c) (f, left) =
      let m' : Lease = record m { status = stale } in
      let (_, d) = set_lease h m' c in
      record {
        outcome = inr (f ∙ e, refl, refl, ground arith);
        stored = set_over l a b d was m' f (set_over m b c d left m' refl (set-Stored m' c));
      }

  renew-Round :
      (before : Loop) (a : Agent W) (r : (Result (Unit {0}) × Lease) × Agent W)
      → Exchanged before.lease a r
      → Round before a (after_renew h before r)
  unfolding after_renew rebind_lease
  renew-Round before a ((ok u, m), b) (e, s, t) = record {
    outcome = inl (e, s, refl, refl);
    stored = t;
  }
  renew-Round before a ((err x, m), b) (e, left) =
      let (r, w) = h.rebind_lease m b.world in
      rebind-Round before m a b e left (rebound h m (r, record b { world = w }))
        (rebound-Exchanged m b r w)

  -- One round of a renewal loop, whatever the exchanges and the disk answer: the lease of the loop is either active, with the next renewal after half its time and the wait reset to a minute, or stale, with the next renewal after the old wait, which then doubles up to fifteen minutes; the lease keeps its interface, and the store has exactly this lease under it, and all others as before.
  pub renewal_round-Round :
      (before : Loop) (a : Agent W) → Round before a (renewal_round h before a)
  unfolding renewal_round renew_lease
  renewal_round-Round before a =
      let (r, w) = h.renew_lease before.lease a.world in
      renew-Round before a (renewed h before.lease (r, record a { world = w }))
        (renewed-Exchanged before.lease a r w)

  -- If a lease is released while its loop waits for the answer to a renewal, and the answer then comes, the lease, which was gone after the release, is stored again as active.
  pub released_lease_returns :
      (l : Lease) (info : LeaseInfo) (a : Agent W)
      → let b = (release_lease h l a).1 in
        (get l.iface b.store ≡ none)
        × (m : Lease) × (m.status ≡ active)
        × (get l.iface (renewed h l (ok info, b)).1.store ≡ some m)
  unfolding renewed
  released_lease_returns l info a =
      let b = (release_lease h l a).1 in
      let (now, w) = h.now b.world in
      let m = extended now info l in
      (
        ground (arith, eq_iff l.iface l.iface, release_lease-get h l l.iface a),
        m,
        refl,
        ground (arith, eq_iff l.iface l.iface, set-Stored m (record b { world = w }) l.iface),
      )
