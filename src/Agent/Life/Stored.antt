-- ===== src/Agent/Life/Stored.antt =====
-- internal/agent: what every lease that the agent holds has, and what storing and deleting a lease
-- and starting and stopping its loop keep of it.
use cilium_dhcp_wanip_operat.Base.{
  ◌≡◌, refl, ◌^◌, ◌<◌, String, false, Option, none, some, List, [], ◌∷◌, map, All, All-append,
  arith, ◌==◌, if_both, ℕ, eqb,
}
use cilium_dhcp_wanip_operat.Base.Dict.{Dict, lookup, insert, delete}
use cilium_dhcp_wanip_operat.Agent.Dhcp.{is_unset}
use cilium_dhcp_wanip_operat.Agent.State.{Lease, Loop, Agent, Host}
use cilium_dhcp_wanip_operat.Agent.Store.{save, set_lease}
use cilium_dhcp_wanip_operat.Agent.Allocation.{
  cancel_loop, cancel_found, stop_renewal_loop, start_renewal_loop,
}
use cilium_dhcp_wanip_operat.Agent.Renewal.{replace_loop, without_loop}
use cilium_dhcp_wanip_operat.Agent.Life.{find_loop}

-- An address and a server, and a time that is not negative.
pub record Sound (l : Lease) : Type 0 where
  pub address : is_unset l.ip_address ≡ false
  pub server : is_unset l.dhcp_server_ip ≡ false
  pub time : l.lease_time < 2 ^ 63

abbrev pub Entry : String × Lease → Type 0
Entry e = (e.0 ≡ e.1.iface) × Sound e.1

abbrev pub Renews : Loop → Type 0
Renews x = Sound x.lease

-- Every lease is stored under its own interface and sound, and so is every lease of a loop.
pub record Fine {W : Type 0} (a : Agent W) : Type 0 where
  pub leases : All Entry a.store.leases
  pub loops : All Renews a.loops

insert-All :
    (l : Lease) (es : Dict Lease) → Sound l → All Entry es → All Entry (insert l.iface l es)
unfolding insert
insert-All l [] s h = ((refl, s), tt)
insert-All l (e ∷ es) s h =
    if_both (All Entry) (e.0 == l.iface) _ _ ((refl, s), h.1) (h.0, insert-All l es s h.1)

pub delete-All : (key : String) (es : Dict Lease) → All Entry es → All Entry (delete key es)
unfolding delete
delete-All key [] h = tt
delete-All key (e ∷ es) h =
    if_both (All Entry) (e.0 == key) _ _ (delete-All key es h.1) (h.0, delete-All key es h.1)

pub list-All : (es : Dict Lease) → All Entry es → All Sound (map (λ e. e.1) es)
list-All [] h = tt
list-All (e ∷ es) h = (h.0.1, list-All es h.1)

-- What holds of an optional loop.
abbrev pub Found : Option Loop → Type 0
Found none = Unit {0}
Found (some x) = Renews x

pub find-Found : (n : ℕ) (xs : List Loop) → All Renews xs → Found (find_loop n xs)
find-Found n [] h = tt
find-Found n (x ∷ xs) h = if_both Found (eqb x.number n) _ _ h.0 (find-Found n xs h.1)

-- A change of the loops that keeps their leases.
pub map-All :
    (f : Loop → Loop) (xs : List Loop)
    → ((x : Loop) → (f x).lease ≡ x.lease)
    → All Renews xs
    → All Renews (map f xs)
map-All f [] e h = tt
map-All f (x ∷ xs) e h = (rw (e x) h.0, map-All f xs e h.1)

cancel-lease : (n : ℕ) (x : Loop) → (cancel_loop n x).lease ≡ x.lease
cancel-lease n x = ground arith

module _ {W : Type 0} where
  stopped-All :
      (iface : String) (a : Agent W) (o : Option ℕ)
      → All Renews a.loops
      → All Renews (cancel_found iface a o).loops
  unfolding cancel_found
  stopped-All iface a none h = h
  stopped-All iface a (some n) h = map-All (cancel_loop n) a.loops (cancel-lease n) h

  pub stop-All :
      (iface : String) (a : Agent W)
      → All Renews a.loops
      → All Renews (stop_renewal_loop iface a).loops
  unfolding stop_renewal_loop
  stop-All iface a h = stopped-All iface a (lookup iface a.renewal_cancels) h

  pub start-Fine : (l : Lease) (a : Agent W) → Sound l → Fine a → Fine (start_renewal_loop l a)
  unfolding start_renewal_loop
  start-Fine l a s f = record {
    leases = f.leases;
    loops = All-append Renews a.loops _ f.loops (s, tt);
  }

module _ {W L D : Type 0} (h : Host W L D) where
  pub set-Fine : (l : Lease) (a : Agent W) → Sound l → Fine a → Fine (set_lease h l a).1
  unfolding set_lease save
  set-Fine l a s f = record { leases = insert-All l a.store.leases s f.leases; loops = f.loops }

  pub replace-All :
      (loop : Loop) (xs : List Loop)
      → Renews loop
      → All Renews xs
      → All Renews (replace_loop h loop xs)
  replace-All loop [] s h = tt
  replace-All loop (x ∷ xs) s h =
      if_both (All Renews) (eqb x.number loop.number) _ _ (s, replace-All loop xs s h.1)
        (h.0, replace-All loop xs s h.1)

  pub without-All : (n : ℕ) (xs : List Loop) → All Renews xs → All Renews (without_loop h n xs)
  without-All n [] h = tt
  without-All n (x ∷ xs) h =
      if_both (All Renews) (eqb x.number n) _ _ (without-All n xs h.1) (h.0, without-All n xs h.1)
