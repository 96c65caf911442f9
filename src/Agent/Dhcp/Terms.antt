-- ===== src/Agent/Dhcp/Terms.antt =====
-- internal/agent/dhcp/client.go: the addresses and times of the leases that the exchanges give.
use cilium_dhcp_wanip_operat.Base.{
  ◌≡◌, refl, sym, ap, subst, ◌∙◌, ◌⊎◌, inl, inr, ◌^◌, ◌<◌, String, false, Option, none, some,
  Result, ok, err, arith, Bool-cases, Option-cases,
}
use cilium_dhcp_wanip_operat.Base.Action.{Action, continue, wrapping, ◌>>=◌}
use cilium_dhcp_wanip_operat.Agent.State.{Lease, LeaseInfo}
use cilium_dhcp_wanip_operat.Agent.Dhcp.{
  Exchange, Dhcp, is_unset, or_else, lease_info, with_client, acked_lease, new_lease_of, discover,
  acquire_lease, rebind_lease, renewed_lease, renew_with, renew_lease,
}
use cilium_dhcp_wanip_operat.Agent.Dhcp.Times.{Timed, time_fits}

-- Whatever an action gives.
unfoldable pub Yields : {W A : Type 0} → (A → Type 0) → Action W A → Type 0
Yields {W} {A} P m = (w : W) (a : A) → (m w).0 ≡ ok a → P a

module _ {W A B : Type 0} (P : B → Type 0) where
  continue-Yields :
      (r : Result A × W) (f : A → Action W B) (b : B)
      → ((a : A) → Yields P (f a))
      → (continue r f).0 ≡ ok b
      → P b
  unfolding Yields
  continue-Yields (ok a, w) f b y e = y a w b e
  continue-Yields (err x, w) f b y e = absurd (ground (arith, e))

  bind-Yields :
      (m : Action W A) (f : A → Action W B) → ((a : A) → Yields P (f a)) → Yields P (m >>= f)
  unfolding Yields
  bind-Yields m f y w b e = continue-Yields (m w) f b y e

-- An address and a server, and a time that fits.
pub record Usable (info : LeaseInfo) : Type 0 where
  pub address : is_unset info.ip_address ≡ false
  pub server : is_unset info.dhcp_server_ip ≡ false
  pub time : info.lease_time < 2 ^ 63

or_else-set :
    (ip current : String) → is_unset current ≡ false → is_unset (or_else ip current) ≡ false
or_else-set ip current s = elim (Bool-cases (is_unset ip)) [ inl e ↦ rw e s | inr e ↦ rw e e ]

of_ok : (i j : LeaseInfo) → ok i ≡ ok j → Usable i → Usable j
of_ok i j e u = subst Usable (ap (λ r. elim r [ ok a ↦ a | err x ↦ i ]) e) u

module _ {W C P : Type 0} (dhcp : Dhcp W C P) (timed : Timed dhcp) where
  is_acked :
      (offer : Option P) (ack : P)
      → is_unset (dhcp.your_ip_addr ack) ≡ false
      → is_unset (dhcp.server_identifier ack) ≡ false
      → acked_lease dhcp offer ack
        ≡ ok (lease_info dhcp offer ack (dhcp.your_ip_addr ack) (dhcp.server_identifier ack))
  unfolding acked_lease
  is_acked offer ack f g = rw (acked_lease, f, g) refl

  acked-Usable :
      (offer : Option P) (ack : P) (info : LeaseInfo)
      → acked_lease dhcp offer ack ≡ ok info
      → Usable info
  unfolding acked_lease lease_info
  acked-Usable offer ack info e = elim (Bool-cases (is_unset (dhcp.your_ip_addr ack))) [
    | inl f ↦ absurd (ground (arith, e, f))
    | inr f ↦ elim (Bool-cases (is_unset (dhcp.server_identifier ack))) [
      | inl g ↦ absurd (ground (arith, e, f, g))
      | inr g ↦
          of_ok (lease_info dhcp offer ack (dhcp.your_ip_addr ack) (dhcp.server_identifier ack))
            info (sym (is_acked offer ack f g) ∙ e)
            (record { address = f; server = g; time = time_fits dhcp timed ack })
    ]
  ]

  new_lease-Usable :
      (x : Exchange P) (o : Option P) (info : LeaseInfo)
      → x.acked ≡ o
      → new_lease_of dhcp x ≡ ok info
      → Usable info
  unfolding new_lease_of
  new_lease-Usable x none info e d = absurd (ground (arith, e, d))
  new_lease-Usable x (some ack) info e d =
      acked-Usable x.offered ack info (sym (rw (new_lease_of, e) refl) ∙ d)

  discover-Yields : (client : C) → Yields Usable (discover dhcp client)
  unfolding discover Yields
  discover-Yields client =
      bind-Yields Usable (wrapping "DHCP request failed: %w" (dhcp.request client)) _
        λ x w info d. new_lease-Usable x x.acked info refl d

  client-Yields :
      (iface mac : String) (body : C → Action W LeaseInfo)
      → ((client : C) → Yields Usable (body client))
      → Yields Usable (with_client dhcp iface mac body)
  unfolding with_client Yields
  client-Yields iface mac body y =
      bind-Yields Usable (wrapping "failed to create DHCP client: %w" (dhcp.new_client iface mac)) _
        λ client w info d. y client w info d

  renewed-Usable :
      (l : Lease) (x : Option (Exchange P)) (info : LeaseInfo)
      → is_unset l.ip_address ≡ false
      → is_unset l.dhcp_server_ip ≡ false
      → renewed_lease dhcp l x ≡ ok info
      → Usable info
  unfolding renewed_lease lease_info
  renewed-Usable l none info a s d = absurd (ground (arith, d))
  renewed-Usable l (some x) info a s d = elim (Option-cases x.acked) [
    | inl e ↦ absurd (ground (arith, e, d))
    | inr (ack, e) ↦
        of_ok
          (lease_info dhcp x.offered ack (or_else (dhcp.your_ip_addr ack) l.ip_address)
            (or_else (dhcp.server_identifier ack) l.dhcp_server_ip))
          info (sym (rw (renewed_lease, e) refl) ∙ d)
          (record {
            address = or_else-set (dhcp.your_ip_addr ack) l.ip_address a;
            server = or_else-set (dhcp.server_identifier ack) l.dhcp_server_ip s;
            time = time_fits dhcp timed ack;
          })
  ]

  pub acquire-Yields : (iface mac : String) → Yields Usable (acquire_lease dhcp iface mac)
  unfolding acquire_lease
  acquire-Yields iface mac = client-Yields iface mac (discover dhcp) discover-Yields

  pub renew-Yields :
      (l : Lease)
      → is_unset l.ip_address ≡ false
      → is_unset l.dhcp_server_ip ≡ false
      → Yields Usable (renew_lease dhcp l)
  unfolding renew_lease renew_with Yields
  renew-Yields l a s =
      client-Yields l.iface l.mac_address (renew_with dhcp l)
        λ client. bind-Yields Usable _ _ λ x w info d. renewed-Usable l x info a s d

  -- For a lease with an address and a server: whatever the client gives, by a new exchange for some interface, by a rebinding or by a renewal of the lease, has an address and a server that are not unspecified, and a lease time that is not negative as an int64.
  pub exchanges-Usable :
      (iface mac : String) (l : Lease) (w : W) {info : LeaseInfo}
      → is_unset l.ip_address ≡ false
      → is_unset l.dhcp_server_ip ≡ false
      → ((acquire_lease dhcp iface mac w).0 ≡ ok info)
        ⊎ (((rebind_lease dhcp l w).0 ≡ ok info) ⊎ ((renew_lease dhcp l w).0 ≡ ok info))
      → Usable info
  unfolding Yields rebind_lease acquire_lease
  exchanges-Usable iface mac l w {info} a s (inl e) = acquire-Yields iface mac w info e
  exchanges-Usable iface mac l w {info} a s (inr (inl e)) =
      acquire-Yields l.iface l.mac_address w info e
  exchanges-Usable iface mac l w {info} a s (inr (inr e)) = renew-Yields l a s w info e
