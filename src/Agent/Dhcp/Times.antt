-- ===== src/Agent/Dhcp/Times.antt =====
-- internal/agent/dhcp/client.go: the renewal and the rebinding time of a lease.
use native.Mathlib.Decide.{dec_lt}
use cilium_dhcp_wanip_operat.Base.{
  ◌≡◌, ◌≢◌, sym, ◌∙◌, ◌⊎◌, inl, inr, ℕ, ◌*◌, ◌/◌, ◌^◌, ◌≤◌, ◌<◌, String, Option, arith,
}
use cilium_dhcp_wanip_operat.Agent.State.{LeaseInfo}
use cilium_dhcp_wanip_operat.Agent.Dhcp.{Dhcp, hour, times64, divided64, lease_info}

-- The times are in order, or the rebinding time has overflowed.
pub record InOrder (info : LeaseInfo) : Type 0 where
  pub small : info.lease_time * 7 < 2 ^ 63
  pub renewal : info.renewal_time ≡ info.lease_time / 2
  pub rebinding : info.rebind_time ≡ info.lease_time * 7 / 8
  pub renewal_first : info.renewal_time ≤ info.rebind_time
  pub rebinding_first : info.rebind_time ≤ info.lease_time

pub record Overflowed (info : LeaseInfo) : Type 0 where
  pub large : 2 ^ 63 ≤ info.lease_time * 7
  pub wrong : info.rebind_time ≢ info.lease_time * 7 / 8

seven_eighths : (t : ℕ) → t * 7 < 2 ^ 63 → divided64 (times64 t 7) 8 ≡ t * 7 / 8
seven_eighths t h = ground arith

overflows : (t : ℕ) → t < 2 ^ 63 → 2 ^ 63 ≤ t * 7 → divided64 (times64 t 7) 8 ≢ t * 7 / 8
overflows t f h = λ e. ground (arith, e)

halved : (t : ℕ) → t < 2 ^ 63 → divided64 t 2 ≡ t / 2
halved t f = ground arith

-- The option of a lease time is a number of seconds in 32 bits.
unfoldable pub Timed : {W C P : Type 0} → Dhcp W C P → Type 0
Timed {W} {C} {P} dhcp =
    (p : P) (t : ℕ)
    → (dhcp.lease_time p t ≡ t) ⊎ ((s : ℕ) × (s < 2 ^ 32) × (dhcp.lease_time p t ≡ s * 1000000000))

module _ {W C P : Type 0} (dhcp : Dhcp W C P) (timed : Timed dhcp) where
  pub time_fits : (p : P) → dhcp.lease_time p hour < 2 ^ 63
  unfolding Timed
  time_fits p = elim (timed p hour) [
    | inl e ↦ omega (arith, e)
    | inr (s, b, e) ↦ omega (arith, b, e)
  ]

  -- For an acknowledgement that has neither a renewal nor a rebinding time: if seven times the lease time is below 2^63 nanoseconds, the renewal is due at half of it and the rebinding at seven eighths, which come in this order and before the end; but otherwise, as for an infinite lease, which is one of 2^32 - 1 seconds, the rebinding time is not seven eighths of the lease time.
  pub lease_info-terms :
      (offer : Option P) (ack : P) (ip server : String)
      → ((t : ℕ) → dhcp.renewal_time ack t ≡ t)
      → ((t : ℕ) → dhcp.rebinding_time ack t ≡ t)
      → let i = lease_info dhcp offer ack ip server in InOrder i ⊎ Overflowed i
  unfolding lease_info
  lease_info-terms offer ack ip server r b =
      let t = dhcp.lease_time ack hour in
      let i = lease_info dhcp offer ack ip server in
      elim (dec_lt (t * 7) (2 ^ 63)) [
        | yes h ↦
            let renewal : i.renewal_time ≡ t / 2 = r (divided64 t 2) ∙ halved t (time_fits ack) in
            let rebinding : i.rebind_time ≡ t * 7 / 8 =
              b (divided64 (times64 t 7) 8) ∙ seven_eighths t h in
            inl (record {
              small = h;
              renewal = renewal;
              rebinding = rebinding;
              renewal_first = omega (arith, renewal, rebinding);
              rebinding_first = omega (arith, rebinding);
            })
        | no h ↦ inr (record {
          large = omega (arith, h);
          wrong = λ e.
              overflows t (time_fits ack) (omega (arith, h))
                (sym (b (divided64 (times64 t 7) 8)) ∙ e);
        })
      ]
