-- ===== src/Router/EndToEnd.antt =====
-- internal/router/agent_client.go with internal/agent/agent.go: calls of the client that reach the
-- agent's handlers.
use text.Mathlib.TextPositions.{eq_refl}
use cilium_dhcp_wanip_operat.Base.{
  ◌≡◌, refl, sym, ◌∙◌, ap, ◌⊎◌, inl, inr, ℕ, String, Bool, true, false, Option, none, some, Result,
  ok, err, is_ok, arith, eqb, ◌∷◌, if◌then◌else◌,
}
use cilium_dhcp_wanip_operat.Base.Action.{returns, fails}
use cilium_dhcp_wanip_operat.Agent.State.{Lease, Store, Agent, Host}
use cilium_dhcp_wanip_operat.Agent.Store.{get, member, acquire_inflight, release_inflight}
use cilium_dhcp_wanip_operat.Agent.Allocation
use cilium_dhcp_wanip_operat.Agent.Handlers.{
  LeaseRequest, Body, Route, delete_one, serve, release_reply, release_found, release_if_free,
  handle_release_lease,
}
use cilium_dhcp_wanip_operat.Agent.Locking.{release_lease-get}
use cilium_dhcp_wanip_operat.Router.Client.{Http, lease_url, send, agent_error, release_lease}

-- The wire to the agent for requests about one interface: its DELETE request is made and routed,
-- and the agent serves what is sent.
pub record Wired {W L D Q B : Type 0} (h : Host W L D) (http : Http (Agent W) Q B)
    (local_addr iface : String) : Type 0 where
  pub decode : B → Result LeaseRequest
  pub encode : Body → B
  pub routed : Q → Route B
  pub delete_request : Q
  pub made : http.new_request "DELETE" (lease_url local_addr iface) none ≡ ok delete_request
  pub route : routed delete_request ≡ delete_one iface
  pub sent :
      (q : Q) (a : Agent W)
      → http.do_request q a
        ≡ (let (r, b) = serve h decode (routed q) a in (ok (r.code, encode r.body), b))

module _ {W L D : Type 0} (h : Host W L D) where
  reply-state : (r : Result (Unit {0}) × Agent W) → (release_reply h r).1 ≡ r.1
  unfolding release_reply
  reply-state (ok u, a) = refl
  reply-state (err e, a) = refl

  found-none :
      (iface : String) (o : Option Lease) (a : Agent W)
      → o ≡ get iface a.store
      → ((l : Lease) → o ≡ some l → l.iface ≡ iface)
      → get iface (release_found h iface o a).1.store ≡ none
  unfolding release_found
  found-none iface none a e k = sym e
  found-none iface (some l) a e k =
      ap (λ b. get iface b.store) (reply-state (Allocation.release_lease h l a))
      ∙ ground (arith, release_lease-get h l iface a, k l refl, eq_refl iface)

  -- A release is refused as busy, with no change, or the lease is gone afterwards.
  released_or_busy :
      (iface : String) (a : Agent W)
      → ((l : Lease) → get iface a.store ≡ some l → l.iface ≡ iface)
      → (b : Bool) → member iface a.store.inflight ≡ b
      → let (r, c) = handle_release_lease h iface a in
        ((b ≡ true) × (r.code ≡ 409) × (c ≡ a)) ⊎ ((b ≡ false) × (get iface c.store ≡ none))
  unfolding handle_release_lease release_if_free acquire_inflight release_inflight
  released_or_busy iface a k true m = rw m (inl (refl, refl, refl))
  released_or_busy iface a k false m =
      let s : Store = record a.store { inflight = iface ∷ a.store.inflight } in
      inr (refl, rw m (found-none iface (get iface s) (record a { store = s }) refl k))

  module _ {Q B : Type 0} (http : Http (Agent W) Q B) (local_addr : String) where
    -- The call of the client by what the agent answers.
    answered : ℕ × B → Result (Unit {0})
    answered resp =
        if eqb resp.0 404
        then ok tt
        else if eqb resp.0 204
        then ok tt
        else err (agent_error http local_addr resp.1)

    chosen :
        (b c : Bool) (body : B) (a : Agent W)
        → (if b
              then returns tt
              else if c
              then returns tt
              else fails (agent_error http local_addr body))
            a
          ≡ ((if b then ok tt else if c then ok tt else err (agent_error http local_addr body)), a)
    chosen true c body a = refl
    chosen false true body a = refl
    chosen false false body a = refl

    release-answered :
        (iface : String) (wire : Wired h http local_addr iface) (a : Agent W)
        → let (r, b) = handle_release_lease h iface a in
          release_lease http local_addr iface a ≡ (answered (r.code, wire.encode r.body), b)
    unfolding release_lease send serve answered
    release-answered iface wire a =
        let (r, b) = handle_release_lease h iface a in
        rw (wire.made, wire.sent wire.delete_request a, wire.route)
          (chosen (eqb r.code 404) (eqb r.code 204) (wire.encode r.body) b)

    -- The answer of a busy agent is an error.
    busy-answered : (code : ℕ) (body : B) → code ≡ 409 → is_ok (answered (code, body)) ≡ false
    unfolding answered
    busy-answered code body e = ground (arith, e)

    -- For `ReleaseLease` of the client whose requests reach the agent, and a lease that was stored under its own name if it was there: if the agent is busy with the interface, whether or not it holds a lease, the call returns an error and the agent is as before; otherwise the agent has no lease under the interface afterwards, whatever is returned.
    pub release_lease-gone :
        (iface : String) (wire : Wired h http local_addr iface) (a : Agent W)
        → ((l : Lease) → get iface a.store ≡ some l → l.iface ≡ iface)
        → let (res, b) = release_lease http local_addr iface a in
          ((member iface a.store.inflight ≡ true) × (is_ok res ≡ false) × (b ≡ a))
          ⊎ ((member iface a.store.inflight ≡ false) × (get iface b.store ≡ none))
    release_lease-gone iface wire a k =
        let (r, b) = handle_release_lease h iface a in
        rw (release-answered iface wire a)
          (elim (released_or_busy iface a k (member iface a.store.inflight) refl) [
            | inl (m, c, same) ↦ inl (m, busy-answered r.code (wire.encode r.body) c, same)
            | inr gone ↦ inr gone
          ])
