-- ===== src/Controller/Recovery.antt =====
-- internal/controller/publicipclaim_controller.go with internal/router and internal/agent: a claim
-- whose lease the agent has marked stale, from the verification to the next allocation.

use cilium_dhcp_wanip_operat.Base.{
  ◌≡◌, refl, ap, String, Bool, true, false, not, ◌||◌, none, some, [], ◌∷◌, Text, lit, fmt, Result,
  ok, err, arith, is_empty,
}
use cilium_dhcp_wanip_operat.Base.Action.{wrap_result}
use cilium_dhcp_wanip_operat.Api.{Claim, ClaimStatus}
use cilium_dhcp_wanip_operat.Agent.State.{Lease, Agent, Host}
use cilium_dhcp_wanip_operat.Agent.Store.{get}
use cilium_dhcp_wanip_operat.Agent.Handlers.{status_of}
use cilium_dhcp_wanip_operat.Router.Client
use cilium_dhcp_wanip_operat.Router.Client.{Http}
use cilium_dhcp_wanip_operat.Router.Wire.{GetWired, PostWired}
use cilium_dhcp_wanip_operat.Router.Reads.{get_lease-get}
use cilium_dhcp_wanip_operat.Router.Conflict.{Blocked, allocate_lease-Blocked}
use cilium_dhcp_wanip_operat.Router.Connection.Calls.{AgentCalls}
use cilium_dhcp_wanip_operat.Controller.Credentials.{Keys, ssh_signer, client_config}
use cilium_dhcp_wanip_operat.Controller.Script.{default_run_router_script}
use cilium_dhcp_wanip_operat.Controller.Verification.{
  Checks, is_stale, with_reason, by_lease, drifted, then_close, by_reply, ask_agent, by_connection,
  by_signer, verify_claim_state,
}
use cilium_dhcp_wanip_operat.Controller.Reconcile.Calls.{Ops, ran_script, status_updated, is_ok}
use cilium_dhcp_wanip_operat.Controller.Reconcile.Deletion.{start_run}
use cilium_dhcp_wanip_operat.Controller.Reconcile.Allocation.{
  failed_status, fail, after_script, run_and_publish,
}

-- The controller's calls reach an agent: the key of a claim is read and the client connected and
-- closed without the agent's doing anything, and the requests go to it.
pub record Reaches {W T Q B : Type 0} (keys : Keys (Agent W)) (agents : AgentCalls (Agent W) T)
    (http : Http (Agent W) Q B) (local_addr : String) (c : Claim) : Type 0 where
  pub signer : String
  pub client : T
  pub has_key :
      (s : ClaimStatus) (a : Agent W) → ssh_signer keys (record c { status = s }) a ≡ (ok signer, a)
  pub connected :
      (a : Agent W) → agents.connect c.spec.router.host (client_config c signer) a ≡ (ok client, a)
  pub closed : (a : Agent W) → agents.disconnect client a ≡ (ok tt, a)
  pub reads :
      (iface : String) (a : Agent W)
      → agents.get_lease client iface a ≡ Client.get_lease http local_addr iface a
  pub allocates :
      (iface wan_parent mac : String) (a : Agent W)
      → agents.allocate_lease client iface wan_parent mac a
        ≡ Client.allocate_lease http local_addr iface wan_parent mac a

closes-Blocked :
    {W : Type 0} (context : String) (a b : Agent W) (r : Result String × Agent W)
    → b ≡ r.1
    → Blocked a r
    → Blocked a (wrap_result context r.0, b)
closes-Blocked context a b (ok x, b') e f = absurd (ground (arith, f.failed.1))
closes-Blocked context a b (err x, b') e f = record {
  failed = (fmt context x, refl);
  leases = rw e f.leases;
  loops = rw e f.loops;
  world = rw e f.world;
}

module _ {W M : Type 0} (ops : Ops (Agent W) M) (iface mac : String) (c : Claim) (a : Agent W) where
  -- The script fails, and the claim is written as Failed.
  abbrev pub WrittenFailed : Type 0
  WrittenFailed =
      (e : Text) × (b : Bool) × ((run_and_publish ops iface mac c (start_run a)).1.calls
        ≡ status_updated (failed_status (fmt "router script: %w" e) c) b
          ∷ ran_script iface mac none
          ∷ [])

  blocked-WrittenFailed : Blocked a (ops.run_router_script c iface mac a) → WrittenFailed
  unfolding run_and_publish after_script fail
  blocked-WrittenFailed f =
      let (e, eq) = f.failed in
      let w = (ops.run_router_script c iface mac a).1 in
      (
        e,
        is_ok (ops.update_status (failed_status (fmt "router script: %w" e) c) w).0,
        ground (arith, eq),
      )

module _ {W T Q B : Type 0} (agents : AgentCalls (Agent W) T) (http : Http (Agent W) Q B)
    (local_addr : String) (c : Claim) where
  script-Blocked :
      (keys : Keys (Agent W)) (at : Reaches keys agents http local_addr c) (iface mac : String)
      (s : ClaimStatus) (a : Agent W)
      → Blocked a (Client.allocate_lease http local_addr iface c.spec.router.wan_parent mac a)
      → Blocked a (default_run_router_script keys agents (record c { status = s }) iface mac a)
  unfolding default_run_router_script
  script-Blocked keys at iface mac s a b =
      let r = Client.allocate_lease http local_addr iface c.spec.router.wan_parent mac a in
      rw (at.has_key s a, at.connected a, at.allocates iface c.spec.router.wan_parent mac a)
        (closes-Blocked "agent lease allocation failed: %w" a (agents.disconnect at.client r.1).1 r
          (ap (λ x. x.1) (at.closed r.1)) b)

module _ {W L D T Q B : Type 0} (h : Host W L D) (checks : Checks (Agent W) T)
    (http : Http (Agent W) Q B) (local_addr : String) (c : Claim)
    (at : Reaches checks.keys checks.agents http local_addr c)
    (quiet : (event reason : String) (m : Text) (a : Agent W)
      → checks.record_event c event reason m a ≡ a) where
  -- The verification finds the lease, and reports it.
  lease-drifted :
      (l : Lease) (a : Agent W)
      → (b : Bool) → is_stale l.status || not l.interface_exists ≡ b
      → b ≡ true
      → by_lease checks (status_of l) c a
        ≡ ((err (lit "lease stale or interface missing"), with_reason "lease_stale" c), a)
  unfolding by_lease drifted
  lease-drifted l a true d e =
      rw (d, quiet "Warning" "ConfigurationDrift" (lit "Lease stale or interface missing") a) refl
  lease-drifted l a false d e = ground (arith, e)

  stale_reported :
      (wire : GetWired h http local_addr c.status.wan_interface) (a : Agent W) (l : Lease)
      → is_empty c.status.wan_interface ≡ false
      → get c.status.wan_interface a.store ≡ some l
      → is_stale l.status || not l.interface_exists ≡ true
      → verify_claim_state checks c a
        ≡ ((err (lit "lease stale or interface missing"), with_reason "lease_stale" c), a)
  unfolding verify_claim_state by_signer by_connection ask_agent by_reply then_close
  stale_reported wire a l n e d =
      rw
        (
          n,
          at.has_key c.status a,
          at.connected a,
          at.reads c.status.wan_interface a,
          get_lease-get h http local_addr c.status.wan_interface wire a,
          e,
          lease-drifted l a (is_stale l.status || not l.interface_exists) refl d,
          at.closed a,
        )
        refl

  -- Once the agent holds a lease that it has marked stale, or whose interface is gone, the claim does not get an address again by itself. If the controller's calls reach the agent, the verification of the claim reports the lease and changes nothing on the agent; and whatever the status of the claim then is, the allocation for its interface that follows has its script refused, the agent keeps its leases, its loops and its host as they are, and the claim is written as Failed.
  pub stale_lease_blocks :
      {M : Type 0} (ops : Ops (Agent W) M) (mac : String)
      (reads : GetWired h http local_addr c.status.wan_interface)
      (posts : PostWired h http local_addr (record {
        iface = c.status.wan_interface;
        wan_parent = c.spec.router.wan_parent;
        mac_address = mac;
      }))
      (a : Agent W) (l : Lease)
      → ((c' : Claim) (iface : String) (b : Agent W)
          → ops.run_router_script c' iface mac b
            ≡ default_run_router_script checks.keys checks.agents c' iface mac b)
      → is_empty c.status.wan_interface ≡ false
      → get c.status.wan_interface a.store ≡ some l
      → is_stale l.status || not l.interface_exists ≡ true
      → (verify_claim_state checks c a
          ≡ ((err (lit "lease stale or interface missing"), with_reason "lease_stale" c), a))
        × ((s : ClaimStatus)
            → Blocked a
                (ops.run_router_script (record c { status = s }) c.status.wan_interface mac a)
              × WrittenFailed ops c.status.wan_interface mac (record c { status = s }) a)
  stale_lease_blocks ops mac reads posts a l script n e d =
      let iface = c.status.wan_interface in
      let refused =
        allocate_lease-Blocked h http local_addr
          (record { iface = iface; wan_parent = c.spec.router.wan_parent; mac_address = mac }) posts
          a l e in
      (
        stale_reported reads a l n e d,
        λ s.
            let c' : Claim = record c { status = s } in
            let blocked : Blocked a (ops.run_router_script c' iface mac a) =
              rw (script c' iface a) (
                script-Blocked checks.agents http local_addr c checks.keys at iface mac s a
                  refused) in
            (blocked, blocked-WrittenFailed ops iface mac c' a blocked),
      )
