-- ===== src/Agent/Handlers.antt =====
-- internal/agent/agent.go and internal/agent/api/types.go: the HTTP handlers, which give a status
-- code and a body.
use cilium_dhcp_wanip_operat.Base.{
  ℕ, String, Bool, true, false, ◌||◌, Option, none, some, List, map, Text, lit, fmt, Result, ok,
  err, is_empty, if◌then◌else◌,
}
use cilium_dhcp_wanip_operat.Agent.State.{Status, Lease, Store, Agent, Host}
use cilium_dhcp_wanip_operat.Agent.Store.{get, list, acquire_inflight, release_inflight}
use cilium_dhcp_wanip_operat.Agent.Allocation.{allocate_lease, release_lease}

pub record LeaseRequest : Type 0 where
  pub iface : String
  pub wan_parent : String
  pub mac_address : String

pub record LeaseStatus : Type 0 where
  pub ip_address : String
  pub expires_at : ℕ
  pub renewal_count : ℕ
  pub status : Status
  pub interface_exists : Bool

pub data Body : Type 0 where
  no_body : Body
  error_response : Text → Body
  lease_response : String → ℕ → Body
  lease_status : LeaseStatus → Body
  lease_list : List LeaseStatus → Body

pub record Response : Type 0 where
  pub code : ℕ
  pub body : Body

abbrev pub send_error : ℕ → Text → Response
send_error code message = record { code = code; body = error_response message }

abbrev pub status_of : Lease → LeaseStatus
status_of l = record {
  ip_address = l.ip_address;
  expires_at = l.expires_at;
  renewal_count = l.renewal_count;
  status = l.status;
  interface_exists = l.interface_exists;
}

abbrev get_reply : String → Option Lease → Response
get_reply iface none = send_error 404 (fmt "lease not found: %s" (lit iface))
get_reply iface (some l) = record { code = 200; body = lease_status (status_of l) }

unfoldable pub handle_get_lease : String → Store → Response
handle_get_lease iface s = get_reply iface (get iface s)

unfoldable pub handle_list_leases : Store → Response
handle_list_leases s = record { code = 200; body = lease_list (map status_of (list s)) }

unfoldable pub handle_health : {W : Type 0} → Agent W → Response
handle_health a = record { code = if a.shut_down then 503 else 200; body = no_body }

abbrev pub in_progress : String → Response
in_progress iface =
    send_error 409 (fmt "operation already in progress for interface %s" (lit iface))

-- `defer a.store.ReleaseInflight(iface)`
abbrev pub releasing : {W : Type 0} → String → Response × Agent W → Response × Agent W
releasing iface (r, a) = (r, record a { store = release_inflight iface a.store })

module _ {W L D : Type 0} (h : Host W L D) where
  unfoldable pub allocate_reply : Result Lease × Agent W → Response × Agent W
  allocate_reply (ok l, a) =
      (record { code = 201; body = lease_response l.ip_address l.expires_at }, a)
  allocate_reply (err e, a) = (send_error 503 (fmt "failed to allocate lease: %v" e), a)

  unfoldable pub allocate_if_new :
      LeaseRequest → String → Option Lease → Agent W → Response × Agent W
  unfolding allocate_reply
  allocate_if_new req mac (some l) a =
      (send_error 409 (fmt "interface %s already has active lease" (lit req.iface)), a)
  allocate_if_new req mac none a = allocate_reply (allocate_lease h req.iface req.wan_parent mac a)

  unfoldable pub allocate_if_free :
      LeaseRequest → String → Bool × Store → Agent W → Response × Agent W
  unfolding allocate_if_new
  allocate_if_free req mac (false, s) a = (in_progress req.iface, a)
  allocate_if_free req mac (true, s) a =
      releasing req.iface (allocate_if_new req mac (get req.iface s) (record a { store = s }))

  unfoldable pub allocate_with_mac : LeaseRequest → Result String → Agent W → Response × Agent W
  unfolding allocate_if_free
  allocate_with_mac req (err e) a = (send_error 400 (fmt "invalid MAC address: %v" e), a)
  allocate_with_mac req (ok mac) a = allocate_if_free req mac (acquire_inflight req.iface a.store) a

  -- By what the decoder makes of the body.
  unfoldable pub handle_allocate_lease : Result LeaseRequest → Agent W → Response × Agent W
  unfolding allocate_with_mac
  handle_allocate_lease (err e) a = (send_error 400 (fmt "invalid request body: %v" e), a)
  handle_allocate_lease (ok req) a =
      if is_empty req.iface || is_empty req.wan_parent || is_empty req.mac_address
      then (send_error 400 (lit "interface, wanParent, and macAddress are required"), a)
      else allocate_with_mac req (h.parse_mac req.mac_address) a

  unfoldable pub release_reply : Result (Unit {0}) × Agent W → Response × Agent W
  release_reply (ok u, a) = (record { code = 204; body = no_body }, a)
  release_reply (err e, a) = (send_error 500 (fmt "failed to release lease: %v" e), a)

  unfoldable pub release_found : String → Option Lease → Agent W → Response × Agent W
  unfolding release_reply
  release_found iface none a = (send_error 404 (fmt "lease not found: %s" (lit iface)), a)
  release_found iface (some l) a = release_reply (release_lease h l a)

  unfoldable pub release_if_free : String → Bool × Store → Agent W → Response × Agent W
  unfolding release_found
  release_if_free iface (false, s) a = (in_progress iface, a)
  release_if_free iface (true, s) a =
      releasing iface (release_found iface (get iface s) (record a { store = s }))

  unfoldable pub handle_release_lease : String → Agent W → Response × Agent W
  unfolding release_if_free
  handle_release_lease iface a = release_if_free iface (acquire_inflight iface a.store) a

-- The requests that the routes of the server tell apart.
pub data Route (B : Type 0) : Type 0 where
  post_leases : B → Route B
  get_leases : Route B
  get_one : String → Route B
  delete_one : String → Route B
  get_health : Route B

-- `New` routes each request to its handler; `decode` is the JSON decoder of a body.
unfoldable pub serve :
    {W L D B : Type 0}
    → Host W L D
    → (B → Result LeaseRequest)
    → Route B
    → Agent W
    → Response × Agent W
serve h decode (post_leases body) a = handle_allocate_lease h (decode body) a
serve h decode get_leases a = (handle_list_leases a.store, a)
serve h decode (get_one iface) a = (handle_get_lease iface a.store, a)
serve h decode (delete_one iface) a = handle_release_lease h iface a
serve h decode get_health a = (handle_health a, a)
