-- ===== src/Api.antt =====
-- api/v1alpha1/publicipclaim_types.go: the PublicIPClaim resource, with the parts of its metadata
-- that the controller reads or writes. Times are numbers of seconds.
use cilium_dhcp_wanip_operat.Base.{ℕ, String, Bool, Option, List, Text}
use cilium_dhcp_wanip_operat.Base.Dict.{Dict}

pub record RouterSpec : Type 0 where
  pub host : String
  pub port : ℕ
  pub user : String
  pub ssh_secret_ref : String
  pub command : String
  pub wan_parent : String
  pub wan_interface : String
  pub mac_address : String

-- `unset` is the empty phase of a claim that no reconcile has written.
pub data ClaimPhase : Type 0 where
  unset pending provisioning ready failed : ClaimPhase

pub data ConditionStatus : Type 0 where
  condition_true condition_false condition_unknown : ConditionStatus

-- metav1.Condition, without the transition time that `SetStatusCondition` keeps.
pub record Condition : Type 0 where
  pub type : String
  pub status : ConditionStatus
  pub reason : String
  pub message : Text
  pub observed_generation : ℕ

abbrev pub condition_ready : String
condition_ready = "Ready"

abbrev pub condition_recovering : String
condition_recovering = "Recovering"

pub record ClaimSpec : Type 0 where
  pub pool_name : String
  pub router : RouterSpec

pub record ClaimStatus : Type 0 where
  pub phase : ClaimPhase
  pub message : Text
  pub assigned_ip : String
  pub wan_interface : String
  pub mac_address : String
  pub router_uptime : ℕ
  pub last_verified : Option ℕ
  pub configuration_verified : Bool
  pub last_reconciliation_reason : String
  pub connection_state : String
  pub conditions : List Condition

-- A deletion timestamp is present while the claim is being deleted.
pub record Claim : Type 0 where
  pub name : String
  pub claim_namespace : String
  pub generation : ℕ
  pub deletion_timestamp : Option ℕ
  pub finalizers : List String
  pub annotations : Dict String
  pub spec : ClaimSpec
  pub status : ClaimStatus
