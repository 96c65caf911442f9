-- ===== src/Controller/Example.antt =====
-- A claim on which the theorems of the controller are tried.
use cilium_dhcp_wanip_operat.Base.{false, none, [], ◌∷◌, lit}
use cilium_dhcp_wanip_operat.Api.{Claim, unset}
use cilium_dhcp_wanip_operat.Controller.Reconcile.Calls.{finalizer_name}

abbrev pub new_claim : Claim
new_claim = record {
  name = "home";
  claim_namespace = "";
  generation = 1;
  deletion_timestamp = none;
  finalizers = finalizer_name ∷ [];
  annotations = [];
  spec = record {
    pool_name = "wan";
    router = record {
      host = "192.168.1.1";
      port = 22;
      user = "root";
      ssh_secret_ref = "router-key";
      command = "/usr/local/bin/alloc_public_ip.sh";
      wan_parent = "eth9";
      wan_interface = "";
      mac_address = "";
    };
  };
  status = record {
    phase = unset;
    message = lit "";
    assigned_ip = "";
    wan_interface = "";
    mac_address = "";
    router_uptime = 0;
    last_verified = none;
    configuration_verified = false;
    last_reconciliation_reason = "";
    connection_state = "";
    conditions = [];
  };
}
