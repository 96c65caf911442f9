-- ===== src/Ssh/Registry/Samples.antt =====
-- A registry with one manager.
use cilium_dhcp_wanip_operat.Base.{◌≡◌, refl, ℕ, String, none, some, ok, is_ok, List, [], ◌∷◌}
use cilium_dhcp_wanip_operat.Base.Dict.{lookup, insert, delete}
use cilium_dhcp_wanip_operat.Ssh.Config.{RouterConfig, split_host_port, validate}
use cilium_dhcp_wanip_operat.Ssh.Manager.{new_ssh_connection_manager}
use cilium_dhcp_wanip_operat.Ssh.Registry.{
  Registry, new_registry, get_or_create, config_identity, close_all, len, remove,
}
use cilium_dhcp_wanip_operat.Ssh.Registry.Refines.{
  RegistryCall, creates, removes, closes_all, run_registry, Sharing, run_sharing, nothing_shared,
  shared_for, gives, number_of, Refines, run_registry-Refines,
}

abbrev config : RouterConfig
config = record {
  address = "192.168.1.1:22";
  username = "root";
  auth_method = some "key";
  host_key_callback = none;
  timeout = 0;
  keep_alive_interval = 0;
  keep_alive_command = "";
  dial = none;
  runner = none;
  max_backoff = 0;
  initial_backoff = 0;
}

abbrev zero_duration : ℕ → String
zero_duration t = "0s"

abbrev empty : Registry String
empty = new_registry

abbrev one : Registry String
one = (get_or_create zero_duration config empty).1

created : (get_or_create zero_duration config empty).0 ≡ ok 0
unfolding get_or_create config_identity new_ssh_connection_manager validate split_host_port lookup
created = refl

abbrev other : RouterConfig
other = record config { username = "admin" }

abbrev calls : List RegistryCall
calls =
    creates config
    ∷ creates other
    ∷ removes "192.0.2.9:22"
    ∷ closes_all
    ∷ creates other
    ∷ creates config
    ∷ []

registry_test : len (run_registry {H = String} zero_duration calls new_registry) ≡ 2
unfolding run_registry get_or_create config_identity new_ssh_connection_manager validate
    split_host_port lookup insert delete close_all remove len
registry_test = refl

abbrev shared_after : Sharing
shared_after = run_sharing zero_duration calls nothing_shared

-- The manager that was made before all were closed is not given again.
given_test :
    number_of
      (get_or_create zero_duration config
        (run_registry {H = String} zero_duration calls new_registry)).0
    ≡ some 3
unfolding run_registry get_or_create config_identity new_ssh_connection_manager validate
    split_host_port lookup insert delete close_all remove
given_test = refl

run_registry-Refines_example :
    let r = run_registry {H = String} zero_duration calls new_registry in
    (number_of (get_or_create zero_duration config r).0
      ≡ gives (shared_for zero_duration config shared_after) (is_ok (validate config)) shared_after)
    × Refines r shared_after
run_registry-Refines_example = run_registry-Refines zero_duration calls config
