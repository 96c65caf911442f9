-- ===== src/Controller/Credentials.antt =====
-- internal/controller/publicipclaim_controller.go: the SSH key of a claim's router, which each of
-- the calls to the router reads anew, and the configuration of the client of the agent.
use cilium_dhcp_wanip_operat.Base.{
  ◌*◌, String, Option, none, some, Result, lit, fmt, is_empty, if◌then◌else◌,
}
use cilium_dhcp_wanip_operat.Base.Action.{Action, fails, wrapping, ◌>>=◌}
use cilium_dhcp_wanip_operat.Base.Dict.{Dict, lookup}
use cilium_dhcp_wanip_operat.Api.{Claim}
use cilium_dhcp_wanip_operat.Router.Connection.{ClientConfig}
use cilium_dhcp_wanip_operat.Controller.Reconcile.Calls.{second}

-- `get_secret` reads the data of a secret by its name and namespace; `parse_private_key` is
-- ssh.ParsePrivateKey. A signer is named by a text.
pub record Keys (W : Type 0) : Type 0 where
  pub get_secret : String → String → Action W (Dict String)
  pub parse_private_key : String → Result String

-- `m[k]` of a map of bytes, which is empty for a missing key.
abbrev pub value_or_empty : Option String → String
value_or_empty none = ""
value_or_empty (some key) = key

module _ {W : Type 0} (keys : Keys W) where
  unfoldable pub parse_key : String → String → Action W String
  parse_key secret_ref key =
      if is_empty key
      then fails (fmt "ssh private key not found in secret %s/id_rsa" (lit secret_ref))
      else wrapping "failed to parse SSH private key: %w" (λ w. (keys.parse_private_key key, w))

  unfoldable pub ssh_signer : Claim → Action W String
  unfolding parse_key
  ssh_signer c = do
    data_of ←
        wrapping "failed to get SSH secret: %w"
          (keys.get_secret c.spec.router.ssh_secret_ref "kube-system")
    parse_key c.spec.router.ssh_secret_ref (value_or_empty (lookup "id_rsa" data_of))

abbrev pub client_config : Claim → String → ClientConfig
client_config c signer = record {
  user = c.spec.router.user;
  signer = signer;
  timeout = 30 * second;
}
