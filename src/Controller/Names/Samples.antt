-- ===== src/Controller/Names/Samples.antt =====
-- Claims whose generated names are looked at.
use cilium_dhcp_wanip_operat.Base.{◌≡◌, ◌≤◌, ok, arith, All, length}
use cilium_dhcp_wanip_operat.Base.Codes.{codes}
use cilium_dhcp_wanip_operat.Ssh.Commands.{validate_interface_name}
use cilium_dhcp_wanip_operat.Controller.Names.{generated_interface}
use cilium_dhcp_wanip_operat.Controller.Names.Generated.{IsLabel, generated_interface-valid}
use cilium_dhcp_wanip_operat.Controller.Names.Collisions.{generated_interface_collides}

generated_interface-valid_example :
    All IsLabel (codes (generated_interface "Böblingen_Office"))
    × (length (codes (generated_interface "Böblingen_Office")) ≤ 14)
    × (validate_interface_name (codes (generated_interface "Böblingen_Office")) ≡ ok tt)
generated_interface-valid_example = generated_interface-valid "Böblingen_Office"

generated_interface_collides_example :
    generated_interface "production-web" ≡ generated_interface "production-mail"
generated_interface_collides_example =
    generated_interface_collides "production" "-web" "-mail" (omega arith)
