-- ===== src/Ssh/Commands/Samples.antt =====
-- A router on which the queries are tried.
use cilium_dhcp_wanip_operat.Base.{
  ◌≡◌, refl, ℕ, true, false, some, List, lit, ok, err, if◌then◌else◌,
}
use cilium_dhcp_wanip_operat.Base.Action.{Action}
use cilium_dhcp_wanip_operat.Base.Codes.{codes}
use cilium_dhcp_wanip_operat.Ssh.Words.{text_eq, replace_all}
use cilium_dhcp_wanip_operat.Ssh.Commands.{
  exists_command, proxy_arp_command, operstate_command, shell_quote,
}
use cilium_dhcp_wanip_operat.Ssh.Commands.Queries.{echo, digit_line, state_line}
use cilium_dhcp_wanip_operat.Ssh.Commands.Quoting.{bare, shell_word, shell_word-shell_quote}

abbrev wan : List ℕ
wan = codes "wan-home"

-- It answers the three commands about `wan-home`, lists two links, and counts the commands.
abbrev router : List ℕ → Action ℕ (List ℕ)
router cmd n =
    if text_eq cmd (exists_command wan)
    then (ok (echo true), n)
    else if text_eq cmd (proxy_arp_command wan)
    then (ok (digit_line false), n)
    else if text_eq cmd (operstate_command wan)
    then (ok (state_line true), n)
    else if text_eq cmd (codes "ls /sys/class/net")
    then (ok (codes "eth9 wan-home\n"), n)
    else (err (lit "command failed"), n)

quote_test : shell_quote (codes "it's") ≡ codes "'it'\"'\"'s'"
unfolding shell_quote replace_all
quote_test = refl

shell_word-shell_quote_example :
    shell_word bare (shell_quote (codes "a'; reboot")) ≡ some (codes "a'; reboot")
shell_word-shell_quote_example = shell_word-shell_quote (codes "a'; reboot")
