-- ===== src/Ssh/Commands.antt =====
-- internal/ssh/commands.go: the queries that a manager runs on its router.
pub mod Quoting
pub mod Queries
mod Samples
use cilium_dhcp_wanip_operat.Base.{
  ℕ, String, Bool, true, false, ◌&&◌, ◌||◌, List, [], ◌∷◌, ◌++◌, Text, lit, Result, ok, err, leb,
  eqb, if◌then◌else◌,
}
use cilium_dhcp_wanip_operat.Base.Codes.{codes}
use cilium_dhcp_wanip_operat.Base.Action.{Action, returns, ◌>>=◌, ◌>>◌}
use cilium_dhcp_wanip_operat.Ssh.Words.{trim_space, text_eq, contains, fields, replace_all}

-- A character of the pattern `[a-zA-Z0-9_.:-]`.
abbrev pub is_name_char : ℕ → Bool
is_name_char c =
    leb b'a' c && leb c b'z'
    || leb b'A' c && leb c b'Z'
    || leb b'0' c && leb c b'9'
    || eqb c b'_'
    || eqb c b'.'
    || eqb c b':'
    || eqb c b'-'

abbrev pub all_name_chars : List ℕ → Bool
all_name_chars [] = true
all_name_chars (c ∷ cs) = is_name_char c && all_name_chars cs

-- `ifaceNamePattern.MatchString`
abbrev pub matches_pattern : List ℕ → Bool
matches_pattern [] = false
matches_pattern (c ∷ cs) = all_name_chars (c ∷ cs)

unfoldable pub validate_interface_name : List ℕ → Result (Unit {0})
validate_interface_name [] = err (lit "interface name must not be empty")
validate_interface_name (c ∷ cs) =
    if matches_pattern (c ∷ cs) then ok tt else err (lit "invalid interface name %q")

-- The characters `'` and `"`.
abbrev pub quote : ℕ
quote = 39

abbrev pub double_quote : ℕ
double_quote = 34

-- A quote inside a quoted text: close, a double-quoted quote, open.
abbrev pub quoted_quote : List ℕ
quoted_quote = quote ∷ double_quote ∷ quote ∷ double_quote ∷ quote ∷ []

unfoldable pub shell_quote : List ℕ → List ℕ
shell_quote [] = quote ∷ quote ∷ []
shell_quote (c ∷ cs) = quote ∷ (replace_all quote quoted_quote (c ∷ cs) ++ quote ∷ [])

-- The commands, as `fmt.Sprintf` builds them.
abbrev pub exists_command : List ℕ → List ℕ
exists_command iface =
    codes "if [ -d "
    ++ (shell_quote (codes "/sys/class/net/" ++ iface)
        ++ codes " ]; then echo true; else echo false; fi")

abbrev pub udhcpc_command : List ℕ
udhcpc_command = codes "if pgrep -x udhcpc >/dev/null 2>&1; then echo true; else echo false; fi"

abbrev pub mac_command : List ℕ → List ℕ
mac_command iface =
    codes "cat " ++ shell_quote (codes "/sys/class/net/" ++ (iface ++ codes "/address"))

abbrev pub ip_command : List ℕ → List ℕ
ip_command iface =
    codes "ip -4 -o addr show dev "
    ++ (shell_quote iface
        ++ (codes " scope global | awk 'NR==1 {split($4, a, "
            ++ (double_quote ∷ (b'/' ∷ (double_quote ∷ codes "); print a[1]}'")))))

abbrev pub proxy_arp_command : List ℕ → List ℕ
proxy_arp_command iface =
    codes "cat " ++ shell_quote (codes "/proc/sys/net/ipv4/conf/" ++ (iface ++ codes "/proxy_arp"))

abbrev pub operstate_command : List ℕ → List ℕ
operstate_command iface =
    codes "cat " ++ shell_quote (codes "/sys/class/net/" ++ (iface ++ codes "/operstate"))

non_empty_ip : List ℕ → Result (List ℕ)
non_empty_ip [] = err (lit "interface has no IPv4 address")
non_empty_ip (c ∷ cs) = ok (c ∷ cs)

-- The loop of `ListManagedInterfaces`.
abbrev pub keep_names : List (List ℕ) → List (List ℕ)
keep_names [] = []
keep_names (n ∷ ns) = let rest = keep_names ns in if matches_pattern n then n ∷ rest else rest

-- `if err := validateInterfaceName(iface); err != nil { return …, err }`
checked : {W : Type 0} → List ℕ → Action W (Unit {0})
checked iface w = (validate_interface_name iface, w)

-- The commands run through the manager's `RunCommand`, which is given here as `run`: it returns
-- the output of a command. `W` is the state of the manager and the router.
module _ {W : Type 0} (run : List ℕ → Action W (List ℕ)) where
  unfoldable pub interface_exists : List ℕ → Action W Bool
  unfolding checked
  interface_exists iface = do
    checked iface
    out ← run (exists_command iface)
    returns (contains out (codes "true"))

  unfoldable pub is_udhcpc_running : Action W Bool
  is_udhcpc_running = do out ← run udhcpc_command; returns (contains out (codes "true"))

  unfoldable pub get_interface_mac : List ℕ → Action W (List ℕ)
  unfolding checked
  get_interface_mac iface = do
    checked iface
    out ← run (mac_command iface)
    returns (trim_space out)

  unfoldable pub get_interface_ip : List ℕ → Action W (List ℕ)
  unfolding checked non_empty_ip
  get_interface_ip iface = do
    checked iface
    out ← run (ip_command iface)
    (λ w. (non_empty_ip (trim_space out), w))

  unfoldable pub is_proxy_arp_enabled : List ℕ → Action W Bool
  unfolding checked
  is_proxy_arp_enabled iface = do
    checked iface
    out ← run (proxy_arp_command iface)
    returns (text_eq (trim_space out) (codes "1"))

  unfoldable pub is_interface_up : List ℕ → Action W Bool
  unfolding checked
  is_interface_up iface = do
    checked iface
    out ← run (operstate_command iface)
    returns (text_eq (trim_space out) (codes "up"))

  unfoldable pub list_managed_interfaces : Action W (List (List ℕ))
  list_managed_interfaces = do
    out ← run (codes "ls /sys/class/net")
    returns (keep_names (fields out))
