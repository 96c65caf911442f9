-- ===== src/Ssh/Uptime.antt =====
-- internal/ssh/manager.go and commands.go: the uptime of the router, in hundredths of a second, as
-- /proc/uptime prints it. `parse_float` is `strconvParseFloat`, a variable of the package.
use cilium_dhcp_wanip_operat.Base.{ℕ, ◌*◌, ◌/◌, List, [], ◌∷◌, lit, fmt, Result, ok, err}
use cilium_dhcp_wanip_operat.Base.Codes.{codes}
use cilium_dhcp_wanip_operat.Base.Action.{Action, returns, ◌>>=◌}
use cilium_dhcp_wanip_operat.Ssh.Words.{fields, trim_space}

abbrev parsed : Result ℕ → Result ℕ
parsed (ok v) = ok v
parsed (err e) = err (fmt "parse uptime: %w" e)

unfoldable pub parse_float : (List ℕ → Result ℕ) → List ℕ → Result ℕ
parse_float strconv value = parsed (strconv (trim_space value))

abbrev first_field : (List ℕ → Result ℕ) → List (List ℕ) → Result ℕ
first_field strconv [] = err (lit "empty uptime output")
first_field strconv (f ∷ fs) = strconv f

unfoldable pub parse_uptime : (List ℕ → Result ℕ) → List ℕ → Result ℕ
unfolding parse_float
parse_uptime strconv out = first_field (parse_float strconv) (fields out)

-- `GetRouterUptime`: a duration in nanoseconds.
unfoldable pub get_router_uptime :
    {W : Type 0} → (List ℕ → Result ℕ) → (List ℕ → Action W (List ℕ)) → Action W ℕ
unfolding parse_uptime
get_router_uptime strconv run = do
  output ← run (codes "cat /proc/uptime")
  uptime ← (λ w. (parse_uptime strconv output, w))
  returns (uptime * 10000000)

-- `int64(uptime.Seconds())`
abbrev pub whole_seconds : ℕ → ℕ
whole_seconds d = d / 1000000000
