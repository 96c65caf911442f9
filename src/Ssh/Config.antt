-- ===== src/Ssh/Config.antt =====
-- internal/ssh/manager.go: `RouterConfig`, its validation and its defaults. Durations are numbers
-- of nanoseconds.
use cilium_dhcp_wanip_operat.Base.{
  ℕ, ◌*◌, String, Bool, true, false, Option, none, some, List, [], ◌∷◌, lit, fmt, Result, ok, err,
  eqb, is_empty, if◌then◌else◌,
}
use cilium_dhcp_wanip_operat.Base.Codes.{codes}

abbrev pub second : ℕ
second = 1000000000

abbrev pub minute : ℕ
minute = 60 * second

-- The authentication method, the host key callback, the dial function and the runner are values
-- of golang.org/x/crypto/ssh; a config names each by its identity.
pub record RouterConfig : Type 0 where
  pub address : String
  pub username : String
  pub auth_method : Option String
  pub host_key_callback : Option String
  pub timeout : ℕ
  pub keep_alive_interval : ℕ
  pub keep_alive_command : String
  pub dial : Option String
  pub runner : Option String
  pub max_backoff : ℕ
  pub initial_backoff : ℕ

abbrev has_code : ℕ → List ℕ → Bool
has_code c [] = false
has_code c (d ∷ ds) = if eqb c d then true else has_code c ds

abbrev in_front : ℕ → Option (List ℕ × List ℕ) → Option (List ℕ × List ℕ)
in_front d none = none
in_front d (some (before, behind)) = some (d ∷ before, behind)

-- What stands before the first `c` and what behind it.
abbrev split_at : ℕ → List ℕ → Option (List ℕ × List ℕ)
split_at c [] = none
split_at c (d ∷ ds) = if eqb d c then some ([], ds) else in_front d (split_at c ds)

-- `host:port` without brackets: one colon, and no bracket at all.
abbrev plain_host_port : List ℕ → Option (List ℕ × List ℕ) → Option (List ℕ × List ℕ)
plain_host_port s none = none
plain_host_port s (some (host, port)) =
    if has_code b':' port
    then none
    else if has_code b'[' s
    then none
    else if has_code b']' s
    then none
    else some (host, port)

-- What follows the closing bracket has to be the last colon and the port.
abbrev behind_bracket : List ℕ → List ℕ → Option (List ℕ × List ℕ)
behind_bracket host [] = none
behind_bracket host (c ∷ port) =
    if eqb c b':'
    then (if has_code b':' port
        then none
        else if has_code b'[' host
        then none
        else if has_code b'[' port
        then none
        else if has_code b']' port
        then none
        else some (host, port))
    else none

abbrev bracketed : Option (List ℕ × List ℕ) → Option (List ℕ × List ℕ)
bracketed none = none
bracketed (some (host, rest)) = behind_bracket host rest

-- `net.SplitHostPort`, with `none` for its errors.
unfoldable pub split_host_port : List ℕ → Option (List ℕ × List ℕ)
split_host_port [] = none
split_host_port (c ∷ cs) =
    if eqb c b'['
    then bracketed (split_at b']' cs)
    else plain_host_port (c ∷ cs) (split_at b':' (c ∷ cs))

abbrev after_address : RouterConfig → Option (List ℕ × List ℕ) → Result (Unit {0})
after_address c none = err (fmt "address %q must be host:port: %w" (lit c.address))
after_address c (some hp) =
    if is_empty c.username
    then err (lit "username must be provided")
    else elim c.auth_method [ none ↦ err (lit "auth method must be provided") | some a ↦ ok tt ]

-- `Validate` of a config that is not nil.
unfoldable pub validate : RouterConfig → Result (Unit {0})
validate c =
    if is_empty c.address
    then err (lit "address must be provided")
    else after_address c (split_host_port (codes c.address))

-- The defaults that `NewSSHConnectionManager` fills in.
unfoldable pub with_defaults : RouterConfig → RouterConfig
with_defaults c = record c {
  timeout = if eqb c.timeout 0 then 30 * second else c.timeout;
  keep_alive_interval = if eqb c.keep_alive_interval 0 then 30 * second else c.keep_alive_interval;
  keep_alive_command =
      if is_empty c.keep_alive_command then "cat /proc/uptime" else c.keep_alive_command;
  initial_backoff = if eqb c.initial_backoff 0 then 2 * second else c.initial_backoff;
  max_backoff = if eqb c.max_backoff 0 then minute else c.max_backoff;
}
