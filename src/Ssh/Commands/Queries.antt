-- ===== src/Ssh/Commands/Queries.antt =====
-- internal/ssh/commands.go: what the queries answer.
use cilium_dhcp_wanip_operat.Base.{
  ◌≡◌, refl, ℕ, Bool, true, false, List, [], ◌∷◌, ok, err, Text, arith, if◌then◌else◌, All,
  Bool-cases, inl, inr, Result-cases, subst,
}
use cilium_dhcp_wanip_operat.Base.Action.{Action}
use cilium_dhcp_wanip_operat.Base.Codes.{codes}
use cilium_dhcp_wanip_operat.Ssh.Words.{contains, text_eq, trim_space, fields}
use cilium_dhcp_wanip_operat.Ssh.Commands.{
  matches_pattern, validate_interface_name, exists_command, operstate_command, proxy_arp_command,
  interface_exists, get_interface_mac, get_interface_ip, is_proxy_arp_enabled, is_interface_up,
  list_managed_interfaces, keep_names,
}

-- What `echo` prints for an answer.
abbrev pub echo : Bool → List ℕ
echo b = if b then codes "true\n" else codes "false\n"

-- What `cat` prints of the files that hold a flag and a state.
abbrev pub digit_line : Bool → List ℕ
digit_line b = if b then codes "1\n" else codes "0\n"

abbrev pub state_line : Bool → List ℕ
state_line b = if b then codes "up\n" else codes "down\n"

pub contains-echo : (b : Bool) → contains (echo b) (codes "true") ≡ b
unfolding contains
contains-echo true = refl
contains-echo false = refl

pub trim-digit : (b : Bool) → text_eq (trim_space (digit_line b)) (codes "1") ≡ b
unfolding trim_space
trim-digit true = refl
trim-digit false = refl

pub trim-state : (b : Bool) → text_eq (trim_space (state_line b)) (codes "up") ≡ b
unfolding trim_space
trim-state true = refl
trim-state false = refl

validate_of_match : (n : List ℕ) → matches_pattern n ≡ true → validate_interface_name n ≡ ok tt
unfolding validate_interface_name
validate_of_match [] h = cc
validate_of_match (c ∷ cs) h = rw h

keep_names-valid :
    (ns : List (List ℕ)) → All (λ n. validate_interface_name n ≡ ok tt) (keep_names ns)
keep_names-valid [] = tt
keep_names-valid (n ∷ ns) = elim (Bool-cases (matches_pattern n)) [
  | inl h ↦ rw h (validate_of_match n h, keep_names-valid ns)
  | inr h ↦ rw h (keep_names-valid ns)
]

module _ {W : Type 0} (run : List ℕ → Action W (List ℕ)) (iface : List ℕ) (w : W) where
  -- A name that is not valid is refused by every query, with the error of the validation, before any command runs.
  pub queries_refuse :
      {e : Text}
      → validate_interface_name iface ≡ err e
      → (interface_exists run iface w ≡ (err e, w))
        × (get_interface_mac run iface w ≡ (err e, w))
        × (get_interface_ip run iface w ≡ (err e, w))
        × (is_proxy_arp_enabled run iface w ≡ (err e, w))
        × (is_interface_up run iface w ≡ (err e, w))
  unfolding interface_exists get_interface_mac get_interface_ip is_proxy_arp_enabled is_interface_up
  queries_refuse h = ground arith

  -- With a valid name, and a router on which each command prints its answer, the queries return that answer: whether the directory exists, whether the file holds 1, whether the state is up.
  pub queries_answer :
      {w' : W} (exists enabled up : Bool)
      → validate_interface_name iface ≡ ok tt
      → run (exists_command iface) w ≡ (ok (echo exists), w')
      → run (proxy_arp_command iface) w ≡ (ok (digit_line enabled), w')
      → run (operstate_command iface) w ≡ (ok (state_line up), w')
      → (interface_exists run iface w ≡ (ok exists, w'))
        × (is_proxy_arp_enabled run iface w ≡ (ok enabled, w'))
        × (is_interface_up run iface w ≡ (ok up, w'))
  unfolding interface_exists is_proxy_arp_enabled is_interface_up
  queries_answer exists enabled up v p q r =
      ground (arith, contains-echo exists, trim-digit enabled, trim-state up)

-- Every name that `ListManagedInterfaces` returns would be accepted by the other queries.
pub list_managed-valid :
    {W : Type 0} (run : List ℕ → Action W (List ℕ)) (w : W) (names : List (List ℕ))
    → (list_managed_interfaces run w).0 ≡ ok names
    → All (λ n. validate_interface_name n ≡ ok tt) names
unfolding list_managed_interfaces
list_managed-valid run w names h = elim (Result-cases (run (codes "ls /sys/class/net") w).0) [
  | inl (out, e) ↦
      subst (All (λ n. validate_interface_name n ≡ ok tt)) (ground arith)
        (keep_names-valid (fields out))
  | inr (x, e) ↦ ground arith
]
