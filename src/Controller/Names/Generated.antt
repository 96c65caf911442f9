-- ===== src/Controller/Names/Generated.antt =====
-- internal/controller/publicipclaim_controller.go: the generated interface names are names that
-- the custom resource's pattern, the kernel and internal/ssh accept.
use cilium_dhcp_wanip_operat.Base.{
  ◌≡◌, ◌≤◌, ◌<◌, refl, ℕ, String, true, ◌&&◌, ◌||◌, List, [], ◌∷◌, ◌++◌, map, ok, arith, leb, ltb,
  eqb, length, All, All-map, All-take, length-take, Bool-cases, inl, inr,
}
use cilium_dhcp_wanip_operat.Base.Codes.{codes, codes-of_codes, codes-append}
use cilium_dhcp_wanip_operat.Ssh.Commands.{all_name_chars, validate_interface_name}
use cilium_dhcp_wanip_operat.Controller.Names.{
  keep_or_dash, to_lower, sanitize, sanitize_name, generated_interface,
}

-- A character of the pattern `[a-z0-9-]` that the custom resource sets for `wanInterface`.
abbrev pub IsLabel : ℕ → Type 0
IsLabel c = (leb b'a' c && leb c b'z' || leb b'0' c && leb c b'9' || eqb c b'-') ≡ true

keep_or_dash-IsLabel : (c : ℕ) → IsLabel (keep_or_dash c)
unfolding keep_or_dash
keep_or_dash-IsLabel c = ground arith

sanitize-labels : (name : List ℕ) → All IsLabel (sanitize name) × (length (sanitize name) ≤ 10)
unfolding sanitize
sanitize-labels name =
    let s = map keep_or_dash (map to_lower name) in
    let labels : All IsLabel s =
      All-map IsLabel keep_or_dash (map to_lower name) keep_or_dash-IsLabel in
    elim (Bool-cases (ltb 10 (length s))) [
      | inl long ↦ rw long (All-take IsLabel 10 s labels, omega (arith, length-take 10 s))
      | inr short ↦ rw short (labels, ground arith)
    ]

IsLabel-ascii : (ns : List ℕ) → All IsLabel ns → All (λ n. n < 128) ns
IsLabel-ascii [] h = tt
IsLabel-ascii (c ∷ cs) h = (ground (arith, h.0), IsLabel-ascii cs h.1)

IsLabel-name_chars : (ns : List ℕ) → All IsLabel ns → all_name_chars ns ≡ true
IsLabel-name_chars [] h = refl
IsLabel-name_chars (c ∷ cs) h = ground (arith, h.0, IsLabel-name_chars cs h.1)

codes-generated :
    (name : String) → codes (generated_interface name) ≡ codes "wan-" ++ sanitize (codes name)
unfolding generated_interface
codes-generated name = rw (codes-append "wan-" (sanitize_name name)) (
    unfold sanitize_name in
    rw (codes-of_codes (sanitize (codes name)) (IsLabel-ascii _ (sanitize-labels (codes name)).0))
      refl)

-- The interface name that is generated for a claim of any name consists of lower-case letters, digits and dashes, is at most 14 characters long, and passes the validation of internal/ssh.
pub generated_interface-valid :
    (name : String)
    → All IsLabel (codes (generated_interface name))
      × (length (codes (generated_interface name)) ≤ 14)
      × (validate_interface_name (codes (generated_interface name)) ≡ ok tt)
unfolding validate_interface_name
generated_interface-valid name =
    let h = sanitize-labels (codes name) in
    rw (codes-generated name) (
      (refl, (refl, (refl, (refl, h.0)))),
      omega arith,
      rw (IsLabel-name_chars (sanitize (codes name)) h.0) refl,
    )
