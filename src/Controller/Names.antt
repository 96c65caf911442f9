-- ===== src/Controller/Names.antt =====
-- internal/controller/publicipclaim_controller.go: the names and the hardware addresses that the
-- controller generates, and its other small helpers.
pub mod Generated
pub mod Collisions
mod Samples
use Prim.Native.String
use cilium_dhcp_wanip_operat.Base.{
  ◌≡◌, refl, ℕ, ◌+◌, ◌/◌, ◌%◌, String, ◌&&◌, ◌||◌, List, [], ◌∷◌, ◌++◌, map, leb, ltb, eqb, length,
  take, if◌then◌else◌,
}
use cilium_dhcp_wanip_operat.Base.Codes.{codes, of_codes}

-- `strings.ToLower` on one code point. Beyond ASCII only these two have an ASCII lower case; all
-- others stay beyond ASCII, where the callers do not tell them apart.
pub to_lower : ℕ → ℕ
to_lower c =
    if leb b'A' c && leb c b'Z'
    then c + 32
    else if eqb c 0x130
    then b'i'
    else if eqb c 0x212a
    then b'k'
    else c

-- The closure that `sanitizeName` maps over the name.
pub keep_or_dash : ℕ → ℕ
keep_or_dash r =
    if leb b'a' r && leb r b'z' || leb b'0' r && leb r b'9' || eqb r b'-' then r else b'-'

-- `sanitizeName` on code points; its result is ASCII, so that its length in bytes is its length.
unfoldable pub sanitize : List ℕ → List ℕ
unfolding to_lower keep_or_dash
sanitize name =
    let sanitized = map keep_or_dash (map to_lower name) in
    if ltb 10 (length sanitized) then take 10 sanitized else sanitized

unfoldable pub sanitize_name : String → String
unfolding sanitize of_codes
sanitize_name name = of_codes (sanitize (codes name))

-- `"wan-" + sanitizeName(claim.Name)`
unfoldable pub generated_interface : String → String
unfolding sanitize_name
generated_interface name = String.◌++◌ "wan-" (sanitize_name name)

-- `%x` of a number below 16.
abbrev pub hex_digit : ℕ → ℕ
hex_digit d = if ltb d 10 then b'0' + d else b'W' + d

-- `%02x` of a byte.
abbrev pub hex_byte : ℕ → List ℕ
hex_byte b = hex_digit (b / 16) ∷ hex_digit (b % 16) ∷ []

-- `generateUniqueMAC` from the five bytes that `rand.Read` puts into `buf`.
pub mac_codes : ℕ → ℕ → ℕ → ℕ → ℕ → List ℕ
mac_codes b0 b1 b2 b3 b4 =
    hex_byte 2
    ++ (b':'
        ∷ (hex_byte b0
            ++ (b':'
                ∷ (hex_byte b1
                    ++ (b':' ∷ (hex_byte b2 ++ (b':' ∷ (hex_byte b3 ++ (b':' ∷ hex_byte b4)))))))))

unfoldable pub generate_unique_mac : ℕ → ℕ → ℕ → ℕ → ℕ → String
unfolding mac_codes of_codes
generate_unique_mac b0 b1 b2 b3 b4 = of_codes (mac_codes b0 b1 b2 b3 b4)

unfoldable pub coalesce_int : ℕ → ℕ → ℕ
coalesce_int a b = if eqb a 0 then b else a

mac_test : generate_unique_mac 0 255 16 9 171 ≡ "02:00:ff:10:09:ab"
unfolding generate_unique_mac
mac_test = refl

interface_test : generated_interface "My_Claim.example" ≡ "wan-my-claim-e"
unfolding generated_interface
interface_test = refl
