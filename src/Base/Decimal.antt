-- ===== src/Base/Decimal.antt =====
-- `%d` of a number that is not negative. Twenty digits are enough for 64 bits.
use Prim.Native.Nat.{ℕ, zero, suc, ◌+◌, ◌-◌, ◌*◌, ◌/◌, ◌%◌, ◌^◌, ◌<◌}
use Prim.Native.String.{String}
use mathlib.Core.Path.{◌≡◌, refl}
use mathlib.Core.Bool.{true, false}
use mathlib.Core.List.{List, [], ◌∷◌}
use native.Mathlib.Omega.{arith}
use cilium_dhcp_wanip_operat.Base.Codes.{of_codes}
use cilium_dhcp_wanip_operat.Base.Tests.{ltb}

-- The digits, the last first.
digits : ℕ → ℕ → List ℕ
digits zero n = []
digits (suc fuel) n = elim (ltb n 10) [
  | true ↦ (b'0' + n) ∷ []
  | false ↦ (b'0' + n % 10) ∷ digits fuel (n / 10)
]

reversed : List ℕ → List ℕ → List ℕ
reversed [] behind = behind
reversed (d ∷ ds) behind = reversed ds (d ∷ behind)

unfoldable pub decimal : ℕ → String
unfolding digits reversed of_codes
decimal n = of_codes (reversed (digits 20 n) [])

digits_value : List ℕ → ℕ
digits_value [] = 0
digits_value (d ∷ ds) = d - b'0' + 10 * digits_value ds

digits_value-digits : (fuel n : ℕ) → n < 10 ^ fuel → digits_value (digits fuel n) ≡ n
unfolding digits digits_value
digits_value-digits zero n h = omega arith
digits_value-digits (suc fuel) n h = ground (arith, digits_value-digits fuel (n / 10) (omega arith))

enough_digits : (n : ℕ) → n < 2 ^ 64 → digits_value (digits 20 n) ≡ n
enough_digits n h = digits_value-digits 20 n (omega arith)

decimal_test : decimal 2222 ≡ "2222"
unfolding decimal
decimal_test = refl
