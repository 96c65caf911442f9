-- ===== src/Base/Codes.antt =====
-- A text as the list of its code points, and back, for the functions that walk a text.
use Prim.Native.Nat.{ℕ, ◌<◌}
use Prim.Native.Char.{Char, char, code, IsScalar, nul}
use Prim.Native.String.{String}
use Prim.Native.String
use Prim.Native.String.append
use mathlib.Core.Path.{◌≡◌, refl, ap, ap₂}
use mathlib.Core.Logic.{dite}
use mathlib.Core.List.{List, [], ◌∷◌, ◌++◌}
use native.Mathlib.Omega.{arith}
use native.Mathlib.Decide.{dec_lt}
use cilium_dhcp_wanip_operat.Base.Lists.{All}

-- `[]rune(s)`
abbrev pub codes : String → List ℕ
codes String.[] = []
codes (String.◌∷◌ c s) = code c ∷ codes s

ascii-IsScalar : (n : ℕ) → n < 128 → IsScalar n
ascii-IsScalar n h = ground arith

to_char : ℕ → Char
unfolding dec_lt
to_char n = dite (dec_lt n 128) (λ h. char n (ascii-IsScalar n h)) (λ _. nul)

-- `string(runes)`, for code points below 128.
unfoldable pub of_codes : List ℕ → String
unfolding to_char dec_lt ascii-IsScalar
of_codes [] = String.[]
of_codes (n ∷ ns) = String.◌∷◌ (to_char n) (of_codes ns)

code-to_char : (n : ℕ) → n < 128 → code (to_char n) ≡ n
unfolding to_char dec_lt
code-to_char n h = ground arith

pub codes-of_codes : (ns : List ℕ) → All (λ n. n < 128) ns → codes (of_codes ns) ≡ ns
unfolding of_codes
codes-of_codes [] h = refl
codes-of_codes (n ∷ ns) h = ap₂ ◌∷◌ (code-to_char n h.0) (codes-of_codes ns h.1)

pub codes-append : (s t : String) → codes (String.◌++◌ s t) ≡ codes s ++ codes t
codes-append String.[] t = rw (append.nil t)
codes-append (String.◌∷◌ c s) t = rw (append.cons c s t) (ap (◌∷◌ (code c)) (codes-append s t))
