-- ===== src/Ssh/Words.antt =====
-- The standard library's functions on texts that internal/ssh uses, on code points.
use mathlib.Core.List.{reverse}
use cilium_dhcp_wanip_operat.Base.{
  ℕ, Bool, true, false, ◌&&◌, ◌||◌, List, [], ◌∷◌, ◌++◌, leb, eqb, if◌then◌else◌,
}

-- `unicode.IsSpace`
abbrev pub is_space : ℕ → Bool
is_space c =
    leb 9 c && leb c 13
    || eqb c 32
    || eqb c 0x85
    || eqb c 0xa0
    || eqb c 0x1680
    || leb 0x2000 c && leb c 0x200a
    || eqb c 0x2028
    || eqb c 0x2029
    || eqb c 0x202f
    || eqb c 0x205f
    || eqb c 0x3000

abbrev trim_left : List ℕ → List ℕ
trim_left [] = []
trim_left (c ∷ cs) = if is_space c then trim_left cs else c ∷ cs

-- `strings.TrimSpace`
unfoldable pub trim_space : List ℕ → List ℕ
trim_space s = reverse (trim_left (reverse (trim_left s)))

abbrev pub text_eq : List ℕ → List ℕ → Bool
text_eq [] [] = true
text_eq [] (d ∷ ds) = false
text_eq (c ∷ cs) [] = false
text_eq (c ∷ cs) (d ∷ ds) = eqb c d && text_eq cs ds

abbrev has_prefix : List ℕ → List ℕ → Bool
has_prefix s [] = true
has_prefix [] (p ∷ ps) = false
has_prefix (c ∷ cs) (p ∷ ps) = eqb c p && has_prefix cs ps

-- `strings.Contains`
unfoldable pub contains : List ℕ → List ℕ → Bool
contains [] sub = has_prefix [] sub
contains (c ∷ cs) sub = has_prefix (c ∷ cs) sub || contains cs sub

-- A field that is complete is kept unless it is empty.
abbrev flush : List ℕ → List (List ℕ) → List (List ℕ)
flush [] rest = rest
flush (c ∷ cs) rest = reverse (c ∷ cs) ∷ rest

-- `word` is the field that is being read, backwards.
fields_from : List ℕ → List ℕ → List (List ℕ)
fields_from word [] = flush word []
fields_from word (c ∷ cs) = elim (is_space c) [
  | true ↦ flush word (fields_from [] cs)
  | false ↦ fields_from (c ∷ word) cs
]

-- `strings.Fields`
unfoldable pub fields : List ℕ → List (List ℕ)
unfolding fields_from
fields s = fields_from [] s

-- `strings.ReplaceAll(s, old, new)` for an `old` of one character.
unfoldable pub replace_all : ℕ → List ℕ → List ℕ → List ℕ
replace_all old new [] = []
replace_all old new (c ∷ cs) =
    let rest = replace_all old new cs in if eqb c old then new ++ rest else c ∷ rest
