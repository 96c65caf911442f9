-- ===== src/Ssh/Commands/Quoting.antt =====
-- internal/ssh/commands.go: `shellQuote` against the reading of words by a POSIX shell.
use cilium_dhcp_wanip_operat.Base.{
  ◌≡◌, refl, ap, ℕ, Bool, ◌||◌, Option, none, some, List, [], ◌∷◌, ◌++◌, eqb, arith, Bool-cases,
  inl, inr, if◌then◌else◌,
}
use cilium_dhcp_wanip_operat.Ssh.Words.{replace_all}
use cilium_dhcp_wanip_operat.Ssh.Commands.{
  is_name_char, quote, double_quote, quoted_quote, shell_quote,
}

-- Outside quotes, inside single quotes, inside double quotes.
pub data QuoteMode : Type 0 where
  bare single double : QuoteMode

-- The mode after a character, and whether the character belongs to the word. `none` is a
-- character that the shell does not take literally: it ends the word or expands to something.
abbrev shell_step : QuoteMode → ℕ → Option (QuoteMode × Bool)
shell_step bare c =
    if eqb c quote
    then some (single, Bool.false)
    else if eqb c double_quote
    then some (double, Bool.false)
    else if is_name_char c || eqb c b'/'
    then some (bare, Bool.true)
    else none
shell_step single c = if eqb c quote then some (bare, Bool.false) else some (single, Bool.true)
shell_step double c =
    if eqb c double_quote
    then some (bare, Bool.false)
    else if eqb c b'$' || eqb c b'`' || eqb c 92
    then none
    else some (double, Bool.true)

abbrev emit : Bool → ℕ → Option (List ℕ) → Option (List ℕ)
emit b c none = none
emit b c (some w) = some (if b then c ∷ w else w)

-- The word that the shell reads from a text, if the text is one word without expansions.
pub shell_word : QuoteMode → List ℕ → Option (List ℕ)
shell_word bare [] = some []
shell_word single [] = none
shell_word double [] = none
shell_word m (c ∷ cs) = elim (shell_step m c) [
  | none ↦ none
  | some (m', b) ↦ emit b c (shell_word m' cs)
]

shell_word-replace :
    (s : List ℕ) → shell_word single (replace_all quote quoted_quote s ++ quote ∷ []) ≡ some s
unfolding shell_word replace_all
shell_word-replace [] = refl
shell_word-replace (c ∷ cs) = elim (Bool-cases (eqb c quote)) [
  | inl h ↦ ground (arith, shell_word-replace cs)
  | inr h ↦ ground (arith, shell_word-replace cs)
]

-- Whatever text is quoted, the shell reads the quoted text as one word, which is the text.
pub shell_word-shell_quote : (s : List ℕ) → shell_word bare (shell_quote s) ≡ some s
unfolding shell_word shell_quote
shell_word-shell_quote [] = refl
shell_word-shell_quote (c ∷ cs) = ap (emit Bool.false quote) (shell_word-replace (c ∷ cs))
