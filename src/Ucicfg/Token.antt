-- ===== src/Ucicfg/Token.antt =====
-- The tokens of UCI syntax (internal/ucicfg/uci.go): `splitKeyword`, `nextToken`, `twoTokens` and
-- `quote`.
pub mod Quoted
use x_divine_ray.Prelude.{Bool, Text, [], if◌then◌else◌, ℕ, ◌&&◌, ◌++◌, ◌==◌, ◌||◌, ◌∷◌}
use x_divine_ray.Prelude.Trim.{trim}

abbrev pub apostrophe : ℕ
apostrophe = 39

abbrev pub quotation : ℕ
quotation = 34

abbrev pub backslash : ℕ
backslash = 92

abbrev pub space : ℕ
space = 32

abbrev pub tab : ℕ
tab = 9

-- The characters of " \t".
abbrev pub is_blank : ℕ → Bool
is_blank c = c == space || c == tab

-- strings.TrimLeft(s, " \t")
unfoldable pub trim_left : Text → Text
trim_left [] = []
trim_left (c ∷ s) = if is_blank c then trim_left s else c ∷ s

abbrev pub cons_token : ℕ → Text × Text → Text × Text
cons_token c (token, rest) = (c ∷ token, rest)

-- The loop over a token opened by the quote `q`, from behind that quote. A backslash takes the next
-- byte as it is between quotation marks; at the end of the text it stands for itself.
unfoldable pub quoted : ℕ → Text → Text × Text
quoted q [] = ([], [])
quoted q (c ∷ []) = if c == q then ([], []) else (c ∷ [], [])
quoted q (c ∷ d ∷ s) =
    let after : Text × Text = quoted q (d ∷ s) in
    let escaped : Text × Text = quoted q s in
    if c == q
    then ([], d ∷ s)
    else if c == backslash && q == quotation
    then cons_token d escaped
    else cons_token c after

-- Up to the first blank, and what follows it.
unfoldable pub word : Text → Text × Text
word [] = ([], [])
word (c ∷ s) =
    let after : Text × Text = word s in if is_blank c then ([], s) else cons_token c after

abbrev pub token_at : Text → Text × Text
token_at [] = ([], [])
token_at (c ∷ s) = if c == apostrophe || c == quotation then quoted c s else word (c ∷ s)

unfoldable pub next_token : Text → Text × Text
next_token s = token_at (trim_left s)

unfoldable pub two_tokens : Text → Text × Text
two_tokens s =
    let (first, rest) = next_token s in let (second, _) = next_token rest in (first, second)

-- The line's first word, and the rest of the line without the white space around it.
unfoldable pub split_keyword : Text → Text × Text
split_keyword line = let (kw, rest) = word line in (kw, trim rest)

-- strings.ReplaceAll(s, "'", `'\''`)
unfoldable pub escape : Text → Text
escape [] = []
escape (c ∷ s) =
    let rest : Text = escape s in
    if c == apostrophe then apostrophe ∷ backslash ∷ apostrophe ∷ apostrophe ∷ rest else c ∷ rest

unfoldable pub quote : Text → Text
quote s = apostrophe ∷ (escape s ++ apostrophe ∷ [])
