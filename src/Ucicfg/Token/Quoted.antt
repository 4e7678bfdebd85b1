-- ===== src/Ucicfg/Token/Quoted.antt =====
-- What `quote` writes is read back as one token.
use x_divine_ray.Prelude.{
  Bool, Text, [], all_of, ap, append_assoc, arith, false, not, refl, true, ◌&&◌, ◌++◌, ◌==◌, ◌∙◌,
  ◌∷◌, ◌≡◌, append-nil, sym,
}
use x_divine_ray.Prelude.Trim.{is_space}
use x_divine_ray.Ucicfg.Token.{
  apostrophe, quotation, space, trim_left, quoted, word, next_token, two_tokens, escape, quote,
}

abbrev pub no_apostrophe : Text → Bool
no_apostrophe s = all_of (λ c. not (c == apostrophe)) s

-- A word: it is not empty, begins with no quote and has no white space.
abbrev pub is_word : Text → Bool
is_word [] = false
is_word (c ∷ s) =
    not (c == apostrophe) && not (c == quotation) && all_of (λ b. not (is_space b)) (c ∷ s)

pub escape_id : (s : Text) → no_apostrophe s ≡ true → escape s ≡ s
unfolding escape
escape_id [] h = refl
escape_id (c ∷ s) h = ground (arith, escape_id s)

quoted-append :
    (v rest : Text)
    → no_apostrophe v ≡ true
    → quoted apostrophe (v ++ apostrophe ∷ rest) ≡ (v, rest)
unfolding quoted
quoted-append [] [] h = refl
quoted-append [] (r ∷ rest) h = refl
quoted-append (c ∷ []) rest h = ground (arith, quoted-append [] rest)
quoted-append (c ∷ d ∷ v) rest h = ground (arith, quoted-append (d ∷ v) rest)

-- Whatever text without an apostrophe is quoted, and whatever follows it, the next token is that
-- text and the rest is what follows.
pub next_token-quote :
    (v rest : Text) → no_apostrophe v ≡ true → next_token (quote v ++ rest) ≡ (v, rest)
unfolding next_token quote trim_left
next_token-quote v rest h =
    rw (escape_id v h) (
      ap (λ t. quoted apostrophe t) (append_assoc v (apostrophe ∷ []) rest)
      ∙ quoted-append v rest h)

pub word-append :
    (w rest : Text) → all_of (λ b. not (is_space b)) w ≡ true → word (w ++ space ∷ rest) ≡ (w, rest)
unfolding word is_space
word-append [] rest h = refl
word-append (c ∷ w) rest h = ground (arith, word-append w rest)

pub next_token-word :
    (w rest : Text) → is_word w ≡ true → next_token (w ++ space ∷ rest) ≡ (w, rest)
unfolding next_token trim_left is_space
next_token-word [] rest h = cc
next_token-word (c ∷ w) rest h = ground (arith, word-append (c ∷ w) rest)

-- An option's name and its quoted value are read back as the two tokens of the line.
pub two_tokens-quote :
    (w v : Text)
    → is_word w ≡ true
    → no_apostrophe v ≡ true
    → two_tokens (w ++ space ∷ quote v) ≡ (w, v)
unfolding two_tokens
two_tokens-quote w v h k =
    let e : next_token (quote v) ≡ (v, []) =
      ap next_token (sym (append-nil (quote v))) ∙ next_token-quote v [] k in
    rw (next_token-word w (quote v) h, e) refl

escape-append : (v w : Text) → no_apostrophe v ≡ true → escape (v ++ w) ≡ v ++ escape w
unfolding escape
escape-append [] w h = refl
escape-append (c ∷ v) w h = ground (arith, escape-append v w)

-- A text with an apostrophe that was quoted is read back only up to its first apostrophe.
pub next_token-quote_cut :
    (v w : Text) → no_apostrophe v ≡ true → (next_token (quote (v ++ apostrophe ∷ w))).0 ≡ v
unfolding next_token quote trim_left escape
next_token-quote_cut v w h =
    let e : escape (v ++ apostrophe ∷ w) ≡ v ++ escape (apostrophe ∷ w) =
      escape-append v (apostrophe ∷ w) h in
    ap (λ t. (quoted apostrophe (t ++ apostrophe ∷ [])).0) e
    ∙ ap (λ t. (quoted apostrophe t).0) (append_assoc v (escape (apostrophe ∷ w)) (apostrophe ∷ []))
    ∙ ap (λ (r : Text × Text). r.0) (quoted-append v _ h)
