-- ===== src/Ucicfg/Syntax/Lines.antt =====
-- The lines that are written are read back as what they were written for.
use x_divine_ray.Prelude.{
  Text, [], append_assoc, sym, true, ◌++◌, ◌∷◌, ◌≡◌, all_of, ap, arith, codes, false, not, refl,
  text_eq, ℕ, ◌==◌, ◌∙◌, ◌≢◌,
}
use x_divine_ray.Prelude.Trim.{trim, trim_space, trim_id, is_space}
use x_divine_ray.Ucicfg.Token.{split_keyword, quote, space, tab, escape, apostrophe}
use x_divine_ray.Ucicfg.Token.Quoted.{is_word, no_apostrophe, two_tokens-quote, word-append}
use x_divine_ray.Ucicfg.Syntax.{
  Reading, set_option, add_to_list, update_last, with_sections, new_section, read_keyword,
  read_line, option_line, list_line, config_line, read_trimmed,
}

-- A quoted text ends in an apostrophe, which is no white space.
line_ends :
    (w v : Text)
    → no_apostrophe v ≡ true
    → (m : Text) × (w ++ space ∷ quote v ≡ m ++ apostrophe ∷ [])
unfolding quote
line_ends w v k = (
  w ++ space ∷ apostrophe ∷ escape v,
  sym (append_assoc w (space ∷ apostrophe ∷ escape v) (apostrophe ∷ [])),
)

trim-ends :
    (c : ℕ) (w v : Text)
    → is_space c ≡ false
    → no_apostrophe v ≡ true
    → trim (c ∷ (w ++ space ∷ quote v)) ≡ c ∷ (w ++ space ∷ quote v)
unfolding is_space
trim-ends c w v h k = let (m, e) = line_ends w v k in rw e (trim_id c m apostrophe h refl)

-- The rest of a line, from the name on, needs no trimming.
trim-rest :
    (w v : Text)
    → is_word w ≡ true
    → no_apostrophe v ≡ true
    → trim (w ++ space ∷ quote v) ≡ w ++ space ∷ quote v
trim-rest [] v h k = cc
trim-rest (c ∷ w) v h k = trim-ends c w v (ground arith) k

-- A keyword, a name and a quoted value.
read_line-keyword :
    (c : ℕ) (kw w v : Text) (r : Reading)
    → (c == 35) ≡ false
    → all_of (λ b. not (is_space b)) (c ∷ kw) ≡ true
    → is_word w ≡ true
    → no_apostrophe v ≡ true
    → read_line ((c ∷ kw) ++ space ∷ (w ++ space ∷ quote v)) r
      ≡ read_keyword (c ∷ kw) (w ++ space ∷ quote v) r
unfolding read_line split_keyword
read_line-keyword c kw w v r n h ow va =
    let e : trim ((c ∷ kw) ++ space ∷ (w ++ space ∷ quote v))
        ≡ (c ∷ kw) ++ space ∷ (w ++ space ∷ quote v) =
      ap (λ l. trim (c ∷ l)) (sym (append_assoc kw (space ∷ w) (space ∷ quote v)))
      ∙ trim-ends c (kw ++ space ∷ w) v (ground arith) va
      ∙ ap (◌∷◌ c) (append_assoc kw (space ∷ w) (space ∷ quote v)) in
    rw (e, n, word-append (c ∷ kw) (w ++ space ∷ quote v) h, trim-rest w v ow va) refl

read_line-tab : (l : Text) (r : Reading) → read_line (tab ∷ l) r ≡ read_line l r
unfolding read_line is_space
read_line-tab l r = ap (λ t. read_trimmed t r) (trim_space tab l refl)

module _ (r : Reading) where
  -- Reading the line that was written for an option sets that option, to that value, in the section
  -- that was read last, if the name is a word and the value holds no apostrophe.
  pub read_line-option_line :
      (opt val : Text)
      → is_word opt ≡ true
      → no_apostrophe val ≡ true
      → read_line (option_line opt val) r ≡ with_sections (update_last (set_option opt val)) r
  unfolding option_line read_keyword codes text_eq is_space
  read_line-option_line [] val ow va = cc
  read_line-option_line (c ∷ opt) val ow va =
      read_line-tab _ r
      ∙ read_line-keyword 111 (codes "ption") (c ∷ opt) val r refl refl ow va
      ∙ rw (two_tokens-quote (c ∷ opt) val ow va) refl

  -- Reading the line that was written for one value of a list adds that value at that list's end.
  pub read_line-list_line :
      (opt val : Text)
      → is_word opt ≡ true
      → no_apostrophe val ≡ true
      → read_line (list_line opt val) r ≡ with_sections (update_last (add_to_list opt val)) r
  unfolding list_line read_keyword codes text_eq is_space
  read_line-list_line [] val ow va = cc
  read_line-list_line (c ∷ opt) val ow va =
      read_line-tab _ r
      ∙ read_line-keyword 108 (codes "ist") (c ∷ opt) val r refl refl ow va
      ∙ rw (two_tokens-quote (c ∷ opt) val ow va) refl

  -- Reading the line that was written for a named section opens an empty section of that type and
  -- name behind the others.
  pub read_line-config_line :
      (t name : Text)
      → is_word t ≡ true
      → name ≢ []
      → no_apostrophe name ≡ true
      → read_line (config_line t name) r
        ≡ with_sections (λ ss. ss ++ new_section t name false ∷ []) r
  unfolding config_line read_keyword codes text_eq is_space
  read_line-config_line t [] tw ne na = absurd (ne refl)
  read_line-config_line t (c ∷ name) tw ne na =
      read_line-keyword 99 (codes "onfig") t (c ∷ name) r refl refl tw na
      ∙ rw (two_tokens-quote t (c ∷ name) tw na) refl
