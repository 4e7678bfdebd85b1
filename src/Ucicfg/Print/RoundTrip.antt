-- ===== src/Ucicfg/Print/RoundTrip.antt =====
-- A package that was written is read back as it was.
use x_divine_ray.Prelude.{
  Bool, List, Text, [], all_of, ap, append-nil, append_assoc, arith, codes, false, map, not, refl,
  sym, text_eq, text_eq_iff, true, ℕ, ◌&&◌, ◌++◌, ◌∙◌, ◌∷◌, ◌≡◌,
}
use x_divine_ray.Prelude.Trim.{trim, trim_id, drop_space, is_space}
use x_divine_ray.Ucicfg.Token.{word, next_token, two_tokens, split_keyword, trim_left}
use x_divine_ray.Ucicfg.Token.Quoted.{is_word, no_apostrophe, word-append}
use x_divine_ray.Ucicfg.Syntax.{Section, Reading, read_line, read_lines, read_keyword}
use x_divine_ray.Ucicfg.Syntax.Lines.{read_line-config_line}
use x_divine_ray.Ucicfg.Print.{section_lines, sections_lines, package_lines, parse_lines}
use x_divine_ray.Ucicfg.Print.Items.{Item, section_of, unique}
use x_divine_ray.Ucicfg.Print.Emitted.{items_lines, section_lines-section_of}
use x_divine_ray.Ucicfg.Print.ReadItems.{read_lines-append, is_item, read_items}

-- A named section: its type, its name and its items.
pub record Named : Type 0 where
  pub type_name : Text
  pub name : Text
  pub items : List Item

abbrev pub section_named : Named → Section
section_named s = section_of s.type_name s.name s.items

abbrev pub non_empty : Text → Bool
non_empty s = not (text_eq s [])

-- The type and the options' names are words, the items have different names, and no name of a
-- section and no value holds an apostrophe.
abbrev pub is_named : Named → Bool
is_named s =
    is_word s.type_name
    && non_empty s.name
    && no_apostrophe s.name
    && unique s.items
    && all_of is_item s.items

read_blank : (r : Reading) → read_line [] r ≡ r
unfolding read_line trim drop_space
read_blank r = refl

read_section :
    (nm : Text) (ss : List Section) (s : Named)
    → is_named s ≡ true
    → read_lines
        (section_lines (section_named s))
        (record { pkg = record { name = nm; sections = ss }; anon = 0 })
      ≡ record { pkg = record { name = nm; sections = ss ++ section_named s ∷ [] }; anon = 0 }
unfolding read_lines
read_section nm ss s w =
    let r0 : Reading = record { pkg = record { name = nm; sections = ss }; anon = 0 } in
    ap (λ ls. read_lines ls r0) (section_lines-section_of s.type_name s.name s.items (ground arith))
    ∙ ap (read_lines (items_lines s.items ++ [] ∷ [])) (
        read_line-config_line r0 s.type_name s.name (ground arith)
          (λ e. ground (arith, (text_eq_iff s.name []).1 e)) (ground arith))
    ∙ read_lines-append (items_lines s.items) ([] ∷ []) _
    ∙ ap (read_line [])
        (read_items nm 0 ss s.type_name s.name s.items [] (ground arith) (ground arith))
    ∙ read_blank _

read_sections :
    (nm : Text) (ss : List Section) (ns : List Named)
    → all_of is_named ns ≡ true
    → read_lines
        (sections_lines (map section_named ns))
        (record { pkg = record { name = nm; sections = ss }; anon = 0 })
      ≡ record { pkg = record { name = nm; sections = ss ++ map section_named ns }; anon = 0 }
unfolding read_lines
read_sections nm ss [] w =
    let fill : List Section → Reading =
      λ xs. record { pkg = record { name = nm; sections = xs }; anon = 0 } in
    ap fill (sym (append-nil ss))
read_sections nm ss (s ∷ ns) w =
    let fill : List Section → Reading =
      λ xs. record { pkg = record { name = nm; sections = xs }; anon = 0 } in
    read_lines-append (section_lines (section_named s)) (sections_lines (map section_named ns)) _
    ∙ ap (read_lines (sections_lines (map section_named ns))) (read_section nm ss s (ground arith))
    ∙ read_sections nm (ss ++ section_named s ∷ []) ns (ground arith)
    ∙ ap fill (append_assoc ss (section_named s ∷ []) (map section_named ns))

word_all : (w : Text) → all_of (λ b. not (is_space b)) w ≡ true → word w ≡ (w, [])
unfolding word is_space
word_all [] h = refl
word_all (c ∷ w) h = ground (arith, word_all w)

-- A word ends in a byte that is no white space.
word_ends :
    (c : ℕ) (w : Text)
    → all_of (λ b. not (is_space b)) (c ∷ w) ≡ true
    → (m : Text) × (b : ℕ) × (c ∷ w ≡ m ++ b ∷ []) × (is_space b ≡ false)
word_ends c [] h = ([], c, refl, ground arith)
word_ends c (d ∷ w) h =
    let (m, b, e, f) = word_ends d w (ground arith) in (c ∷ m, b, ap (◌∷◌ c) e, f)

trim_word :
    (c : ℕ) (w : Text) → all_of (λ b. not (is_space b)) (c ∷ w) ≡ true → trim (c ∷ w) ≡ c ∷ w
unfolding trim drop_space
trim_word c [] h = let f : is_space c ≡ false = ground arith in rw (f, f) refl
trim_word c (d ∷ w) h =
    let (m, b, e, f) = word_ends d w (ground arith) in
    ap (λ t. trim (c ∷ t)) e ∙ trim_id c m b (ground arith) f ∙ sym (ap (◌∷◌ c) e)

next_token_word : (w : Text) → is_word w ≡ true → next_token w ≡ (w, [])
unfolding next_token trim_left is_space
next_token_word [] h = cc
next_token_word (c ∷ w) h = ground (arith, word_all (c ∷ w))

read_line-package :
    (nm old : Text) (ss : List Section)
    → is_word nm ≡ true
    → read_line
        (codes "package " ++ nm)
        (record { pkg = record { name = old; sections = ss }; anon = 0 })
      ≡ record { pkg = record { name = nm; sections = ss }; anon = 0 }
unfolding read_line split_keyword read_keyword two_tokens codes text_eq is_space
read_line-package [] old ss h = cc
read_line-package (c ∷ nm) old ss h =
    let w : all_of (λ b. not (is_space b)) (c ∷ nm) ≡ true = ground arith in
    let (m, b, e, f) = word_ends c nm w in
    let whole : trim (codes "package " ++ (c ∷ nm)) ≡ codes "package " ++ (c ∷ nm) =
      ap (λ t. trim (codes "package " ++ t)) e
      ∙ trim_id 112 (codes "ackage " ++ m) b refl f
      ∙ sym (ap (λ t. codes "package " ++ t) e) in
    rw
      (
        whole,
        word-append (codes "package") (c ∷ nm) refl,
        trim_word c nm w,
        next_token_word (c ∷ nm) h,
      )
      refl

-- Reading the lines of a written package gives that package again, whatever name the reading begins
-- with: if its name is a word, and every section is named and was filled with options and lists of
-- different names, where types and options' names are words and no name of a section and no value
-- holds an apostrophe.
pub parse_lines-package_lines :
    (given nm : Text) (ns : List Named)
    → is_word nm ≡ true
    → all_of is_named ns ≡ true
    → parse_lines given (package_lines (record { name = nm; sections = map section_named ns }))
      ≡ record { name = nm; sections = map section_named ns }
unfolding parse_lines package_lines read_lines
parse_lines-package_lines given nm ns h w =
    let rest = sections_lines (map section_named ns) in
    ap (λ (r : Reading). (read_lines rest (read_line [] r)).pkg) (read_line-package nm given [] h)
    ∙ ap (λ (r : Reading). (read_lines rest r).pkg) (read_blank _)
    ∙ ap (λ (r : Reading). r.pkg) (read_sections nm [] ns w)
