-- ===== src/Ucicfg/Syntax.antt =====
-- A parsed UCI package (internal/ucicfg/uci.go): `Section`, `Package`, the loop of `Parse` over the
-- lines of a file, and the lines that `String` writes for an option. The maps are association lists
-- in the order of first insertion.
pub mod Lines
use x_divine_ray.Prelude.{
  Bool, List, Option, Text, [], codes, false, if◌then◌else◌, none, some, text_eq, true, ℕ, ◌++◌,
  ◌+◌, ◌==◌, ◌∷◌, ltb, suc, zero, ◌%◌, ◌/◌,
}
use x_divine_ray.Prelude.Trim.{trim}
use x_divine_ray.Ucicfg.Token.{next_token, two_tokens, split_keyword, quote, space, tab}

pub record Section : Type 0 where
  pub name : Text
  pub type_name : Text
  pub anon : Bool
  pub options : List (Text × Text)
  pub lists : List (Text × List Text)
  pub order : List Text

pub record Package : Type 0 where
  pub name : Text
  pub sections : List Section

-- m[key], where it is there.
unfoldable pub lookup {ℓ} : {A : Type ℓ} → Text → List (Text × A) → Option A
lookup key [] = none
lookup key ((k, v) ∷ m) = let rest = lookup key m in if text_eq k key then some v else rest

-- m[key] = value
unfoldable pub insert {ℓ} : {A : Type ℓ} → Text → A → List (Text × A) → List (Text × A)
insert key value [] = (key, value) ∷ []
insert key value ((k, v) ∷ m) =
    let rest = insert key value m in if text_eq k key then (k, value) ∷ m else (k, v) ∷ rest

abbrev pub has {ℓ} : {A : Type ℓ} → Option A → Bool
has none = false
has (some v) = true

abbrev pub or_empty : Option Text → Text
or_empty none = []
or_empty (some v) = v

abbrev pub or_none : Option (List Text) → List Text
or_none none = []
or_none (some v) = v

unfoldable pub get : Section → Text → Text
get s opt = or_empty (lookup opt s.options)

unfoldable pub list : Section → Text → List Text
list s opt = or_none (lookup opt s.lists)

unfoldable pub set_option : Text → Text → Section → Section
set_option opt val s = record s {
  order = if has (lookup opt s.options) then s.order else s.order ++ opt ∷ [];
  options = insert opt val s.options;
}

unfoldable pub add_to_list : Text → Text → Section → Section
add_to_list opt val s = record s {
  order = if has (lookup opt s.lists) then s.order else s.order ++ opt ∷ [];
  lists = insert opt (or_none (lookup opt s.lists) ++ val ∷ []) s.lists;
}

-- The state of the loop; the current section is the last one.
pub record Reading : Type 0 where
  pub pkg : Package
  pub anon : ℕ

abbrev pub update_last : (Section → Section) → List Section → List Section
update_last f [] = []
update_last f (s ∷ []) = f s ∷ []
update_last f (s ∷ t ∷ ss) = s ∷ update_last f (t ∷ ss)

abbrev pub with_sections : (List Section → List Section) → Reading → Reading
with_sections f r = record r { pkg = record r.pkg { sections = f r.pkg.sections } }

abbrev set_in : Text × Text → List Section → List Section
set_in ([], val) ss = ss
set_in (c ∷ opt, val) ss = update_last (set_option (c ∷ opt) val) ss

abbrev add_in : Text × Text → List Section → List Section
add_in ([], val) ss = ss
add_in (c ∷ opt, val) ss = update_last (add_to_list (c ∷ opt) val) ss

abbrev rename : Text → Reading → Reading
rename [] r = r
rename (c ∷ s) r = record r { pkg = record r.pkg { name = c ∷ s } }

abbrev pub new_section : Text → Text → Bool → Section
new_section type_name name anon = record {
  name = name;
  type_name = type_name;
  anon = anon;
  options = [];
  lists = [];
  order = [];
}

-- The decimal digits of a number; each division needs one unit of fuel, and a number is more than
-- the number of its divisions.
abbrev pub digits : ℕ → ℕ → Text
digits zero n = []
digits (suc fuel) n =
    let high : Text = digits fuel (n / 10) in
    if ltb n 10 then (48 + n) ∷ [] else high ++ (48 + n % 10) ∷ []

unfoldable pub decimal : ℕ → Text
decimal n = digits (suc n) n

abbrev open_section : Text × Text → Reading → Reading
open_section (t, []) r =
    record (with_sections
      (λ ss.
        ss
        ++ new_section t (codes "@" ++ (t ++ (codes "[" ++ (decimal r.anon ++ codes "]")))) true
          ∷ [])
      r) { anon = r.anon + 1 }
open_section (t, c ∷ name) r = with_sections (λ ss. ss ++ new_section t (c ∷ name) false ∷ []) r

unfoldable pub read_keyword : Text → Text → Reading → Reading
read_keyword kw rest r =
    if text_eq kw (codes "package")
    then rename (two_tokens rest).0 r
    else if text_eq kw (codes "config")
    then open_section (two_tokens rest) r
    else if text_eq kw (codes "option")
    then with_sections (set_in (two_tokens rest)) r
    else if text_eq kw (codes "list")
    then with_sections (add_in (two_tokens rest)) r
    else r

-- The loop's body, from the trimmed line on.
abbrev read_trimmed : Text → Reading → Reading
read_trimmed [] r = r
read_trimmed (c ∷ line) r =
    if c == 35 then r else (let (kw, rest) = split_keyword (c ∷ line) in read_keyword kw rest r)

unfoldable pub read_line : Text → Reading → Reading
read_line line r = read_trimmed (trim line) r

unfoldable pub read_lines : List Text → Reading → Reading
read_lines [] r = r
read_lines (l ∷ ls) r = read_lines ls (read_line l r)

-- The lines of `String` for one option, for one value of a list, and for a named section.
unfoldable pub option_line : Text → Text → Text
option_line opt val = tab ∷ (codes "option " ++ (opt ++ space ∷ quote val))

unfoldable pub list_line : Text → Text → Text
list_line opt val = tab ∷ (codes "list " ++ (opt ++ space ∷ quote val))

unfoldable pub config_line : Text → Text → Text
config_line type_name name = codes "config " ++ (type_name ++ space ∷ quote name)
