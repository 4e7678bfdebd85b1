-- ===== src/Ucicfg/Print.antt =====
-- `Package.String` of internal/ucicfg/uci.go, as the list of its lines: every line of the text ends in
-- a line feed.
pub mod Items
pub mod Emitted
pub mod ReadItems
pub mod RoundTrip
pub mod Sorted
pub mod Fresh
pub mod Settled
pub mod Inserted
use x_divine_ray.Prelude.{
  Bool, List, Option, Text, [], any_of, codes, false, if◌then◌else◌, keep_if, ltb, map, none, not,
  some, text_eq, true, ◌&&◌, ◌++◌, ◌==◌, ◌∷◌,
}
use x_divine_ray.Ucicfg.Syntax.{
  Section, Package, Reading, lookup, option_line, list_line, config_line, read_lines,
}

-- seen[key]
abbrev pub elem : Text → List Text → Bool
elem key seen = any_of (λ k. text_eq k key) seen

abbrev pub value_lines : Text → Option (List Text) → Option Text → List Text
value_lines opt (some vals) v = map (list_line opt) vals
value_lines opt none (some v) = option_line opt v ∷ []
value_lines opt none none = []

-- A list goes before an option of the same name.
abbrev pub option_lines : Section → Text → List Text
option_lines s opt = value_lines opt (lookup opt s.lists) (lookup opt s.options)

-- `emit` on each name in turn, with those that are done already.
unfoldable pub emit_each : Section → List Text → List Text → List Text
emit_each s seen [] = []
emit_each s seen (opt ∷ opts) =
    let again : List Text = emit_each s seen opts in
    let rest : List Text = emit_each s (seen ++ opt ∷ []) opts in
    if elem opt seen then again else option_lines s opt ++ rest

abbrev pub keys {ℓ} : {A : Type ℓ} → List (Text × A) → List Text
keys m = map (λ e. e.0) m

abbrev pub unseen : List Text → List Text → List Text
unseen seen ks = keep_if (λ k. not (elem k seen)) ks

-- a < b on Go strings.
unfoldable pub text_lt : Text → Text → Bool
text_lt s [] = false
text_lt [] (b ∷ t) = true
text_lt (a ∷ s) (b ∷ t) = let rest : Bool = text_lt s t in if ltb a b then true else a == b && rest

abbrev pub insert_sorted : Text → List Text → List Text
insert_sorted x [] = x ∷ []
insert_sorted x (y ∷ ys) =
    let rest : List Text = insert_sorted x ys in if text_lt y x then y ∷ rest else x ∷ y ∷ ys

-- sort.Strings
unfoldable pub sort : List Text → List Text
sort [] = []
sort (x ∷ xs) = insert_sorted x (sort xs)

abbrev pub header_line : Section → Text
header_line s = if s.anon then codes "config " ++ s.type_name else config_line s.type_name s.name

-- The names in order, then those that are in the maps only.
unfoldable pub section_lines : Section → List Text
section_lines s =
    let rest : List Text =
      sort (unseen s.order (keys s.options) ++ unseen s.order (keys s.lists)) in
    header_line s ∷ ((emit_each s [] s.order ++ emit_each s s.order rest) ++ [] ∷ [])

abbrev pub sections_lines : List Section → List Text
sections_lines [] = []
sections_lines (s ∷ ss) = section_lines s ++ sections_lines ss

unfoldable pub package_lines : Package → List Text
package_lines p = (codes "package " ++ p.name) ∷ [] ∷ sections_lines p.sections

-- Parse(name, text) on the lines of the text.
unfoldable pub parse_lines : Text → List Text → Package
parse_lines name ls =
    (read_lines ls (record { pkg = record { name = name; sections = [] }; anon = 0 })).pkg
