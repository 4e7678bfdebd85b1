-- ===== src/Ucicfg/Text/Split/Clean.antt =====
-- The lines of a written package can be split again, and so the whole text is read back.
use x_divine_ray.Prelude.{
  Bool, List, Text, [], all_of, all_of-append, ap, append_assoc, arith, codes, map, not, refl, sym,
  true, ◌&&◌, ◌++◌, ◌∙◌, ◌∷◌, ◌≡◌, ◌==◌,
}
use mathlib.Core.Path.{subst}
use x_divine_ray.Prelude.Trim.{is_space}
use x_divine_ray.Ucicfg.Token.{quote, apostrophe, space, tab}
use x_divine_ray.Ucicfg.Token.Quoted.{is_word, no_apostrophe, escape_id}
use x_divine_ray.Ucicfg.Syntax.{option_line, list_line, config_line}
use x_divine_ray.Ucicfg.Print.{section_lines, sections_lines, package_lines, parse_lines}
use x_divine_ray.Ucicfg.Print.Items.{Item, one, many, item_lines}
use x_divine_ray.Ucicfg.Print.Emitted.{items_lines, section_lines-section_of}
use x_divine_ray.Ucicfg.Print.ReadItems.{is_item}
use x_divine_ray.Ucicfg.Print.RoundTrip.{Named, section_named, is_named, parse_lines-package_lines}
use x_divine_ray.Ucicfg.Text.{drop_cr, parse, print}
use x_divine_ray.Ucicfg.Text.Split.{
  no_lf, Clean, AllClean, nil, cons, AllClean-append, scan-to_text, drop_cr-append,
}

no_lf-word : (w : Text) → all_of (λ c. not (is_space c)) w ≡ true → no_lf w ≡ true
unfolding is_space
no_lf-word [] h = refl
no_lf-word (c ∷ w) h = ground (arith, no_lf-word w)

is_word-no_lf : (w : Text) → is_word w ≡ true → no_lf w ≡ true
is_word-no_lf [] h = cc
is_word-no_lf (c ∷ w) h = no_lf-word (c ∷ w) (ground arith)

-- A line that ends in a quoted value.
quoted-Clean :
    (pre v : Text)
    → no_lf pre ≡ true
    → no_lf v ≡ true
    → no_apostrophe v ≡ true
    → Clean (pre ++ quote v)
unfolding quote
quoted-Clean pre v h k a =
    let e : pre ++ apostrophe ∷ (v ++ apostrophe ∷ [])
        ≡ (pre ++ apostrophe ∷ v) ++ apostrophe ∷ [] =
      sym (append_assoc pre (apostrophe ∷ v) (apostrophe ∷ [])) in
    rw (escape_id v a, e)
      (
        all_of-append _ (pre ++ apostrophe ∷ v) (apostrophe ∷ [])
            (all_of-append _ pre (apostrophe ∷ v) h k) refl,
        drop_cr-append (pre ++ apostrophe ∷ v) apostrophe refl,
      )

-- A word of the program's own, a name and a quoted value.
named-Clean :
    (pre w v : Text)
    → no_lf pre ≡ true
    → is_word w ≡ true
    → no_lf v ≡ true
    → no_apostrophe v ≡ true
    → Clean (pre ++ (w ++ space ∷ quote v))
named-Clean pre w v p h k a =
    let e : (pre ++ (w ++ space ∷ [])) ++ quote v ≡ pre ++ (w ++ space ∷ quote v) =
      append_assoc pre (w ++ space ∷ []) (quote v)
      ∙ ap (◌++◌ pre) (append_assoc w (space ∷ []) (quote v)) in
    subst Clean e (
      quoted-Clean (pre ++ (w ++ space ∷ [])) v
        (all_of-append _ pre (w ++ space ∷ []) p
          (all_of-append _ w (space ∷ []) (is_word-no_lf w h) refl))
        k a)

-- The values of an item, each on one line.
abbrev pub is_single : Item → Bool
is_single (k, one v) = no_lf v
is_single (k, many v vs) = no_lf v && all_of no_lf vs

list_lines-AllClean :
    (k : Text) (vs : List Text)
    → is_word k ≡ true
    → all_of no_apostrophe vs ≡ true
    → all_of no_lf vs ≡ true
    → AllClean (map (list_line k) vs)
unfolding list_line codes
list_lines-AllClean k [] w a h = nil
list_lines-AllClean k (v ∷ vs) w a h =
    cons _ _ (named-Clean (tab ∷ codes "list ") k v refl w (ground arith) (ground arith))
      (list_lines-AllClean k vs w (ground arith) (ground arith))

item_lines-AllClean : (i : Item) → is_item i ≡ true → is_single i ≡ true → AllClean (item_lines i)
unfolding option_line codes
item_lines-AllClean (k, one v) w h =
    cons _ _ (named-Clean (tab ∷ codes "option ") k v refl (ground arith) h (ground arith)) nil
item_lines-AllClean (k, many v vs) w h =
    list_lines-AllClean k (v ∷ vs) (ground arith) (ground arith) (ground arith)

items_lines-AllClean :
    (is : List Item)
    → all_of is_item is ≡ true
    → all_of is_single is ≡ true
    → AllClean (items_lines is)
items_lines-AllClean [] w h = nil
items_lines-AllClean (i ∷ is) w h =
    AllClean-append (item_lines i) (items_lines is)
      (item_lines-AllClean i (ground arith) (ground arith))
      (items_lines-AllClean is (ground arith) (ground arith))

empty-Clean : Clean []
unfolding drop_cr
empty-Clean = (refl, refl)

-- The section's name and its values, each on one line.
abbrev pub is_plain : Named → Bool
is_plain s = no_lf s.name && all_of is_single s.items

config_line-Clean :
    (t n : Text)
    → is_word t ≡ true
    → no_lf n ≡ true
    → no_apostrophe n ≡ true
    → Clean (config_line t n)
unfolding config_line codes
config_line-Clean t n h k a = named-Clean (codes "config ") t n refl h k a

section_lines-AllClean :
    (s : Named) → is_named s ≡ true → is_plain s ≡ true → AllClean (section_lines (section_named s))
section_lines-AllClean s w h =
    subst AllClean (sym (section_lines-section_of s.type_name s.name s.items (ground arith))) (
      cons _ _ (config_line-Clean s.type_name s.name (ground arith) (ground arith) (ground arith)) (
        AllClean-append (items_lines s.items) ([] ∷ [])
          (items_lines-AllClean s.items (ground arith) (ground arith))
          (cons [] [] empty-Clean nil)))

sections_lines-AllClean :
    (ns : List Named)
    → all_of is_named ns ≡ true
    → all_of is_plain ns ≡ true
    → AllClean (sections_lines (map section_named ns))
sections_lines-AllClean [] w h = nil
sections_lines-AllClean (s ∷ ns) w h =
    AllClean-append (section_lines (section_named s)) (sections_lines (map section_named ns))
      (section_lines-AllClean s (ground arith) (ground arith))
      (sections_lines-AllClean ns (ground arith) (ground arith))

-- A word ends in no carriage return.
drop_cr-word : (w : Text) → all_of (λ c. not (is_space c)) w ≡ true → drop_cr w ≡ w
unfolding drop_cr is_space
drop_cr-word [] h = refl
drop_cr-word (c ∷ []) h = ground arith
drop_cr-word (c ∷ d ∷ w) h = ap (◌∷◌ c) (drop_cr-word (d ∷ w) (ground arith))

package_line-Clean : (nm : Text) → is_word nm ≡ true → Clean (codes "package " ++ nm)
unfolding codes drop_cr
package_line-Clean [] h = cc
package_line-Clean (c ∷ nm) h = (
  all_of-append (λ c. not (c == 10)) (codes "package ") (c ∷ nm) refl (is_word-no_lf (c ∷ nm) h),
  ap (λ t. codes "package " ++ t) (drop_cr-word (c ∷ nm) (ground arith)),
)

-- Reading the text of a written package gives that package again, whatever name the reading begins
-- with: if its name is a word, and every section is named and was filled with options and lists of
-- different names, where types and options' names are words and no name of a section and no value
-- holds an apostrophe or a line feed.
pub parse-print :
    (given nm : Text) (ns : List Named)
    → is_word nm ≡ true
    → all_of is_named ns ≡ true
    → all_of is_plain ns ≡ true
    → parse given (print (record { name = nm; sections = map section_named ns }))
      ≡ record { name = nm; sections = map section_named ns }
unfolding parse print package_lines
parse-print given nm ns h w p =
    ap (parse_lines given) (
      scan-to_text _ (
        cons _ _ (package_line-Clean nm h)
          (cons [] _ empty-Clean (sections_lines-AllClean ns w p))))
    ∙ parse_lines-package_lines given nm ns h w
