-- ===== src/Examples/Syntax.antt =====
-- A small configuration file.
use x_divine_ray.Prelude.{[], all_of, codes, map, refl, text_eq, true, ◌++◌, ◌∷◌, ◌≡◌}
use x_divine_ray.Ucicfg.Token.{next_token, quote, apostrophe}
use x_divine_ray.Ucicfg.Token.Quoted.{
  is_word, no_apostrophe, next_token-quote, next_token-quote_cut,
}
use x_divine_ray.Ucicfg.Print.Items.{one, many, unique}
use x_divine_ray.Ucicfg.Print.RoundTrip.{Named, section_named, is_named}
use x_divine_ray.Ucicfg.Text.{parse, print}
use x_divine_ray.Ucicfg.Text.Split.Clean.{is_plain, parse-print}
use x_divine_ray.Prelude.Trim.{is_space}

abbrev main : Named
main = record {
  type_name = codes "xwrt";
  name = codes "main";
  items =
      (codes "mode", one (codes "mixed"))
      ∷ (codes "bypass", many (codes "10.0.0.0/8") (codes "a b" ∷ []))
      ∷ [];
}

main-is_named : all_of is_named (main ∷ []) ≡ true
unfolding codes text_eq is_space unique
main-is_named = refl

xwrt-is_word : is_word (codes "xwrt") ≡ true
unfolding codes is_space
xwrt-is_word = refl

plain : no_apostrophe (codes "a b") ≡ true
unfolding codes
plain = refl

next_token-quote_example :
    next_token (quote (codes "a b") ++ codes " c") ≡ (codes "a b", codes " c")
next_token-quote_example = next_token-quote (codes "a b") (codes " c") plain

next_token-quote_cut_example :
    (next_token (quote (codes "a b" ++ apostrophe ∷ codes "c"))).0 ≡ codes "a b"
next_token-quote_cut_example = next_token-quote_cut (codes "a b") (codes "c") plain

main-is_plain : all_of is_plain (main ∷ []) ≡ true
unfolding codes
main-is_plain = refl

parse-print_example :
    parse [] (print (record { name = codes "xwrt"; sections = map section_named (main ∷ []) }))
    ≡ record { name = codes "xwrt"; sections = map section_named (main ∷ []) }
parse-print_example =
    parse-print [] (codes "xwrt") (main ∷ []) xwrt-is_word main-is_named main-is_plain
