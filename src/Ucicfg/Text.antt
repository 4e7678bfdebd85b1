-- ===== src/Ucicfg/Text.antt =====
-- The text of a file and its lines: what `bufio.ScanLines` splits for `Parse`, and what `String`
-- joins (internal/ucicfg/uci.go). The scanner's limit of 4 MiB for a line is left out.
pub mod Split
use x_divine_ray.Prelude.{List, Text, [], if◌then◌else◌, ◌++◌, ◌==◌, ◌∷◌}
use x_divine_ray.Ucicfg.Syntax.{Package}
use x_divine_ray.Ucicfg.Print.{package_lines, parse_lines}

-- Without the carriage return at the end.
unfoldable pub drop_cr : Text → Text
drop_cr [] = []
drop_cr (c ∷ []) = if c == 13 then [] else c ∷ []
drop_cr (c ∷ d ∷ s) = c ∷ drop_cr (d ∷ s)

abbrev last_line : Text → List Text
last_line [] = []
last_line (c ∷ s) = drop_cr (c ∷ s) ∷ []

-- The lines of a text, of which `cur` has been read; what follows the last line feed is a line
-- unless it is empty.
unfoldable pub scan : Text → Text → List Text
scan cur [] = last_line cur
scan cur (c ∷ s) =
    let next : List Text = scan [] s in
    let on : List Text = scan (cur ++ c ∷ []) s in if c == 10 then drop_cr cur ∷ next else on

unfoldable pub to_text : List Text → Text
to_text [] = []
to_text (l ∷ ls) = l ++ 10 ∷ to_text ls

unfoldable pub parse : Text → Text → Package
parse name text = parse_lines name (scan [] text)

unfoldable pub print : Package → Text
print p = to_text (package_lines p)
