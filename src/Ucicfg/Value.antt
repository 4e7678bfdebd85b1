-- ===== src/Ucicfg/Value.antt =====
-- The texts that options hold (internal/ucicfg/store.go): toBool, fromBool, toInt, orDefault, and
-- strconv's Itoa and Atoi without the bound on an int.
pub mod RoundTrip
use x_divine_ray.Prelude.{
  Bool, List, Option, Text, [], any_of, codes, false, if◌then◌else◌, none, some, text_eq, true, ℕ,
  ◌*◌, ◌+◌, ◌-◌, ◌∷◌, leb, ◌&&◌, ◌||◌, ltb, ◌==◌, map, suc, zero,
}
use mathlib.Core.Option
use x_divine_ray.Prelude.Trim.{trim}
use x_divine_ray.Model.Int.{ℤ, pos, negsuc}
use x_divine_ray.Ucicfg.Syntax.{decimal}

unfoldable pub itoa : ℤ → Text
itoa (pos n) = decimal n
itoa (negsuc n) = 45 ∷ decimal (suc n)

unfoldable pub is_digit : ℕ → Bool
is_digit c = leb 48 c && leb c 57

-- The digits after `acc`.
unfoldable pub digits_from : ℕ → Text → Option ℕ
digits_from acc [] = some acc
digits_from acc (c ∷ s) =
    let rest : Option ℕ = digits_from (acc * 10 + (c - 48)) s in if is_digit c then rest else none

abbrev pub number : Text → Option ℕ
number [] = none
number (c ∷ s) = digits_from 0 (c ∷ s)

abbrev pub negated : ℕ → ℤ
negated zero = pos 0
negated (suc n) = negsuc n

unfoldable pub atoi : Text → Option ℤ
atoi [] = none
atoi (c ∷ s) =
    if c == 45
    then Option.map negated (number s)
    else if c == 43
    then Option.map pos (number s)
    else Option.map pos (number (c ∷ s))

abbrev pub or_else {ℓ} : {A : Type ℓ} → Option A → A → A
or_else none def = def
or_else (some a) def = a

unfoldable pub to_int : Text → ℤ → ℤ
to_int [] def = def
to_int (c ∷ s) def = or_else (atoi (trim (c ∷ s))) def

-- strings.ToLower of ASCII letters.
abbrev pub lower : Text → Text
lower = map (λ c. if leb 65 c && leb c 90 then c + 32 else c)

abbrev pub yes_words : List Text
yes_words = codes "1" ∷ codes "true" ∷ codes "yes" ∷ codes "on" ∷ codes "enabled" ∷ []

abbrev pub no_words : List Text
no_words = codes "0" ∷ codes "false" ∷ codes "no" ∷ codes "off" ∷ codes "disabled" ∷ []

unfoldable pub to_bool : Text → Bool → Bool
to_bool v def =
    let w : Text = lower (trim v) in
    if any_of (text_eq w) yes_words
    then true
    else if any_of (text_eq w) no_words
    then false
    else def

unfoldable pub from_bool : Bool → Text
from_bool b = if b then codes "1" else codes "0"

unfoldable pub or_default : Text → Text → Text
or_default [] def = def
or_default (c ∷ s) def = c ∷ s
