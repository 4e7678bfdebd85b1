-- ===== src/Prelude/Trim.antt =====
-- strings.TrimSpace over ASCII white space.
use mathlib.Core.List.{reverse, reverse-append, reverse-reverse}
use x_divine_ray.Prelude.Tests.{◌==◌, if◌then◌else◌}
use x_divine_ray.Prelude.Bytes.{Text}
use Prim.Native.Nat.{ℕ}
use mathlib.Core.Path.{◌≡◌, sym, ◌∙◌, ap}
use mathlib.Core.Bool.{Bool, true, false, ◌||◌}
use mathlib.Core.List.{[], ◌∷◌, ◌++◌}

-- The ASCII bytes that `unicode.IsSpace` accepts: tab to carriage return, and the space.
unfoldable pub is_space : ℕ → Bool
is_space c = c == 32 || c == 9 || c == 10 || c == 11 || c == 12 || c == 13

unfoldable pub drop_space : Text → Text
drop_space [] = []
drop_space (c ∷ s) = if is_space c then drop_space s else c ∷ s

unfoldable pub trim : Text → Text
unfolding drop_space
trim s = reverse (drop_space (reverse (drop_space s)))

pub trim_space : (c : ℕ) (s : Text) → is_space c ≡ true → trim (c ∷ s) ≡ trim s
unfolding trim
trim_space c s h = rw h

-- A text that neither begins nor ends with white space is its own trimming.
pub trim_id :
    (a : ℕ) (s : Text) (b : ℕ)
    → is_space a ≡ false
    → is_space b ≡ false
    → trim (a ∷ (s ++ b ∷ [])) ≡ a ∷ (s ++ b ∷ [])
unfolding trim
trim_id a s b ha hb =
    let e : reverse (a ∷ (s ++ b ∷ [])) ≡ b ∷ reverse (a ∷ s) = reverse-append (a ∷ s) (b ∷ []) in
    rw ha (rw e (rw hb (ap reverse (sym e) ∙ reverse-reverse (a ∷ (s ++ b ∷ [])))))
