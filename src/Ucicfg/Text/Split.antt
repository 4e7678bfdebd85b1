-- ===== src/Ucicfg/Text/Split.antt =====
-- Lines that are joined are split again.
pub mod Clean
use x_divine_ray.Prelude.{
  Bool, List, Text, [], all_of, ap, append-nil, append_assoc, arith, false, not, refl, sym, true, ℕ,
  ◌++◌, ◌==◌, ◌∙◌, ◌∷◌, ◌≡◌,
}
use x_divine_ray.Ucicfg.Text.{drop_cr, scan, to_text}

abbrev pub no_lf : Text → Bool
no_lf s = all_of (λ c. not (c == 10)) s

-- A line that holds no line feed and does not end in a carriage return.
abbrev pub Clean : Text → Type 0
Clean l = (no_lf l ≡ true) × (drop_cr l ≡ l)

pub data AllClean : List Text → Type 0 where
  nil : AllClean []
  cons : (l : Text) (ls : List Text) → Clean l → AllClean ls → AllClean (l ∷ ls)

pub AllClean-append : (xs ys : List Text) → AllClean xs → AllClean ys → AllClean (xs ++ ys)
AllClean-append _ ys nil k = k
AllClean-append _ ys (cons l ls c h) k = cons l (ls ++ ys) c (AllClean-append ls ys h k)

scan-line :
    (l cur s : Text) → no_lf l ≡ true → scan cur (l ++ 10 ∷ s) ≡ drop_cr (cur ++ l) ∷ scan [] s
unfolding scan
scan-line [] cur s h = ap (λ c. drop_cr c ∷ scan [] s) (sym (append-nil cur))
scan-line (c ∷ l) cur s h =
    let lf : (c == 10) ≡ false = ground arith in
    rw lf (
      scan-line l (cur ++ c ∷ []) s (ground arith)
      ∙ ap (λ t. drop_cr t ∷ scan [] s) (append_assoc cur (c ∷ []) l))

pub scan-to_text : (ls : List Text) → AllClean ls → scan [] (to_text ls) ≡ ls
unfolding to_text scan
scan-to_text _ nil = refl
scan-to_text _ (cons l ls c h) =
    scan-line l [] (to_text ls) c.0
    ∙ ap (λ x. x ∷ scan [] (to_text ls)) c.1
    ∙ ap (◌∷◌ l) (scan-to_text ls h)

-- The last byte decides.
pub drop_cr-append : (w : Text) (b : ℕ) → (b == 13) ≡ false → drop_cr (w ++ b ∷ []) ≡ w ++ b ∷ []
unfolding drop_cr
drop_cr-append [] b h = rw h refl
drop_cr-append (c ∷ []) b h = ap (◌∷◌ c) (drop_cr-append [] b h)
drop_cr-append (c ∷ d ∷ w) b h = ap (◌∷◌ c) (drop_cr-append (d ∷ w) b h)
