-- ===== src/Ucicfg/Print/Fresh.antt =====
-- The lines of different names, none of which was written before.
use x_divine_ray.Prelude.{
  List, Text, [], all_of, ap, append_assoc, arith, false, not, refl, sym, text_eq_iff, text_eq_refl,
  true, ◌++◌, ◌∙◌, ◌∷◌, ◌≡◌,
}
use x_divine_ray.Ucicfg.Syntax.{Section}
use x_divine_ray.Ucicfg.Print.{elem, unseen, emit_each, option_lines}
use x_divine_ray.Ucicfg.Print.Sorted.{distinct, elem-++}

pub unseen_all : (seen ks : List Text) → all_of (λ k. elem k seen) ks ≡ true → unseen seen ks ≡ []
unseen_all seen [] h = refl
unseen_all seen (k ∷ ks) h = ground (arith, unseen_all seen ks)

pub unseen_none :
    (seen ks : List Text) → all_of (λ k. not (elem k seen)) ks ≡ true → unseen seen ks ≡ ks
unseen_none seen [] h = refl
unseen_none seen (k ∷ ks) h = ground (arith, unseen_none seen ks)

pub own_elem : (pre ks : List Text) → all_of (λ k. elem k (pre ++ ks)) ks ≡ true
own_elem pre [] = refl
own_elem pre (k ∷ ks) =
    let here : elem k (pre ++ k ∷ ks) ≡ true =
      elem-++ k pre (k ∷ ks) ∙ ground (arith, text_eq_refl k) in
    rw here (
      ap (λ xs. all_of (λ j. elem j xs) ks) (sym (append_assoc pre (k ∷ []) ks))
      ∙ own_elem (pre ++ k ∷ []) ks)

-- The lines of each name, with no look at what was written before.
abbrev pub lines_each : Section → List Text → List Text
lines_each s [] = []
lines_each s (k ∷ ks) = option_lines s k ++ lines_each s ks

pub lines_each-++ :
    (s : Section) (ks js : List Text) → lines_each s (ks ++ js) ≡ lines_each s ks ++ lines_each s js
lines_each-++ s [] js = refl
lines_each-++ s (k ∷ ks) js =
    ap (◌++◌ (option_lines s k)) (lines_each-++ s ks js) ∙ sym (append_assoc (option_lines s k) _ _)

still_fresh :
    (opt : Text) (seen ks : List Text)
    → all_of (λ k. not (elem k seen)) ks ≡ true
    → elem opt ks ≡ false
    → all_of (λ k. not (elem k (seen ++ opt ∷ []))) ks ≡ true
still_fresh opt seen [] h e = refl
still_fresh opt seen (k ∷ ks) h e = ground (
  arith,
  still_fresh opt seen ks,
  elem-++ k seen (opt ∷ []),
  text_eq_iff k opt,
  text_eq_iff opt k,
)

pub emit_fresh :
    (s : Section) (seen ks : List Text)
    → all_of (λ k. not (elem k seen)) ks ≡ true
    → distinct ks ≡ true
    → emit_each s seen ks ≡ lines_each s ks
unfolding emit_each distinct
emit_fresh s seen [] h d = refl
emit_fresh s seen (k ∷ ks) h d =
    let fresh : elem k seen ≡ false = ground arith in
    let rest : emit_each s (seen ++ k ∷ []) ks ≡ lines_each s ks =
      emit_fresh s (seen ++ k ∷ []) ks (still_fresh k seen ks (ground arith) (ground arith))
        (ground arith) in
    rw (fresh, rest) refl

pub all_fresh : (ks : List Text) → all_of (λ k. not (elem k [])) ks ≡ true
all_fresh [] = refl
all_fresh (k ∷ ks) = all_fresh ks
