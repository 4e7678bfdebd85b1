-- ===== src/Ucicfg/Print/Emitted.antt =====
-- The lines of a section are its items' lines, in their order.
use x_divine_ray.Prelude.{
  Bool, List, Text, [], all_of, ap, append-nil, append_assoc, arith, false, refl, sym, text_eq_refl,
  true, ◌++◌, ◌∙◌, ◌∷◌, ◌≡◌,
}
use x_divine_ray.Ucicfg.Syntax.{config_line}
use x_divine_ray.Ucicfg.Print.{elem, keys, option_lines, emit_each, unseen, sort, section_lines}
use x_divine_ray.Ucicfg.Print.Items.{
  Item, one, many, ones, manys, section_of, item_lines, unique, unique-append, option_lines-append,
  keys-append,
}

abbrev pub items_lines : List Item → List Text
items_lines [] = []
items_lines (i ∷ is) = item_lines i ++ items_lines is

pub emit_each-section_of :
    (t n : Text) (all done is : List Item)
    → all ≡ done ++ is
    → unique all ≡ true
    → emit_each (section_of t n all) (keys done) (keys is) ≡ items_lines is
unfolding emit_each
emit_each-section_of t n all done [] e u = refl
emit_each-section_of t n all done (i ∷ is) e u =
    let u' : unique (done ++ i ∷ is) ≡ true = ap unique (sym e) ∙ u in
    let fresh : elem i.0 (keys done) ≡ false = ground (arith, (unique-append done i is u').0) in
    let rest : emit_each (section_of t n all) (keys done ++ i.0 ∷ []) (keys is) ≡ items_lines is =
      ap (λ ks. emit_each (section_of t n all) ks (keys is)) (sym (keys-append done (i ∷ [])))
      ∙ emit_each-section_of t n all (done ++ i ∷ []) is (e ∙ sym (append_assoc done (i ∷ []) is))
          u in
    rw (fresh, rest)
      (ap (λ ls. ls ++ items_lines is)
        (ap (λ xs. option_lines (section_of t n xs) i.0) e ∙ option_lines-append t n done i is u'))

abbrev covered : List Text → List Item → Bool
covered order is = all_of (λ i. elem i.0 order) is

elem-append : (k : Text) (pre ks : List Text) → elem k (pre ++ k ∷ ks) ≡ true
elem-append k [] ks = rw (text_eq_refl k) refl
elem-append k (p ∷ pre) ks = ground (arith, elem-append k pre ks)

covered_all : (pre : List Text) (is : List Item) → covered (pre ++ keys is) is ≡ true
covered_all pre [] = refl
covered_all pre (i ∷ is) = rw (elem-append i.0 pre (keys is)) (
    ap (λ ks. covered ks is) (sym (append_assoc pre (i.0 ∷ []) (keys is)))
    ∙ covered_all (pre ++ i.0 ∷ []) is)

unseen-ones :
    (order : List Text) (is : List Item)
    → covered order is ≡ true
    → unseen order (keys (ones is)) ≡ []
unseen-ones order [] h = refl
unseen-ones order ((k, one v) ∷ is) h = ground (arith, unseen-ones order is)
unseen-ones order ((k, many v vs) ∷ is) h = ground (arith, unseen-ones order is)

unseen-manys :
    (order : List Text) (is : List Item)
    → covered order is ≡ true
    → unseen order (keys (manys is)) ≡ []
unseen-manys order [] h = refl
unseen-manys order ((k, one v) ∷ is) h = ground (arith, unseen-manys order is)
unseen-manys order ((k, many v vs) ∷ is) h = ground (arith, unseen-manys order is)

pub section_lines-section_of :
    (t n : Text) (is : List Item)
    → unique is ≡ true
    → section_lines (section_of t n is) ≡ config_line t n ∷ (items_lines is ++ [] ∷ [])
unfolding section_lines sort emit_each
section_lines-section_of t n is u =
    rw
      (
        unseen-ones (keys is) is (covered_all [] is),
        unseen-manys (keys is) is (covered_all [] is),
        emit_each-section_of t n is [] is refl u,
        append-nil (items_lines is),
      )
      refl
