-- ===== src/Ucicfg/Print/ReadItems.antt =====
-- The lines of a section's items fill the section again.
use x_divine_ray.Prelude.{
  Bool, List, Text, [], all_of, ap, append-nil, append_assoc, arith, map, refl, sym, true, ℕ, ◌&&◌,
  ◌++◌, ◌∙◌, ◌∷◌, ◌≡◌,
}
use x_divine_ray.Ucicfg.Token.Quoted.{is_word, no_apostrophe}
use x_divine_ray.Ucicfg.Syntax.{
  Section, Reading, set_option, add_to_list, update_last, with_sections, read_line, read_lines,
  list_line,
}
use x_divine_ray.Ucicfg.Syntax.Lines.{read_line-option_line, read_line-list_line}
use x_divine_ray.Ucicfg.Print.Items.{
  Item, one, many, section_of, item_lines, absent, unique, unique-append, set_option-section_of,
  add_to_list-section_of, add_to_list-more,
}
use x_divine_ray.Ucicfg.Print.Emitted.{items_lines}

-- A reading that stands in section `s`, after `ss`.
abbrev pub reading : Text → ℕ → List Section → Section → Reading
reading nm a ss s = record { pkg = record { name = nm; sections = ss ++ s ∷ [] }; anon = a }

pub update_last-append :
    (f : Section → Section) (ss : List Section) (s : Section)
    → update_last f (ss ++ s ∷ []) ≡ ss ++ f s ∷ []
update_last-append f [] s = refl
update_last-append f (x ∷ []) s = refl
update_last-append f (x ∷ y ∷ ss) s = ap (◌∷◌ x) (update_last-append f (y ∷ ss) s)

pub read_lines-append :
    (xs ys : List Text) (r : Reading) → read_lines (xs ++ ys) r ≡ read_lines ys (read_lines xs r)
unfolding read_lines
read_lines-append [] ys r = refl
read_lines-append (x ∷ xs) ys r = read_lines-append xs ys (read_line x r)

abbrev pub is_item : Item → Bool
is_item (k, one v) = is_word k && no_apostrophe v
is_item (k, many v vs) = is_word k && no_apostrophe v && all_of no_apostrophe vs

module _ (nm : Text) (a : ℕ) (ss : List Section) (t n : Text) where
  updated :
      (f : Section → Section) (s s' : Section)
      → f s ≡ s'
      → with_sections (update_last f) (reading nm a ss s) ≡ reading nm a ss s'
  updated f s s' e =
      let fill : List Section → Reading =
        λ xs. record { pkg = record { name = nm; sections = xs }; anon = a } in
      ap fill (update_last-append f ss s ∙ ap (λ x. ss ++ x ∷ []) e)

  read_more :
      (k v : Text) (vs ws : List Text) (done : List Item)
      → absent k done ≡ true
      → is_word k ≡ true
      → all_of no_apostrophe ws ≡ true
      → read_lines
          (map (list_line k) ws)
          (reading nm a ss (section_of t n (done ++ (k, many v vs) ∷ [])))
        ≡ reading nm a ss (section_of t n (done ++ (k, many v (vs ++ ws)) ∷ []))
  unfolding read_lines
  read_more k v vs [] done h kw vw =
      ap (λ l. reading nm a ss (section_of t n (done ++ (k, many v l) ∷ []))) (sym (append-nil vs))
  read_more k v vs (w ∷ ws) done h kw vw =
      ap (read_lines (map (list_line k) ws)) (
        read_line-list_line _ k w kw (ground arith)
        ∙ updated (add_to_list k w) _ _ (add_to_list-more t n k v w vs done h))
      ∙ read_more k v (vs ++ w ∷ []) ws done h kw (ground arith)
      ∙ ap (λ l. reading nm a ss (section_of t n (done ++ (k, many v l) ∷ [])))
          (append_assoc vs (w ∷ []) ws)

  read_item :
      (i : Item) (done : List Item)
      → absent i.0 done ≡ true
      → is_item i ≡ true
      → read_lines (item_lines i) (reading nm a ss (section_of t n done))
        ≡ reading nm a ss (section_of t n (done ++ i ∷ []))
  unfolding read_lines
  read_item (k, one v) done h w =
      read_line-option_line _ k v (ground arith) (ground arith)
      ∙ updated (set_option k v) _ _ (set_option-section_of t n k v done h)
  read_item (k, many v vs) done h w =
      ap (read_lines (map (list_line k) vs)) (
        read_line-list_line _ k v (ground arith) (ground arith)
        ∙ updated (add_to_list k v) _ _ (add_to_list-section_of t n k v done h))
      ∙ read_more k v [] vs done h (ground arith) (ground arith)

  pub read_items :
      (is done : List Item)
      → unique (done ++ is) ≡ true
      → all_of is_item is ≡ true
      → read_lines (items_lines is) (reading nm a ss (section_of t n done))
        ≡ reading nm a ss (section_of t n (done ++ is))
  read_items [] done u w =
      unfold read_lines in ap (λ xs. reading nm a ss (section_of t n xs)) (sym (append-nil done))
  read_items (i ∷ is) done u w =
      let assoc : (done ++ i ∷ []) ++ is ≡ done ++ i ∷ is = append_assoc done (i ∷ []) is in
      read_lines-append (item_lines i) (items_lines is) _
      ∙ ap (read_lines (items_lines is))
          (read_item i done (unique-append done i is u).0 (ground arith))
      ∙ read_items is (done ++ i ∷ []) (ap unique assoc ∙ u) (ground arith)
      ∙ ap (λ xs. reading nm a ss (section_of t n xs)) assoc
