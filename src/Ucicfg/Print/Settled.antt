-- ===== src/Ucicfg/Print/Settled.antt =====
-- A section whose lists went past `Set`: it is written with its lists sorted behind its options, and so
-- it is read back with them there.
use x_divine_ray.Prelude.{
  Bool, List, Text, [], all_of, ap, arith, false, not, refl, sym, true, ◌++◌, ◌∙◌, ◌∷◌, ◌≡◌,
  append-nil,
}
use x_divine_ray.Ucicfg.Syntax.{Section}
use x_divine_ray.Ucicfg.Print.{
  elem, keys, unseen, emit_each, option_lines, sort, lookup, header_line, section_lines,
  value_lines, config_line,
}
use x_divine_ray.Ucicfg.Print.Items.{Item, one, many, ones, manys, unique}
use x_divine_ray.Ucicfg.Print.RoundTrip.{Named, section_named}
use x_divine_ray.Ucicfg.Print.Emitted.{items_lines, emit_each-section_of, section_lines-section_of}
use x_divine_ray.Ucicfg.Print.Fresh.{
  unseen_all, unseen_none, own_elem, lines_each, lines_each-++, emit_fresh, all_fresh,
}
use x_divine_ray.Ucicfg.Print.Sorted.{
  distinct, sort_entries, all_of-sort_entries, distinct-append, keys-sort_entries, elem-sort,
  distinct-sort, lookup-sort_entries, all_of-sort,
}

abbrev pub has_values : Text × List Text → Bool
has_values (k, []) = false
has_values (k, v ∷ vs) = true

abbrev pub option_items : List (Text × Text) → List Item
option_items [] = []
option_items ((k, v) ∷ o) = (k, one v) ∷ option_items o

abbrev pub list_items : List (Text × List Text) → List Item
list_items [] = []
list_items ((k, []) ∷ l) = list_items l
list_items ((k, v ∷ vs) ∷ l) = (k, many v vs) ∷ list_items l

abbrev pub settled_items : Section → List Item
settled_items s = option_items s.options ++ list_items (sort_entries s.lists)

abbrev pub settled : Section → Named
settled s = record { type_name = s.type_name; name = s.name; items = settled_items s }

-- The options came by `Set`, and the lists are of other names.
pub record IsBuilt (s : Section) : Type 0 where
  pub named : s.anon ≡ false
  pub order : s.order ≡ keys s.options
  pub options : distinct (keys s.options) ≡ true
  pub lists : distinct (keys s.lists) ≡ true
  pub values : all_of has_values s.lists ≡ true
  pub apart : all_of (λ k. not (elem k (keys s.lists))) (keys s.options) ≡ true
  pub apart_lists : all_of (λ k. not (elem k (keys s.options))) (keys s.lists) ≡ true

ones-option_items :
    (o : List (Text × Text)) (is : List Item) → ones (option_items o ++ is) ≡ o ++ ones is
ones-option_items [] is = refl
ones-option_items ((k, v) ∷ o) is = ap (◌∷◌ (k, v)) (ones-option_items o is)

manys-option_items :
    (o : List (Text × Text)) (is : List Item) → manys (option_items o ++ is) ≡ manys is
manys-option_items [] is = refl
manys-option_items ((k, v) ∷ o) is = manys-option_items o is

keys-option_items :
    (o : List (Text × Text)) (is : List Item) → keys (option_items o ++ is) ≡ keys o ++ keys is
keys-option_items [] is = refl
keys-option_items ((k, v) ∷ o) is = ap (◌∷◌ k) (keys-option_items o is)

ones-list_items : (l : List (Text × List Text)) → ones (list_items l) ≡ []
ones-list_items [] = refl
ones-list_items ((k, []) ∷ l) = ones-list_items l
ones-list_items ((k, v ∷ vs) ∷ l) = ones-list_items l

manys-list_items :
    (l : List (Text × List Text)) → all_of has_values l ≡ true → manys (list_items l) ≡ l
manys-list_items [] h = refl
manys-list_items ((k, []) ∷ l) h = cc
manys-list_items ((k, v ∷ vs) ∷ l) h = ap (◌∷◌ (k, v ∷ vs)) (manys-list_items l h)

keys-list_items :
    (l : List (Text × List Text)) → all_of has_values l ≡ true → keys (list_items l) ≡ keys l
keys-list_items [] h = refl
keys-list_items ((k, []) ∷ l) h = cc
keys-list_items ((k, v ∷ vs) ∷ l) h = ap (◌∷◌ k) (keys-list_items l h)

unique-distinct : (is : List Item) → unique is ≡ distinct (keys is)
unfolding unique distinct
unique-distinct [] = refl
unique-distinct (i ∷ is) = rw (unique-distinct is) refl

module _ (s : Section) (b : IsBuilt s) where
  sorted_values : all_of has_values (sort_entries s.lists) ≡ true
  sorted_values = all_of-sort_entries has_values s.lists ∙ b.values

  ones_settled : ones (settled_items s) ≡ s.options
  ones_settled =
      ones-option_items s.options (list_items (sort_entries s.lists))
      ∙ ap (◌++◌ s.options) (ones-list_items (sort_entries s.lists))
      ∙ append-nil s.options

  manys_settled : manys (settled_items s) ≡ sort_entries s.lists
  manys_settled =
      manys-option_items s.options (list_items (sort_entries s.lists))
      ∙ manys-list_items (sort_entries s.lists) sorted_values

  keys_settled : keys (settled_items s) ≡ keys s.options ++ sort (keys s.lists)
  keys_settled =
      keys-option_items s.options (list_items (sort_entries s.lists))
      ∙ ap (◌++◌ (keys s.options))
          (keys-list_items (sort_entries s.lists) sorted_values ∙ keys-sort_entries s.lists)

  apart_sorted : all_of (λ k. not (elem k (sort (keys s.lists)))) (keys s.options) ≡ true
  apart_sorted = go (keys s.options) b.apart
    where
      go :
          (ks : List Text)
          → all_of (λ k. not (elem k (keys s.lists))) ks ≡ true
          → all_of (λ k. not (elem k (sort (keys s.lists)))) ks ≡ true
      go [] h = refl
      go (k ∷ ks) h = ground (arith, go ks, elem-sort k (keys s.lists))

  distinct_settled : distinct (keys (settled_items s)) ≡ true
  distinct_settled =
      ap distinct keys_settled
      ∙ distinct-append (keys s.options) (sort (keys s.lists)) b.options
          (distinct-sort (keys s.lists) b.lists) apart_sorted

  pub unique_settled : unique (settled_items s) ≡ true
  unique_settled = unique-distinct (settled_items s) ∙ distinct_settled

  pub lookup-lists_settled :
      (k : Text) → lookup k (section_named (settled s)).lists ≡ lookup k s.lists
  lookup-lists_settled k = ap (lookup k) manys_settled ∙ lookup-sort_entries k s.lists

  pub lookup-options_settled :
      (k : Text) → lookup k (section_named (settled s)).options ≡ lookup k s.options
  lookup-options_settled k = ap (lookup k) ones_settled

  option_lines-settled : (k : Text) → option_lines s k ≡ option_lines (section_named (settled s)) k
  option_lines-settled k =
      sym (ap (λ v. value_lines k v (lookup k s.options)) (lookup-lists_settled k))
      ∙ sym (
          ap (value_lines k (lookup k (section_named (settled s)).lists))
            (lookup-options_settled k))

  lines_each-settled :
      (ks : List Text) → lines_each s ks ≡ lines_each (section_named (settled s)) ks
  lines_each-settled [] = refl
  lines_each-settled (k ∷ ks) = rw (option_lines-settled k, lines_each-settled ks) refl

  rest_settled :
      sort (unseen s.order (keys s.options) ++ unseen s.order (keys s.lists)) ≡ sort (keys s.lists)
  rest_settled =
      rw
        (
          b.order,
          unseen_all (keys s.options) (keys s.options) (own_elem [] (keys s.options)),
          unseen_none (keys s.options) (keys s.lists) b.apart_lists,
        )
        refl

  emitted :
      emit_each s [] s.order ++ emit_each s s.order (sort (keys s.lists))
      ≡ items_lines (settled_items s)
  emitted =
      let ks : List Text = keys s.options in
      let js : List Text = sort (keys s.lists) in
      let is : List Item = settled_items s in
      ap (λ o. emit_each s [] o ++ emit_each s o js) b.order
      ∙ ap (λ ls. ls ++ emit_each s ks js) (emit_fresh s [] ks (all_fresh ks) b.options)
      ∙ ap (◌++◌ (lines_each s ks)) (
          emit_fresh s ks js (all_of-sort (λ k. not (elem k ks)) (keys s.lists) ∙ b.apart_lists)
            (distinct-sort (keys s.lists) b.lists))
      ∙ sym (lines_each-++ s ks js)
      ∙ ap (lines_each s) (sym keys_settled)
      ∙ lines_each-settled (keys is)
      ∙ sym (
          emit_fresh (section_named (settled s)) [] (keys is) (all_fresh (keys is))
            distinct_settled)
      ∙ emit_each-section_of s.type_name s.name is [] is refl unique_settled

  header_settled : header_line s ≡ config_line s.type_name s.name
  header_settled = rw b.named refl

  pub section_lines-settled : section_lines s ≡ section_lines (section_named (settled s))
  unfolding section_lines
  section_lines-settled =
      rw (rest_settled, emitted, header_settled) refl
      ∙ sym (section_lines-section_of s.type_name s.name (settled_items s) unique_settled)
