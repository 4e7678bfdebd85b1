-- ===== src/Ucicfg/Print/Items.antt =====
-- A section that was filled with options and lists, one after another: what its maps hold.
use x_divine_ray.Prelude.{
  Bool, List, Text, [], ap, arith, false, map, none, not, refl, some, text_eq_refl, true, ◌&&◌,
  ◌++◌, ◌∷◌, ◌≡◌, append-nil, sym, text_eq, text_eq_iff, ◌∙◌,
}
use x_divine_ray.Ucicfg.Syntax.{
  Section, lookup, insert, set_option, add_to_list, option_line, list_line,
}
use x_divine_ray.Ucicfg.Print.{elem, keys, option_lines}

pub data Value : Type 0 where
  one : Text → Value
  many : Text → List Text → Value

abbrev pub Item : Type 0
Item = Text × Value

abbrev pub ones : List Item → List (Text × Text)
ones [] = []
ones ((k, one v) ∷ is) = (k, v) ∷ ones is
ones ((k, many v vs) ∷ is) = ones is

abbrev pub manys : List Item → List (Text × List Text)
manys [] = []
manys ((k, one v) ∷ is) = manys is
manys ((k, many v vs) ∷ is) = (k, v ∷ vs) ∷ manys is

-- The section of those items.
abbrev pub the_section :
    Text → Text → List (Text × Text) → List (Text × List Text) → List Text → Section
the_section t n o l ks = record {
  name = n;
  type_name = t;
  anon = false;
  options = o;
  lists = l;
  order = ks;
}

abbrev pub section_of : Text → Text → List Item → Section
section_of t n is = the_section t n (ones is) (manys is) (keys is)

abbrev pub item_lines : Item → List Text
item_lines (k, one v) = option_line k v ∷ []
item_lines (k, many v vs) = map (list_line k) (v ∷ vs)

abbrev pub absent : Text → List Item → Bool
absent k is = not (elem k (keys is))

-- No two items have one name.
unfoldable pub unique : List Item → Bool
unique [] = true
unique (i ∷ is) = absent i.0 is && unique is

absent-middle :
    (k : Text) (done : List Item) (i : Item) (is : List Item)
    → absent k (done ++ i ∷ is) ≡ true
    → text_eq i.0 k ≡ false
absent-middle k [] i is h = ground arith
absent-middle k (d ∷ done) i is h = ground (arith, absent-middle k done i is)

pub unique-append :
    (done : List Item) (i : Item) (is : List Item)
    → unique (done ++ i ∷ is) ≡ true
    → (absent i.0 done ≡ true) × (absent i.0 is ≡ true)
unfolding unique
unique-append [] i is h = (refl, ground arith)
unique-append (d ∷ done) i is h = ground (
  arith,
  unique-append done i is,
  absent-middle d.0 done i is,
  text_eq_iff d.0 i.0,
  text_eq_iff i.0 d.0,
)

absent-ones : (k : Text) (is : List Item) → absent k is ≡ true → lookup k (ones is) ≡ none
unfolding lookup
absent-ones k [] h = refl
absent-ones k ((j, one v) ∷ is) h = ground (arith, absent-ones k is)
absent-ones k ((j, many v vs) ∷ is) h = ground (arith, absent-ones k is)

absent-manys : (k : Text) (is : List Item) → absent k is ≡ true → lookup k (manys is) ≡ none
unfolding lookup
absent-manys k [] h = refl
absent-manys k ((j, one v) ∷ is) h = ground (arith, absent-manys k is)
absent-manys k ((j, many v vs) ∷ is) h = ground (arith, absent-manys k is)

module _ {ℓ} {A : Type ℓ} where
  lookup-append :
      (k : Text) (m l : List (Text × A)) → lookup k m ≡ none → lookup k (m ++ l) ≡ lookup k l
  unfolding lookup
  lookup-append k [] l h = refl
  lookup-append k ((j, w) ∷ m) l h = ground (arith, lookup-append k m l)

  insert-absent :
      (k : Text) (v : A) (m : List (Text × A)) → lookup k m ≡ none → insert k v m ≡ m ++ (k, v) ∷ []
  unfolding lookup insert
  insert-absent k v [] h = refl
  insert-absent k v ((j, w) ∷ m) h = ground (arith, insert-absent k v m)

  lookup-last :
      (k : Text) (v : A) (m : List (Text × A))
      → lookup k m ≡ none
      → lookup k (m ++ (k, v) ∷ []) ≡ some v
  unfolding lookup
  lookup-last k v [] h = rw (text_eq_refl k) refl
  lookup-last k v ((j, w) ∷ m) h = ground (arith, lookup-last k v m)

  insert-last :
      (k : Text) (v w : A) (m : List (Text × A))
      → lookup k m ≡ none
      → insert k w (m ++ (k, v) ∷ []) ≡ m ++ (k, w) ∷ []
  unfolding lookup insert
  insert-last k v w [] h = rw (text_eq_refl k) refl
  insert-last k v w ((j, x) ∷ m) h = ground (arith, insert-last k v w m)

ones-append : (xs ys : List Item) → ones (xs ++ ys) ≡ ones xs ++ ones ys
ones-append [] ys = refl
ones-append ((k, one v) ∷ xs) ys = ap (◌∷◌ (k, v)) (ones-append xs ys)
ones-append ((k, many v vs) ∷ xs) ys = ones-append xs ys

manys-append : (xs ys : List Item) → manys (xs ++ ys) ≡ manys xs ++ manys ys
manys-append [] ys = refl
manys-append ((k, one v) ∷ xs) ys = manys-append xs ys
manys-append ((k, many v vs) ∷ xs) ys = ap (◌∷◌ (k, v ∷ vs)) (manys-append xs ys)

-- What the lookups of an item's name find.
pub option_lines-append :
    (t n : Text) (done : List Item) (i : Item) (is : List Item)
    → unique (done ++ i ∷ is) ≡ true
    → option_lines (section_of t n (done ++ i ∷ is)) i.0 ≡ item_lines i
unfolding lookup
option_lines-append t n done (k, one v) is h =
    let (a, b) = unique-append done (k, one v) is h in
    rw
      (
        manys-append done ((k, one v) ∷ is),
        ones-append done ((k, one v) ∷ is),
        lookup-append k (manys done) (manys is) (absent-manys k done a),
        absent-manys k is b,
        lookup-append k (ones done) ((k, v) ∷ ones is) (absent-ones k done a),
        text_eq_refl k,
      )
      refl
option_lines-append t n done (k, many v vs) is h =
    let (a, b) = unique-append done (k, many v vs) is h in
    rw
      (
        manys-append done ((k, many v vs) ∷ is),
        lookup-append k (manys done) ((k, v ∷ vs) ∷ manys is) (absent-manys k done a),
        text_eq_refl k,
      )
      refl

pub keys-append : (xs ys : List Item) → keys (xs ++ ys) ≡ keys xs ++ keys ys
keys-append [] ys = refl
keys-append (x ∷ xs) ys = ap (◌∷◌ x.0) (keys-append xs ys)

section_ext :
    (t n : Text) {o o' : List (Text × Text)} {l l' : List (Text × List Text)} {ks ks' : List Text}
    → o ≡ o'
    → l ≡ l'
    → ks ≡ ks'
    → the_section t n o l ks ≡ the_section t n o' l' ks'
section_ext t n a b c = rw (a, b, c) refl

-- Setting an option that is not there, and beginning a list and going on with it.
pub set_option-section_of :
    (t n k v : Text) (done : List Item)
    → absent k done ≡ true
    → set_option k v (section_of t n done) ≡ section_of t n (done ++ (k, one v) ∷ [])
unfolding set_option
set_option-section_of t n k v done h = rw (absent-ones k done h) (
    section_ext t n
      (insert-absent k v (ones done) (absent-ones k done h) ∙ sym (ones-append done _))
      (sym (manys-append done ((k, one v) ∷ []) ∙ append-nil (manys done)))
      (sym (keys-append done _)))

pub add_to_list-section_of :
    (t n k v : Text) (done : List Item)
    → absent k done ≡ true
    → add_to_list k v (section_of t n done) ≡ section_of t n (done ++ (k, many v []) ∷ [])
unfolding add_to_list
add_to_list-section_of t n k v done h = rw (absent-manys k done h) (
    section_ext t n (sym (ones-append done ((k, many v []) ∷ []) ∙ append-nil (ones done)))
      (insert-absent k (v ∷ []) (manys done) (absent-manys k done h) ∙ sym (manys-append done _))
      (sym (keys-append done _)))

pub add_to_list-more :
    (t n k v w : Text) (vs : List Text) (done : List Item)
    → absent k done ≡ true
    → add_to_list k w (section_of t n (done ++ (k, many v vs) ∷ []))
      ≡ section_of t n (done ++ (k, many v (vs ++ w ∷ [])) ∷ [])
unfolding add_to_list
add_to_list-more t n k v w vs done h =
    let m : manys (done ++ (k, many v vs) ∷ []) ≡ manys done ++ (k, v ∷ vs) ∷ [] =
      manys-append done ((k, many v vs) ∷ []) in
    let l : lookup k (manys (done ++ (k, many v vs) ∷ [])) ≡ some (v ∷ vs) =
      ap (lookup k) m ∙ lookup-last k (v ∷ vs) (manys done) (absent-manys k done h) in
    rw l (
      section_ext t n (ones-append done ((k, many v vs) ∷ []) ∙ sym (ones-append done _))
        (ap (insert k (v ∷ (vs ++ w ∷ []))) m
          ∙ insert-last k (v ∷ vs) (v ∷ (vs ++ w ∷ [])) (manys done) (absent-manys k done h)
          ∙ sym (manys-append done _))
        (keys-append done ((k, many v vs) ∷ []) ∙ sym (keys-append done _)))
