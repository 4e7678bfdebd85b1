-- ===== src/Ucicfg/Store/Filled.antt =====
-- What a filled section answers: a key that was set, the value; another, what it answered before.
use x_divine_ray.Prelude.{
  ◌&&◌, Bool, List, Text, [], if◌then◌else◌, text_eq, text_eq_iff, true, false, ◌∷◌, ◌≡◌, refl,
  arith, ap, ◌∙◌, some, sym,
}
use x_divine_ray.Ucicfg.Syntax.{
  Section, lookup, insert, set_option, get, list, or_empty, or_none, new_section,
}
use x_divine_ray.Ucicfg.Store.{set_all, set_some, put_list, set_non_empty}

if_same {ℓ} : {A : Type ℓ} (b : Bool) (x : A) → (if b then x else x) ≡ x
if_same true x = refl
if_same false x = refl

shadow {ℓ} :
    {A : Type ℓ} (b : Bool) (x y z : A)
    → (if b then x else z) ≡ (if b then x else if b then y else z)
shadow true x y z = refl
shadow false x y z = refl

apart {ℓ} :
    {A : Type ℓ} (b c : Bool) (x y z : A)
    → (b && c) ≡ false
    → (if b then x else (if c then y else z)) ≡ (if c then y else (if b then x else z))
apart true true x y z e = cc
apart true false x y z e = refl
apart false c x y z e = refl

different : (a k j : Text) → text_eq a k ≡ false → (text_eq a j && text_eq k j) ≡ false
different a k j e = ground (arith, text_eq_iff a k, text_eq_iff a j, text_eq_iff k j)

lookup-insert {ℓ} :
    {A : Type ℓ} (k j : Text) (v : A) (m : List (Text × A))
    → lookup j (insert k v m) ≡ (if text_eq k j then some v else lookup j m)
unfolding lookup insert
lookup-insert k j v [] = refl
lookup-insert k j v ((a, w) ∷ m) = go (lookup-insert k j v m) (text_eq a k) refl
  where
    go :
        lookup j (insert k v m) ≡ (if text_eq k j then some v else lookup j m)
        → (b : Bool) → text_eq a k ≡ b
        → lookup j (if b then (a, v) ∷ m else (a, w) ∷ insert k v m)
          ≡ (if text_eq k j then some v else if text_eq a j then some w else lookup j m)
    go ih true e = rw ((text_eq_iff a k).0 e) (shadow (text_eq k j) _ _ _)
    go ih false e = rw ih (apart (text_eq a j) (text_eq k j) _ _ _ (different a k j e))

-- The value that a table leaves under a key, with `def` under it before.
abbrev pub last_of : Text → List (Text × Text) → Text → Text
last_of j [] def = def
last_of j ((k, v) ∷ es) def = last_of j es (if text_eq k j then v else def)

abbrev pub or_before : Text → Text → Text
or_before [] def = def
or_before (c ∷ v) def = c ∷ v

abbrev pub last_some : Text → List (Text × Text) → Text → Text
last_some j [] def = def
last_some j ((k, v) ∷ es) def = last_some j es (if text_eq k j then or_before v def else def)

get-set_option :
    (k j v : Text) (s : Section) → get (set_option k v s) j ≡ (if text_eq k j then v else get s j)
unfolding get set_option
get-set_option k j v s = rw (lookup-insert k j v s.options) (go (text_eq k j))
  where
    go :
        (b : Bool)
        → or_empty (if b then some v else lookup j s.options) ≡ (if b then v else get s j)
    go true = refl
    go false = refl

pub get-set_all :
    (j : Text) (es : List (Text × Text)) (s : Section)
    → get (set_all es s) j ≡ last_of j es (get s j)
unfolding set_all
get-set_all j [] s = refl
get-set_all j ((k, v) ∷ es) s =
    get-set_all j es (set_option k v s) ∙ ap (last_of j es) (get-set_option k j v s)

pub get-set_some :
    (j : Text) (es : List (Text × Text)) (s : Section)
    → get (set_some es s) j ≡ last_some j es (get s j)
unfolding set_some
get-set_some j [] s = refl
get-set_some j ((k, v) ∷ es) s =
    get-set_some j es (set_non_empty k v s) ∙ ap (last_some j es) (one v)
  where
    one :
        (v : Text)
        → get (set_non_empty k v s) j ≡ (if text_eq k j then or_before v (get s j) else get s j)
    one [] = sym (if_same (text_eq k j) (get s j))
    one (c ∷ v) = get-set_option k j (c ∷ v) s

pub get-put_list : (k j : Text) (xs : List Text) (s : Section) → get (put_list k xs s) j ≡ get s j
unfolding get put_list
get-put_list k j [] s = refl
get-put_list k j (x ∷ xs) s = refl

abbrev pub or_list : List Text → List Text → List Text
or_list [] def = def
or_list (x ∷ xs) def = x ∷ xs

pub list-put_list :
    (k j : Text) (xs : List Text) (s : Section)
    → list (put_list k xs s) j ≡ (if text_eq k j then or_list xs (list s j) else list s j)
unfolding list put_list
list-put_list k j [] s = sym (if_same (text_eq k j) (list s j))
list-put_list k j (x ∷ xs) s = rw (lookup-insert k j (x ∷ xs) s.lists) (go (text_eq k j))
  where
    go :
        (b : Bool)
        → or_none (if b then some (x ∷ xs) else lookup j s.lists) ≡ (if b then x ∷ xs else list s j)
    go true = refl
    go false = refl

-- Filling changes neither the name nor, but for put_list, the lists.
pub name-set_all : (es : List (Text × Text)) (s : Section) → (set_all es s).name ≡ s.name
unfolding set_all set_option
name-set_all [] s = refl
name-set_all ((k, v) ∷ es) s = name-set_all es (set_option k v s)

name-set_non_empty : (k v : Text) (s : Section) → (set_non_empty k v s).name ≡ s.name
unfolding set_option
name-set_non_empty k [] s = refl
name-set_non_empty k (c ∷ v) s = refl

pub name-set_some : (es : List (Text × Text)) (s : Section) → (set_some es s).name ≡ s.name
unfolding set_some
name-set_some [] s = refl
name-set_some ((k, v) ∷ es) s = name-set_some es (set_non_empty k v s) ∙ name-set_non_empty k v s

pub name-put_list : (k : Text) (xs : List Text) (s : Section) → (put_list k xs s).name ≡ s.name
unfolding put_list
name-put_list k [] s = refl
name-put_list k (x ∷ xs) s = refl

pub list-set_all :
    (j : Text) (es : List (Text × Text)) (s : Section) → list (set_all es s) j ≡ list s j
unfolding set_all set_option list
list-set_all j [] s = refl
list-set_all j ((k, v) ∷ es) s = list-set_all j es (set_option k v s)

list-set_non_empty : (j k v : Text) (s : Section) → list (set_non_empty k v s) j ≡ list s j
unfolding set_option list
list-set_non_empty j k [] s = refl
list-set_non_empty j k (c ∷ v) s = refl

pub list-set_some :
    (j : Text) (es : List (Text × Text)) (s : Section) → list (set_some es s) j ≡ list s j
unfolding set_some
list-set_some j [] s = refl
list-set_some j ((k, v) ∷ es) s =
    list-set_some j es (set_non_empty k v s) ∙ list-set_non_empty j k v s

pub get-new_section : (t n j : Text) (b : Bool) → get (new_section t n b) j ≡ []
unfolding get lookup
get-new_section t n j b = refl

pub list-new_section : (t n j : Text) (b : Bool) → list (new_section t n b) j ≡ []
unfolding list lookup
list-new_section t n j b = refl

pub type_name-set_all :
    (es : List (Text × Text)) (s : Section) → (set_all es s).type_name ≡ s.type_name
unfolding set_all set_option
type_name-set_all [] s = refl
type_name-set_all ((k, v) ∷ es) s = type_name-set_all es (set_option k v s)

type_name-set_non_empty : (k v : Text) (s : Section) → (set_non_empty k v s).type_name ≡ s.type_name
unfolding set_option
type_name-set_non_empty k [] s = refl
type_name-set_non_empty k (c ∷ v) s = refl

pub type_name-set_some :
    (es : List (Text × Text)) (s : Section) → (set_some es s).type_name ≡ s.type_name
unfolding set_some
type_name-set_some [] s = refl
type_name-set_some ((k, v) ∷ es) s =
    type_name-set_some es (set_non_empty k v s) ∙ type_name-set_non_empty k v s

pub type_name-put_list :
    (k : Text) (xs : List Text) (s : Section) → (put_list k xs s).type_name ≡ s.type_name
unfolding put_list
type_name-put_list k [] s = refl
type_name-put_list k (x ∷ xs) s = refl
