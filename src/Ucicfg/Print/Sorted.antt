-- ===== src/Ucicfg/Print/Sorted.antt =====
-- Names in order: sorting the names of a map's entries loses and doubles none of them, and a map whose
-- entries are sorted answers as before.
use x_divine_ray.Prelude.{
  Bool, Bool-cases, List, Text, [], all_of, ap, arith, false, if◌then◌else◌, inl, inr, not, refl,
  text_eq, text_eq_iff, true, ◌&&◌, ◌++◌, ◌||◌, ◌∙◌, ◌∷◌, ◌≡◌,
}
use x_divine_ray.Ucicfg.Syntax.{lookup}
use x_divine_ray.Ucicfg.Print.{elem, keys, text_lt, insert_sorted, sort}

-- No name stands twice.
unfoldable pub distinct : List Text → Bool
distinct [] = true
distinct (k ∷ ks) = not (elem k ks) && distinct ks

text_lt_irrefl : (s : Text) → text_lt s s ≡ false
unfolding text_lt
text_lt_irrefl [] = refl
text_lt_irrefl (a ∷ s) = ground (arith, text_lt_irrefl s)

text_lt-ne : (s t : Text) → text_lt s t ≡ true → text_eq s t ≡ false
text_lt-ne s t h = elim (Bool-cases (text_eq s t)) [
  | inl same ↦ let no : text_lt s t ≡ false = rw ((text_eq_iff s t).0 same) (text_lt_irrefl t) in cc
  | inr other ↦ other
]

pub all_of-insert_sorted :
    (p : Text → Bool) (x : Text) (ks : List Text)
    → all_of p (insert_sorted x ks) ≡ all_of p (x ∷ ks)
all_of-insert_sorted p x [] = refl
all_of-insert_sorted p x (y ∷ ks) = ground (arith, all_of-insert_sorted p x ks)

pub all_of-sort : (p : Text → Bool) (ks : List Text) → all_of p (sort ks) ≡ all_of p ks
unfolding sort
all_of-sort p [] = refl
all_of-sort p (x ∷ ks) = ground (arith, all_of-insert_sorted p x (sort ks), all_of-sort p ks)

elem-insert_sorted : (k x : Text) (ks : List Text) → elem k (insert_sorted x ks) ≡ elem k (x ∷ ks)
elem-insert_sorted k x [] = refl
elem-insert_sorted k x (y ∷ ks) = ground (arith, elem-insert_sorted k x ks)

pub elem-sort : (k : Text) (ks : List Text) → elem k (sort ks) ≡ elem k ks
unfolding sort
elem-sort k [] = refl
elem-sort k (x ∷ ks) = ground (arith, elem-insert_sorted k x (sort ks), elem-sort k ks)

distinct-insert_sorted :
    (x : Text) (ks : List Text) → distinct (x ∷ ks) ≡ true → distinct (insert_sorted x ks) ≡ true
unfolding distinct
distinct-insert_sorted x [] h = refl
distinct-insert_sorted x (y ∷ ks) h = ground (
  arith,
  distinct-insert_sorted x ks,
  elem-insert_sorted y x ks,
  text_eq_iff x y,
  text_eq_iff y x,
)

pub distinct-sort : (ks : List Text) → distinct ks ≡ true → distinct (sort ks) ≡ true
unfolding sort distinct
distinct-sort [] h = refl
distinct-sort (x ∷ ks) h =
    distinct-insert_sorted x (sort ks) (ground (arith, distinct-sort ks, elem-sort x ks))

pub elem-++ : (k : Text) (xs ys : List Text) → elem k (xs ++ ys) ≡ (elem k xs || elem k ys)
elem-++ k [] ys = refl
elem-++ k (x ∷ xs) ys = ground (arith, elem-++ k xs ys)

pub distinct-append :
    (xs ys : List Text)
    → distinct xs ≡ true
    → distinct ys ≡ true
    → all_of (λ x. not (elem x ys)) xs ≡ true
    → distinct (xs ++ ys) ≡ true
unfolding distinct
distinct-append [] ys h k a = k
distinct-append (x ∷ xs) ys h k a = ground (arith, distinct-append xs ys, elem-++ x xs ys)

module _ {ℓ} {A : Type ℓ} where
  unfoldable pub insert_entry : Text × A → List (Text × A) → List (Text × A)
  insert_entry e [] = e ∷ []
  insert_entry e (f ∷ l) =
      let rest : List (Text × A) = insert_entry e l in
      if text_lt f.0 e.0 then f ∷ rest else e ∷ f ∷ l

  unfoldable pub sort_entries : List (Text × A) → List (Text × A)
  sort_entries [] = []
  sort_entries (e ∷ l) = insert_entry e (sort_entries l)

  keys-insert_entry :
      (e : Text × A) (l : List (Text × A)) → keys (insert_entry e l) ≡ insert_sorted e.0 (keys l)
  unfolding insert_entry
  keys-insert_entry e [] = refl
  keys-insert_entry e (f ∷ l) = elim (Bool-cases (text_lt f.0 e.0)) [
    | inl past ↦ rw past (ap (◌∷◌ f.0) (keys-insert_entry e l))
    | inr here ↦ rw here refl
  ]

  pub keys-sort_entries : (l : List (Text × A)) → keys (sort_entries l) ≡ sort (keys l)
  unfolding sort_entries sort
  keys-sort_entries [] = refl
  keys-sort_entries (e ∷ l) =
      keys-insert_entry e (sort_entries l) ∙ ap (insert_sorted e.0) (keys-sort_entries l)

  lookup-insert_entry :
      (k : Text) (e : Text × A) (l : List (Text × A))
      → lookup k (insert_entry e l) ≡ lookup k (e ∷ l)
  unfolding lookup insert_entry
  lookup-insert_entry k e [] = refl
  lookup-insert_entry k e (f ∷ l) = elim (Bool-cases (text_lt f.0 e.0)) [
    | inl past ↦ rw past (
        rw (lookup-insert_entry k e l) (
          ground (
            arith,
            text_lt-ne f.0 e.0 past,
            text_eq_iff f.0 e.0,
            text_eq_iff f.0 k,
            text_eq_iff e.0 k,
          )))
    | inr here ↦ rw here refl
  ]

  pub lookup-sort_entries :
      (k : Text) (l : List (Text × A)) → lookup k (sort_entries l) ≡ lookup k l
  unfolding sort_entries lookup
  lookup-sort_entries k [] = refl
  lookup-sort_entries k (e ∷ l) =
      lookup-insert_entry k e (sort_entries l) ∙ ground (arith, lookup-sort_entries k l)

  all_of-insert_entry :
      (p : Text × A → Bool) (e : Text × A) (l : List (Text × A))
      → all_of p (insert_entry e l) ≡ all_of p (e ∷ l)
  unfolding insert_entry
  all_of-insert_entry p e [] = refl
  all_of-insert_entry p e (f ∷ l) = ground (arith, all_of-insert_entry p e l)

  pub all_of-sort_entries :
      (p : Text × A → Bool) (l : List (Text × A)) → all_of p (sort_entries l) ≡ all_of p l
  unfolding sort_entries
  all_of-sort_entries p [] = refl
  all_of-sort_entries p (e ∷ l) =
      ground (arith, all_of-insert_entry p e (sort_entries l), all_of-sort_entries p l)
