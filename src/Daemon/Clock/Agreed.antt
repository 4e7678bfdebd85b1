-- ===== src/Daemon/Clock/Agreed.antt =====
-- The clock is only ever set to a time that two of the hosts agree on.
use x_divine_ray.Prelude.{
  Bool, Bool-cases, List, [], any_of, arith, false, inl, inr, keep_if, leb, length, refl, ℕ, ◌||◌,
  ◌∙◌, ◌∷◌, ◌≡◌, ◌≤◌, Option, if◌then◌else◌, none, some, sym, true, ◌-◌,
}
use x_divine_ray.Daemon.Clock.{
  clock_agreement, insert, sort, first_close, close_of, agreed_time, skew,
}

-- Two times are ten seconds apart at most.
abbrev pub is_near : ℕ → ℕ → Bool
is_near a b = leb (skew a b) clock_agreement

-- Two of the times agree.
abbrev pub has_pair : List ℕ → Bool
has_pair [] = false
has_pair (t ∷ ts) = any_of (is_near t) ts || has_pair ts

any_of-insert : (p : ℕ → Bool) (x : ℕ) (ys : List ℕ) → any_of p (insert x ys) ≡ any_of p (x ∷ ys)
unfolding insert
any_of-insert p x [] = refl
any_of-insert p x (y ∷ ys) = ground (arith, any_of-insert p x ys)

any_of-sort : (p : ℕ → Bool) (xs : List ℕ) → any_of p (sort xs) ≡ any_of p xs
unfolding sort
any_of-sort p [] = refl
any_of-sort p (x ∷ xs) = ground (arith, any_of-insert p x (sort xs), any_of-sort p xs)

near_comm : (a b : ℕ) → is_near a b ≡ is_near b a
near_comm a b = ground arith

swap_first :
    (n a b h : Bool) → ((if n then true else a) || (b || h)) ≡ ((if n then true else b) || (a || h))
swap_first true a b h = refl
swap_first false true true h = refl
swap_first false true false h = refl
swap_first false false true h = refl
swap_first false false false h = refl

has_pair-insert : (x : ℕ) (ys : List ℕ) → has_pair (insert x ys) ≡ has_pair (x ∷ ys)
unfolding insert
has_pair-insert x [] = refl
has_pair-insert x (y ∷ ys) = elim (Bool-cases (leb x y)) [
  | inl first ↦ rw first refl
  | inr later ↦ rw later (
      rw (any_of-insert (is_near y) x ys) (
        rw (has_pair-insert x ys) (
          rw (near_comm y x) (
            swap_first (is_near x y) (any_of (is_near y) ys) (any_of (is_near x) ys)
              (has_pair ys)))))
]

has_pair-sort : (xs : List ℕ) → has_pair (sort xs) ≡ has_pair xs
unfolding sort
has_pair-sort [] = refl
has_pair-sort (x ∷ xs) =
    has_pair-insert x (sort xs) ∙ rw (any_of-sort (is_near x) xs) (rw (has_pair-sort xs) refl)

length_kept-insert :
    (p : ℕ → Bool) (x : ℕ) (ys : List ℕ)
    → length (keep_if p (insert x ys)) ≡ length (keep_if p (x ∷ ys))
unfolding insert
length_kept-insert p x [] = refl
length_kept-insert p x (y ∷ ys) = ground (arith, length_kept-insert p x ys)

length_kept-sort :
    (p : ℕ → Bool) (xs : List ℕ) → length (keep_if p (sort xs)) ≡ length (keep_if p xs)
unfolding sort
length_kept-sort p [] = refl
length_kept-sort p (x ∷ xs) =
    ground (arith, length_kept-insert p x (sort xs), length_kept-sort p xs)

-- No time of the list is before `a`.
abbrev From : ℕ → List ℕ → Type 0
From a [] = Unit
From a (b ∷ bs) = (a ≤ b) × From b bs

From-insert : (a x : ℕ) (ys : List ℕ) → a ≤ x → From a ys → From a (insert x ys)
unfolding insert
From-insert a x [] h f = (h, tt)
From-insert a x (y ∷ ys) h f = elim (Bool-cases (leb x y)) [
  | inl first ↦ rw first (h, (ground arith, f.1))
  | inr later ↦ rw later (f.0, From-insert y x ys (ground arith) f.1)
]

abbrev IsSorted : List ℕ → Type 0
IsSorted [] = Unit
IsSorted (a ∷ l) = From a l

insert-IsSorted : (x : ℕ) (ys : List ℕ) → IsSorted ys → IsSorted (insert x ys)
unfolding insert
insert-IsSorted x [] h = tt
insert-IsSorted x (y ∷ ys) h = elim (Bool-cases (leb x y)) [
  | inl first ↦ rw first (ground arith, h)
  | inr later ↦ rw later (From-insert y x ys (ground arith) h)
]

sort-IsSorted : (xs : List ℕ) → IsSorted (sort xs)
unfolding sort
sort-IsSorted [] = tt
sort-IsSorted (x ∷ xs) = insert-IsSorted x (sort xs) (sort-IsSorted xs)

-- How many of the times are ten seconds from `at` at most.
abbrev pub count_near : ℕ → List ℕ → ℕ
count_near at seen = length (keep_if (is_near at) seen)

-- What a result has to be: a time that two agree on, and none only where no two agree.
abbrev pub IsAgreed : List ℕ → Option ℕ → Type 0
IsAgreed seen none = has_pair seen ≡ false
IsAgreed seen (some at) = (has_pair seen ≡ true) × (2 ≤ count_near at seen)

far_first :
    (a b : ℕ) (bs : List ℕ)
    → a ≤ b
    → leb (b - a) clock_agreement ≡ false
    → From b bs
    → any_of (is_near a) (b ∷ bs) ≡ false
far_first a b [] h far f = ground arith
far_first a b (c ∷ bs) h far f = ground (arith, far_first a c bs (ground arith) (ground arith) f.1)

far-IsAgreed :
    (a : ℕ) (xs : List ℕ) (at : Option ℕ)
    → any_of (is_near a) xs ≡ false
    → IsAgreed xs at
    → IsAgreed (a ∷ xs) at
far-IsAgreed a xs none far g = rw far g
far-IsAgreed a xs (some t) far g = (rw far g.0, ground (arith, g.1))

first_close-IsAgreed : (a : ℕ) (xs : List ℕ) → From a xs → IsAgreed (a ∷ xs) (first_close a xs)
unfolding first_close
first_close-IsAgreed a [] f = refl
first_close-IsAgreed a (b ∷ bs) f = elim (Bool-cases (leb (b - a) clock_agreement)) [
  | inl close ↦ rw close (ground arith, ground arith)
  | inr far ↦ rw far (
      far-IsAgreed a (b ∷ bs) (first_close b bs) (far_first a b bs f.0 far f.1)
        (first_close-IsAgreed b bs f.1))
]

close_of-IsAgreed : (xs : List ℕ) → IsSorted xs → IsAgreed xs (close_of xs)
close_of-IsAgreed [] h = refl
close_of-IsAgreed (a ∷ as') h = first_close-IsAgreed a as' h

unsorted-IsAgreed : (xs : List ℕ) (at : Option ℕ) → IsAgreed (sort xs) at → IsAgreed xs at
unsorted-IsAgreed xs none g = sym (has_pair-sort xs) ∙ g
unsorted-IsAgreed xs (some t) g =
    (sym (has_pair-sort xs) ∙ g.0, ground (arith, length_kept-sort (is_near t) xs, g.1))

pub agreed_time-IsAgreed : (seen : List ℕ) → IsAgreed seen (agreed_time seen)
unfolding agreed_time
agreed_time-IsAgreed seen =
    unsorted-IsAgreed seen (close_of (sort seen))
      (close_of-IsAgreed (sort seen) (sort-IsSorted seen))
