-- ===== src/Daemon/Ring/Window.antt =====
-- A ring of n slots holds the last n values that were written, in the order of writing.
use x_divine_ray.Prelude.{
  List, [], ap, arith, drop, last_n, length, refl, set, suc, take, zero, ℕ, ◌++◌, ◌<◌, ◌∷◌, ◌≡◌,
  ◌≤◌, length-set, ◌%◌, ◌+◌, ◌⊎◌, append-nil, append_assoc, drop_all, length-append, set-eq-append,
  sym, ◌-◌, ◌∙◌, inl, inr, Bool, false, true, length-drop, length-take, ◌==◌, length-replicate,
}
use x_divine_ray.Daemon.Ring.{Ring, add, ordered, add_all, new}
use native.Mathlib.Nat.{mod-eq_of_lt, mod_self}

pub le-or-lt : (n m : ℕ) → (n ≤ m) ⊎ (m < n)
le-or-lt n m = omega arith

pub suc-==-zero : (n : ℕ) → (suc n == 0) ≡ false
suc-==-zero n = ground arith

Wraps : ℕ → ℕ → Type 0
Wraps n m = ((n + 1) % m ≡ 0 × n + 1 ≡ m) ⊎ ((n + 1) % m ≡ suc n × n + 1 < m)

wraps : (n m : ℕ) → n < m → Wraps n m
unfolding Wraps
wraps n m h = go (le-or-lt (n + 2) m)
  where
    go :
        (n + 2 ≤ m) ⊎ (m < n + 2)
        → (((n + 1) % m ≡ 0 × n + 1 ≡ m) ⊎ ((n + 1) % m ≡ suc n × n + 1 < m))
    go (inl k) = inr (mod-eq_of_lt (omega arith) ∙ omega arith, omega arith)
    go (inr k) = let e : n + 1 ≡ m = omega arith in inl (ap (λ a. a % m) e ∙ mod_self m, e)

module _ {ℓ} {A : Type ℓ} where
  pub take-set :
      (xs : List A) (i : ℕ) (v : A)
      → i < length xs
      → take (suc i) (set xs i v) ≡ take i xs ++ v ∷ []
  take-set [] i v h = elim h [ ]
  take-set (x ∷ xs) zero v h = refl
  take-set (x ∷ xs) (suc i) v h = ap (◌∷◌ x) (take-set xs i v (omega arith))

  pub drop-set : (xs : List A) (i : ℕ) (v : A) → drop (suc i) (set xs i v) ≡ drop (suc i) xs
  drop-set [] i v = refl
  drop-set (x ∷ xs) zero v = refl
  drop-set (x ∷ xs) (suc i) v = drop-set xs i v

  drop-drop : (xs : List A) (i : ℕ) → drop 1 (drop i xs) ≡ drop (suc i) xs
  drop-drop xs zero = refl
  drop-drop [] (suc i) = refl
  drop-drop (x ∷ xs) (suc i) = drop-drop xs i

  drop-append : (n : ℕ) (xs ys : List A) → n ≤ length xs → drop n (xs ++ ys) ≡ drop n xs ++ ys
  drop-append zero xs ys h = refl
  drop-append (suc n) [] ys h = absurd (omega arith)
  drop-append (suc n) (x ∷ xs) ys h = drop-append n xs ys (omega arith)

  pub last_n-drop : (d n : ℕ) (zs : List A) → d + n ≤ length zs → last_n n (drop d zs) ≡ last_n n zs
  last_n-drop zero n zs h = refl
  last_n-drop (suc d) n [] h = absurd (omega arith)
  last_n-drop (suc d) n (z ∷ zs) h =
      let e : suc (length zs) - n ≡ suc (length zs - n) = omega arith in
      last_n-drop d n zs (omega arith) ∙ sym (ap (λ k. drop k (z ∷ zs)) e)

  -- `last_n` looks at the end only.
  last_n-append : (n : ℕ) (xs ys : List A) → last_n n (last_n n xs ++ ys) ≡ last_n n (xs ++ ys)
  last_n-append n xs ys =
      let e : last_n n xs ++ ys ≡ drop (length xs - n) (xs ++ ys) =
        sym (drop-append (length xs - n) xs ys (omega arith)) in
      elim (le-or-lt n (length xs)) [
        | inl h ↦
            ap (last_n n) e
            ∙ last_n-drop (length xs - n) n (xs ++ ys) (omega (arith, length-append xs ys))
        | inr h ↦ let z : length xs - n ≡ 0 = omega arith in ap (λ d. last_n n (drop d xs ++ ys)) z
      ]

  pub last_n_all : (n : ℕ) (xs : List A) → length xs ≤ n → last_n n xs ≡ xs
  last_n_all n xs h = let e : length xs - n ≡ 0 = omega arith in ap (λ d. drop d xs) e

  pub record IsRing (size : ℕ) (r : Ring A) : Type ℓ where
    pub sized : length r.slots ≡ size
    pub inside : r.next < size

  pub add-IsRing : (size : ℕ) (r : Ring A) (x : A) → IsRing size r → IsRing size (add r x)
  unfolding add
  add-IsRing size r x h = record {
    sized = length-set r.slots r.next x ∙ h.sized;
    inside = ground (arith, wraps r.next size h.inside, h.sized);
  }

  -- What a write leaves in the slots, read oldest first, by where the next slot is.
  set-wrapped :
      (s : List A) (i : ℕ) (x : A) → i + 1 ≡ length s → set s i x ++ [] ≡ take i s ++ x ∷ []
  set-wrapped s i x h =
      append-nil (set s i x)
      ∙ set-eq-append s i x (omega arith)
      ∙ ap (λ r. take i s ++ x ∷ r) (drop_all (suc i) s (omega arith))

  -- A full ring of n slots and one more: its oldest value goes.
  last_n-rotate :
      (s : List A) (i : ℕ) (x : A)
      → i < length s
      → last_n (length s) ((drop i s ++ take i s) ++ x ∷ [])
        ≡ drop (suc i) s ++ (take i s ++ x ∷ [])
  last_n-rotate s i x h =
      let e : length ((drop i s ++ take i s) ++ x ∷ []) - length s ≡ 1 = omega (
        arith,
        length-append (drop i s ++ take i s) (x ∷ []),
        length-append (drop i s) (take i s),
        length-drop i s,
        length-take i s,
      ) in
      ap (λ d. drop d ((drop i s ++ take i s) ++ x ∷ [])) e
      ∙ ap (drop 1) (append_assoc (drop i s) (take i s) (x ∷ []))
      ∙ drop-append 1 (drop i s) (take i s ++ x ∷ []) (omega (arith, length-drop i s))
      ∙ ap (λ d. d ++ (take i s ++ x ∷ [])) (drop-drop s i)

  -- What is read while the ring is not full fits.
  last_n-partial :
      (s : List A) (i : ℕ) (x : A)
      → i < length s
      → last_n (length s) (take i s ++ x ∷ []) ≡ take i s ++ x ∷ []
  last_n-partial s i x h =
      last_n_all (length s) (take i s ++ x ∷ [])
        (omega (arith, length-append (take i s) (x ∷ []), length-take i s))

  ordered-add_at :
      (s : List A) (i : ℕ) (f : Bool) (x : A)
      → i < length s
      → Wraps i (length s)
      → ordered (add (record { slots = s; next = i; full = f }) x)
        ≡ last_n (length s) (ordered (record { slots = s; next = i; full = f }) ++ x ∷ [])
  unfolding add ordered Wraps
  ordered-add_at s i false x h (inl (z, e)) =
      rw (z) (set-wrapped s i x e ∙ sym (last_n-partial s i x h))
  ordered-add_at s i true x h (inl (z, e)) = rw (z) (
      set-wrapped s i x e
      ∙ sym (ap (λ d. d ++ (take i s ++ x ∷ [])) (drop_all (suc i) s (omega arith)))
      ∙ sym (last_n-rotate s i x h))
  ordered-add_at s i false x h (inr (z, l)) =
      rw (z, suc-==-zero i) (take-set s i x h ∙ sym (last_n-partial s i x h))
  ordered-add_at s i true x h (inr (z, l)) =
      rw (z, suc-==-zero i)
        (ap (λ d. d ++ take (suc i) (set s i x)) (drop-set s i x)
          ∙ ap (◌++◌ (drop (suc i) s)) (take-set s i x h)
          ∙ sym (last_n-rotate s i x h))

  pub ordered-add :
      (size : ℕ) (r : Ring A) (x : A)
      → IsRing size r
      → ordered (add r x) ≡ last_n size (ordered r ++ x ∷ [])
  ordered-add size r x h =
      let w : r.next < length r.slots = omega (arith, h.inside, h.sized) in
      ordered-add_at r.slots r.next r.full x w (wraps r.next (length r.slots) w)
      ∙ ap (λ n. last_n n (ordered r ++ x ∷ [])) h.sized

  pub length-ordered : (size : ℕ) (r : Ring A) → IsRing size r → length (ordered r) ≤ size
  unfolding ordered
  length-ordered size r h = ground (
    arith,
    h.sized,
    h.inside,
    length-take r.next r.slots,
    length-drop r.next r.slots,
    length-append (drop r.next r.slots) (take r.next r.slots),
  )

  ordered-add_all :
      (size : ℕ) (xs : List A) (r : Ring A)
      → IsRing size r
      → ordered (add_all r xs) ≡ last_n size (ordered r ++ xs)
  unfolding add_all
  ordered-add_all size [] r h = sym (
      ap (last_n size) (append-nil (ordered r))
      ∙ last_n_all size (ordered r) (length-ordered size r h))
  ordered-add_all size (x ∷ xs) r h =
      ordered-add_all size xs (add r x) (add-IsRing size r x h)
      ∙ ap (λ o. last_n size (o ++ xs)) (ordered-add size r x h)
      ∙ last_n-append size (ordered r ++ x ∷ []) xs
      ∙ ap (last_n size) (append_assoc (ordered r) (x ∷ []) xs)

  -- Whatever is written to a new ring of n > 0 slots, it reads back as the last n values written,
  -- oldest first.
  pub ordered_window :
      (zero_value : A) (size : ℕ) (xs : List A)
      → 0 < size
      → ordered (add_all (new zero_value size) xs) ≡ last_n size xs
  unfolding new ordered
  ordered_window z size xs h =
      ordered-add_all size xs _ (record { sized = length-replicate size z; inside = h })
