-- ===== src/Ucicfg/Print/Inserted.antt =====
-- The names of a map's entries after an insertion.
use x_divine_ray.Prelude.{
  Bool, Bool-cases, List, Text, [], all_of, all_of-append, ap, arith, false, if◌then◌else◌, inl,
  inr, not, refl, text_eq, text_eq_iff, true, ◌++◌, ◌∙◌, ◌∷◌, ◌≡◌,
}
use x_divine_ray.Ucicfg.Syntax.{lookup, insert, has}
use x_divine_ray.Ucicfg.Print.{elem, keys}
use x_divine_ray.Ucicfg.Print.Sorted.{distinct, distinct-append}
use x_divine_ray.Ucicfg.Print.Settled.{has_values}

module _ {ℓ} {A : Type ℓ} where
  pub keys-insert :
      (k : Text) (v : A) (m : List (Text × A))
      → keys (insert k v m) ≡ (if has (lookup k m) then keys m else keys m ++ k ∷ [])
  unfolding insert lookup
  keys-insert k v [] = refl
  keys-insert k v ((j, w) ∷ m) = elim (Bool-cases (text_eq j k)) [
    | inl same ↦ rw same refl
    | inr other ↦ rw other (ap (◌∷◌ j) (keys-insert k v m) ∙ inside (has (lookup k m)))
  ]
    where
      inside :
          (b : Bool)
          → j ∷ (if b then keys m else keys m ++ k ∷ [])
            ≡ (if b then j ∷ keys m else j ∷ (keys m ++ k ∷ []))
      inside true = refl
      inside false = refl

  has-elem : (k : Text) (m : List (Text × A)) → has (lookup k m) ≡ elem k (keys m)
  unfolding lookup
  has-elem k [] = refl
  has-elem k ((j, w) ∷ m) = elim (Bool-cases (text_eq j k)) [
    | inl same ↦ rw same refl
    | inr other ↦ rw other (has-elem k m)
  ]

last_apart :
    (k : Text) (ks : List Text) → elem k ks ≡ false → all_of (λ x. not (elem x (k ∷ []))) ks ≡ true
last_apart k [] h = refl
last_apart k (j ∷ ks) h = ground (arith, last_apart k ks, text_eq_iff j k, text_eq_iff k j)

module _ {ℓ} {A : Type ℓ} (k : Text) (v : A) (m : List (Text × A)) where
  pub insert-distinct : distinct (keys m) ≡ true → distinct (keys (insert k v m)) ≡ true
  unfolding distinct
  insert-distinct h = elim (Bool-cases (elem k (keys m))) [
    | inl there ↦ rw (keys-insert k v m) (rw (has-elem k m) (rw there h))
    | inr fresh ↦ rw (keys-insert k v m) (
        rw (has-elem k m)
          (rw fresh (distinct-append (keys m) (k ∷ []) h refl (last_apart k (keys m) fresh))))
  ]

  pub all_of-insert :
      (p : Text → Bool)
      → p k ≡ true
      → all_of p (keys m) ≡ true
      → all_of p (keys (insert k v m)) ≡ true
  all_of-insert p e h = elim (Bool-cases (has (lookup k m))) [
    | inl there ↦ rw (keys-insert k v m) (rw there h)
    | inr fresh ↦
        rw (keys-insert k v m) (rw fresh (all_of-append p (keys m) (k ∷ []) h (ground arith)))
  ]

pub insert-has_values :
    (k x : Text) (xs : List Text) (m : List (Text × List Text))
    → all_of has_values m ≡ true
    → all_of has_values (insert k (x ∷ xs) m) ≡ true
unfolding insert
insert-has_values k x xs [] h = refl
insert-has_values k x xs ((j, []) ∷ m) h = cc
insert-has_values k x xs ((j, w ∷ ws) ∷ m) h = ground (arith, insert-has_values k x xs m)
