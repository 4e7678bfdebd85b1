-- ===== src/Daemon/Journal/Newest.antt =====
-- The entry that `newest_error` finds is the last one that the journal reads, and a write there
-- replaces it.
use x_divine_ray.Prelude.{
  Bool, List, Option, [], all_of, ap, append_assoc, arith, false, get_elem?, length, none, refl,
  set, some, suc, sym, take, true, zero, ℕ, ◌++◌, ◌<◌, ◌∙◌, ◌∷◌, ◌≡◌, append-nil, drop, length-set,
  take_all, ◌%◌, ◌+◌, ◌-◌,
}
use native.Mathlib.Nat.{mod-eq_of_lt, add-mod_right}
use x_divine_ray.Model.Log.{ErrorEntry}
use x_divine_ray.Daemon.Ring.{Ring, ordered}
use x_divine_ray.Daemon.Ring.Window.{IsRing, take-set, drop-set, suc-==-zero}
use x_divine_ray.Daemon.Journal.{used, slot, newest_error}

pub data Newest (r : Ring ErrorEntry) : Option (ℕ × ErrorEntry) → Type 0 where
  empty : ordered r ≡ [] → Newest r none
  at :
      (i : ℕ) (e : ErrorEntry) (init : List ErrorEntry)
      → ordered r ≡ init ++ e ∷ []
      → ((y : ErrorEntry) → ordered (record r { slots = set r.slots i y }) ≡ init ++ y ∷ [])
      → Newest r (some (i, e))

get_elem-take :
    (s : List ErrorEntry) (i : ℕ)
    → i < length s
    → (e : ErrorEntry) × (get_elem? s i ≡ some e) × (take (suc i) s ≡ take i s ++ e ∷ [])
get_elem-take [] i h = elim h [ ]
get_elem-take (x ∷ s) zero h = (x, refl, refl)
get_elem-take (x ∷ s) (suc i) h =
    let (e, g, t) = get_elem-take s i (omega arith) in (e, g, ap (◌∷◌ x) t)

all_of-last :
    (p : ErrorEntry → Bool) (xs : List ErrorEntry) (e : ErrorEntry)
    → all_of p (xs ++ e ∷ []) ≡ true
    → p e ≡ true
all_of-last p [] e h = ground arith
all_of-last p (x ∷ xs) e h = ground (arith, all_of-last p xs e)

Newest-at :
    (r : Ring ErrorEntry) (i : ℕ) (pre : List ErrorEntry)
    → i < length r.slots
    → ordered r ≡ pre ++ take (suc i) r.slots
    → ((y : ErrorEntry)
        → ordered (record r { slots = set r.slots i y }) ≡ pre ++ take (suc i) (set r.slots i y))
    → all_of used (ordered r) ≡ true
    → Newest r (slot i (get_elem? r.slots i))
Newest-at r i pre h o w u =
    let (e, g, t) = get_elem-take r.slots i h in
    let last : ordered r ≡ (pre ++ take i r.slots) ++ e ∷ [] =
      o ∙ ap (◌++◌ pre) t ∙ sym (append_assoc pre (take i r.slots) (e ∷ [])) in
    let timed : used e ≡ true =
      all_of-last used (pre ++ take i r.slots) e (ap (all_of used) (sym last) ∙ u) in
    rw (g, timed)
      (at i e (pre ++ take i r.slots) last (λ y.
        w y
        ∙ ap (◌++◌ pre) (take-set r.slots i y h)
        ∙ sym (append_assoc pre (take i r.slots) (y ∷ []))))

before_zero : (n : ℕ) → 0 < n → (0 + n - 1) % n ≡ n - 1
before_zero n h = ap (λ k. k % n) (omega arith) ∙ mod-eq_of_lt (omega arith)

before_suc : (k n : ℕ) → suc k < n → (suc k + n - 1) % n ≡ k
before_suc k n h =
    let e : suc k + n - 1 ≡ k + n = omega arith in
    ap (λ m. m % n) e ∙ add-mod_right k n ∙ mod-eq_of_lt (omega arith)

pub newest_error-Newest :
    (size : ℕ) (r : Ring ErrorEntry)
    → IsRing size r
    → all_of used (ordered r) ≡ true
    → Newest r (newest_error r)
unfolding newest_error ordered
newest_error-Newest size r h u = go r.slots r.next r.full (omega (arith, h.inside, h.sized)) u
  where
    go :
        (s : List ErrorEntry) (n : ℕ) (f : Bool)
        → n < length s
        → all_of used (ordered (record { slots = s; next = n; full = f })) ≡ true
        → Newest
            (record { slots = s; next = n; full = f })
            (newest_error (record { slots = s; next = n; full = f }))
    go s zero false l v = empty refl
    go s zero true l v = rw (before_zero (length s) l) (
        Newest-at (record { slots = s; next = 0; full = true }) (length s - 1) [] (omega arith)
          (append-nil s ∙ sym (take_all (suc (length s - 1)) s (omega arith)))
          (λ y.
            append-nil (set s (length s - 1) y)
            ∙ sym (
                take_all (suc (length s - 1)) (set s (length s - 1) y)
                  (omega (arith, length-set s (length s - 1) y))))
          v)
    go s (suc k) false l v =
        rw (suc-==-zero k, before_suc k (length s) l)
          (Newest-at (record { slots = s; next = suc k; full = false }) k [] (omega arith) refl
            (λ y. refl) v)
    go s (suc k) true l v =
        rw (suc-==-zero k, before_suc k (length s) l)
          (Newest-at (record { slots = s; next = suc k; full = true }) k (drop (suc k) s)
            (omega arith) refl (λ y. ap (λ d. d ++ take (suc k) (set s k y)) (drop-set s k y)) v)
