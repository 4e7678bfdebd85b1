-- ===== src/Daemon/Traffic/Peak.antt =====
-- A reset forgets everything, and the peak stands above every sample.
use x_divine_ray.Prelude.{
  Bool, List, [], ap, arith, false, last_n, length, length-set, map, refl, replicate, suc, true,
  zero, ◌&&◌, ◌<◌, ◌∙◌, ◌∷◌, ◌≡◌, all_of, length-replicate, all_of-append, all_of-drop, all_of-take,
  drop, if_elim, inl, inr, ◌⊎◌,
}
use x_divine_ray.Model.Int.{ℤ, pos, negsuc, lt, le}
use x_divine_ray.Daemon.Ring
use x_divine_ray.Daemon.Ring.{Ring}
use mathlib.Core.List.{Memᴰ}
use x_divine_ray.Daemon.Ring.Window.{ordered_window}
use x_divine_ray.Daemon.Traffic.{
  Sample, no_sample, History, capacity, new_history, add, samples, reset, raise, peak_over, peak,
  add_each,
}

add_each-add_all : (h : History) (xs : List Sample) → add_each h xs ≡ Ring.add_all h xs
unfolding add_each add Ring.add_all
add_each-add_all h [] = refl
add_each-add_all h (x ∷ xs) = add_each-add_all (Ring.add h x) xs

length-add_each : (xs : List Sample) (h : History) → length (add_each h xs).slots ≡ length h.slots
unfolding add_each add Ring.add
length-add_each [] h = refl
length-add_each (x ∷ xs) h = length-add_each xs (add h x) ∙ length-set h.slots h.next x

blank : (xs : List Sample) → map (λ s. no_sample) xs ≡ replicate (length xs) no_sample
blank [] = refl
blank (x ∷ xs) = ap (◌∷◌ no_sample) (blank xs)

reset-new : (h : History) (size : ℤ) → length h.slots ≡ capacity size → reset h ≡ new_history size
unfolding reset new_history Ring.new
reset-new h size e =
    let fresh : List Sample → History = λ s. record { slots = s; next = 0; full = false } in
    ap fresh (blank h.slots ∙ ap (λ n. replicate n no_sample) e)

length-new : (size : ℤ) → length (new_history size).slots ≡ capacity size
unfolding new_history Ring.new
length-new size = length-replicate (capacity size) no_sample

capacity-pos : (size : ℤ) → 0 < capacity size
capacity-pos (pos zero) = omega arith
capacity-pos (pos (suc n)) = omega arith
capacity-pos (negsuc n) = omega arith

-- Whatever a history held before it was reset, it then reads back as the last samples added since,
-- oldest first, as many as it was made for: 180 where the size asked for is not positive.
pub samples-reset :
    (size : ℤ) (before after : List Sample)
    → samples (add_each (reset (add_each (new_history size) before)) after)
      ≡ last_n (capacity size) after
unfolding samples
samples-reset size before after =
    let e : length (add_each (new_history size) before).slots ≡ capacity size =
      length-add_each before (new_history size) ∙ length-new size in
    ap (λ h. Ring.ordered (add_each h after)) (reset-new _ size e)
    ∙ ap Ring.ordered (add_each-add_all (new_history size) after)
    ∙ unfold new_history in ordered_window no_sample (capacity size) after (capacity-pos size)

le_refl : (a : ℤ) → le a a ≡ true
le_refl (pos n) = ground arith
le_refl (negsuc n) = ground arith

le_trans : (a b c : ℤ) → le a b ≡ true → le b c ≡ true → le a c ≡ true
le_trans (pos a) (pos b) (pos c) h k = ground arith
le_trans (pos a) (pos b) (negsuc c) h k = cc
le_trans (pos a) (negsuc b) c h k = cc
le_trans (negsuc a) (pos b) (pos c) h k = refl
le_trans (negsuc a) (pos b) (negsuc c) h k = cc
le_trans (negsuc a) (negsuc b) (pos c) h k = refl
le_trans (negsuc a) (negsuc b) (negsuc c) h k = ground arith

le-raise : (a b : ℤ) → (le a (raise a b) ≡ true) × (le b (raise a b) ≡ true)
le-raise (pos a) (pos b) = ground arith
le-raise (pos a) (negsuc b) = ground arith
le-raise (negsuc a) (pos b) = ground arith
le-raise (negsuc a) (negsuc b) = ground arith

-- Both rates of a sample are at most the two given.
abbrev pub below : ℤ × ℤ → Sample → Bool
below (up, down) s = le s.uplink_rate up && le s.downlink_rate down

below-le :
    (m n : ℤ × ℤ) (s : Sample)
    → below m s ≡ true
    → le m.0 n.0 ≡ true
    → le m.1 n.1 ≡ true
    → below n s ≡ true
below-le m n s h k l =
    ground (arith, le_trans s.uplink_rate m.0 n.0, le_trans s.downlink_rate m.1 n.1)

peak_over-ge :
    (xs : List Sample) (m : ℤ × ℤ)
    → (le m.0 (peak_over xs m).0 ≡ true) × (le m.1 (peak_over xs m).1 ≡ true)
peak_over-ge [] m = (le_refl m.0, le_refl m.1)
peak_over-ge (x ∷ xs) (up, down) =
    let (u, d) = peak_over-ge xs (raise x.uplink_rate up, raise x.downlink_rate down) in
    (
      le_trans up _ _ (le-raise x.uplink_rate up).1 u,
      le_trans down _ _ (le-raise x.downlink_rate down).1 d,
    )

peak_over-below : (xs : List Sample) (m : ℤ × ℤ) → all_of (below (peak_over xs m)) xs ≡ true
peak_over-below [] m = refl
peak_over-below (x ∷ xs) (up, down) =
    let n : ℤ × ℤ = (raise x.uplink_rate up, raise x.downlink_rate down) in
    let (u, d) = peak_over-ge xs n in
    let b : below (peak_over xs n) x ≡ true =
      below-le n (peak_over xs n) x
        (rw ((le-raise x.uplink_rate up).0, (le-raise x.downlink_rate down).0) refl) u d in
    rw b (peak_over-below xs n)

-- The first of the two peaks is a rate that was read, unless it is the one it began with; likewise
-- the second.
peak_over-Attained :
    (xs : List Sample) (m : ℤ × ℤ)
    → (((peak_over xs m).0 ≡ m.0) ⊎ Memᴰ (peak_over xs m).0 (map (λ s. s.uplink_rate) xs))
      × (((peak_over xs m).1 ≡ m.1) ⊎ Memᴰ (peak_over xs m).1 (map (λ s. s.downlink_rate) xs))
peak_over-Attained [] m = (inl refl, inl refl)
peak_over-Attained (x ∷ xs) (up, down) =
    let n : ℤ × ℤ = (raise x.uplink_rate up, raise x.downlink_rate down) in
    let (u, d) = peak_over-Attained xs n in
    (
      from (peak_over xs n).0 x.uplink_rate up (map (λ s. s.uplink_rate) xs) u,
      from (peak_over xs n).1 x.downlink_rate down (map (λ s. s.downlink_rate) xs) d,
    )
  where
    from : (z a b : ℤ) (rs : List ℤ) → (z ≡ raise a b) ⊎ Memᴰ z rs → (z ≡ b) ⊎ Memᴰ z (a ∷ rs)
    from z a b rs (inr h) = inr (Memᴰ.tail h)
    from z a b rs (inl e) =
        if_elim (λ r. z ≡ r → (z ≡ b) ⊎ Memᴰ z (a ∷ rs)) (lt b a) a b (λ _ h. inr (Memᴰ.head h))
          (λ _ h. inl h) e

-- The peak is the highest rate of each kind: no sample that is read has a higher one, and it is 0 or
-- the rate of a slot.
pub peak_lem :
    (h : History)
    → (all_of (below (peak h)) (samples h) ≡ true)
      × (((peak h).0 ≡ pos 0) ⊎ Memᴰ (peak h).0 (map (λ s. s.uplink_rate) h.slots))
      × (((peak h).1 ≡ pos 0) ⊎ Memᴰ (peak h).1 (map (λ s. s.downlink_rate) h.slots))
unfolding peak samples Ring.ordered
peak_lem h =
    let m : ℤ × ℤ = (pos 0, pos 0) in
    let b = peak_over-below h.slots m in
    let p = below (peak_over h.slots m) in
    let t = all_of-take p h.next h.slots b in
    (
      if_elim (λ l. all_of p l ≡ true) h.full _ _
          (λ _. all_of-append p (drop h.next h.slots) _ (all_of-drop p h.next h.slots b) t)
          (λ _. t),
      (peak_over-Attained h.slots m).0,
      (peak_over-Attained h.slots m).1,
    )
