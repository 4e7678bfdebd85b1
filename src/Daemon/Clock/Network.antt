-- ===== src/Daemon/Clock/Network.antt =====
-- What the hosts' answers make of the clock.
use mathlib.Core.Path.{subst}
use x_divine_ray.Prelude.{
  Bool, List, Option, [], any_of, arith, false, if◌then◌else◌, inl, inr, ltb, none, not, refl, some,
  true, ℕ, ◌&&◌, ◌++◌, ◌||◌, ◌∷◌, ◌≡◌, ◌≤◌, ◌⊎◌, append-nil, append_assoc,
}
use x_divine_ray.Daemon.Clock.{clock_floor, or_on, ask_each, network_time, set_to, skew, sync_clock}
use x_divine_ray.Daemon.Clock.Agreed.{is_near, has_pair, count_near, IsAgreed, agreed_time-IsAgreed}

-- The times of the hosts that answered.
abbrev pub answers : List (Option ℕ) → List ℕ
answers [] = []
answers (none ∷ hosts) = answers hosts
answers (some t ∷ hosts) = t ∷ answers hosts

any_of-prefix : (p : ℕ → Bool) (xs ys : List ℕ) → any_of p xs ≡ true → any_of p (xs ++ ys) ≡ true
any_of-prefix p [] ys h = ground arith
any_of-prefix p (x ∷ xs) ys h = ground (arith, any_of-prefix p xs ys)

or_grows :
    (a b c d : Bool)
    → (a ≡ true → c ≡ true)
    → (b ≡ true → d ≡ true)
    → (a || b) ≡ true
    → (c || d) ≡ true
or_grows true b c d f g h = rw (f refl) refl
or_grows false true true d f g h = refl
or_grows false true false d f g h = g refl
or_grows false false c d f g h = ground arith

has_pair-prefix : (xs ys : List ℕ) → has_pair xs ≡ true → has_pair (xs ++ ys) ≡ true
has_pair-prefix [] ys h = ground arith
has_pair-prefix (x ∷ xs) ys h =
    or_grows _ _ _ _ (any_of-prefix (is_near x) xs ys) (has_pair-prefix xs ys) h

count_near-prefix : (at : ℕ) (xs ys : List ℕ) → count_near at xs ≤ count_near at (xs ++ ys)
count_near-prefix at [] ys = ground arith
count_near-prefix at (x ∷ xs) ys = ground (arith, count_near-prefix at xs ys)

or_on-IsAgreed :
    (xs ys : List ℕ) (at rest : Option ℕ)
    → IsAgreed xs at
    → IsAgreed (xs ++ ys) rest
    → IsAgreed (xs ++ ys) (or_on at rest)
or_on-IsAgreed xs ys none rest g r = r
or_on-IsAgreed xs ys (some t) rest g r =
    (has_pair-prefix xs ys g.0, ground (arith, g.1, count_near-prefix t xs ys))

ask_each-IsAgreed :
    (seen : List ℕ) (hosts : List (Option ℕ))
    → IsAgreed (seen ++ answers hosts) (ask_each seen hosts)
unfolding ask_each
ask_each-IsAgreed seen [] = rw (append-nil seen) (agreed_time-IsAgreed seen)
ask_each-IsAgreed seen (none ∷ hosts) = ask_each-IsAgreed seen hosts
ask_each-IsAgreed seen (some t ∷ hosts) =
    subst (λ l. IsAgreed l (ask_each seen (some t ∷ hosts)))
      (append_assoc seen (t ∷ []) (answers hosts))
      (or_on-IsAgreed (seen ++ t ∷ []) (answers hosts) _ _ (agreed_time-IsAgreed (seen ++ t ∷ []))
        (ask_each-IsAgreed (seen ++ t ∷ []) hosts))

network_time-IsAgreed : (hosts : List (Option ℕ)) → IsAgreed (answers hosts) (network_time hosts)
unfolding network_time
network_time-IsAgreed hosts = ask_each-IsAgreed [] hosts

-- Where the setting is off, or no two of the hosts' answers are ten seconds apart at most, the clock
-- stays; otherwise there is a time with at least two of the answers within ten seconds of it, and
-- the clock is set to that time, unless it is less than two seconds from it already or the system
-- refuses.
pub sync_clock-agreed :
    (wanted : Bool) (before : ℕ) (hosts : List (Option ℕ)) (may_set : Bool)
    → (((wanted && has_pair (answers hosts)) ≡ false)
        × (sync_clock wanted before hosts may_set ≡ before))
      ⊎ (((wanted && has_pair (answers hosts)) ≡ true)
          × ((at : ℕ) × (2 ≤ count_near at (answers hosts))
              × (sync_clock wanted before hosts may_set
                  ≡ (if ltb (skew at before) clock_floor || not may_set then before else at))))
unfolding sync_clock
sync_clock-agreed false before hosts may_set = inl (refl, refl)
sync_clock-agreed true before hosts may_set =
    settled before may_set (answers hosts) (network_time hosts) (network_time-IsAgreed hosts)
  where
    settled :
        (before : ℕ) (may_set : Bool) (seen : List ℕ) (found : Option ℕ)
        → IsAgreed seen found
        → ((has_pair seen ≡ false) × (set_to before may_set found ≡ before))
          ⊎ ((has_pair seen ≡ true)
              × ((at : ℕ) × (2 ≤ count_near at seen)
                  × (set_to before may_set found
                      ≡ (if ltb (skew at before) clock_floor || not may_set then before else at))))
    settled before may_set seen none g = inl (g, refl)
    settled before may_set seen (some at) g = inr (g.0, (at, g.1, ground arith))
