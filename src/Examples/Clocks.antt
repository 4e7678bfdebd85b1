-- ===== src/Examples/Clocks.antt =====
-- A router that boots in 1970 and two hosts that agree, and a host that is alone with its date.
use x_divine_ray.Prelude.{
  List, Option, [], false, if◌then◌else◌, ltb, none, not, refl, some, true, ℕ, ◌&&◌, ◌+◌, ◌||◌, ◌∷◌,
  ◌≡◌, ◌≤◌, ◌⊎◌,
}
use x_divine_ray.Daemon.Clock.{
  skew, clock_floor, insert, sort, first_close, agreed_time, ask_each, network_time, sync_clock,
  sync_clock_if_unset,
}
use x_divine_ray.Daemon.Clock.Agreed.{has_pair, count_near}
use x_divine_ray.Daemon.Clock.Network.{answers, sync_clock-agreed}

abbrev today : ℕ
today = 1790000000000000000

-- The second host fails; the others are four seconds apart.
abbrev hosts : List (Option ℕ)
hosts = some (today + 4000000000) ∷ none ∷ some today ∷ []

set_from_two : sync_clock_if_unset true 5 hosts true ≡ today + 4000000000
unfolding sync_clock network_time ask_each agreed_time first_close sort insert
set_from_two = refl

one_is_not_enough : sync_clock true 5 (none ∷ some today ∷ none ∷ []) true ≡ 5
unfolding sync_clock network_time ask_each agreed_time first_close sort insert
one_is_not_enough = refl

known_time_stays : sync_clock_if_unset true today hosts true ≡ today
known_time_stays = refl

sync_clock-agreed_example :
    (((true && has_pair (answers hosts)) ≡ false) × (sync_clock true 5 hosts true ≡ 5))
    ⊎ (((true && has_pair (answers hosts)) ≡ true)
        × ((at : ℕ) × (2 ≤ count_near at (answers hosts))
            × (sync_clock true 5 hosts true
                ≡ (if ltb (skew at 5) clock_floor || not true then 5 else at))))
sync_clock-agreed_example = sync_clock-agreed true 5 hosts true
