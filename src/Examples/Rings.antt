-- ===== src/Examples/Rings.antt =====
-- A ring of three slots.
use x_divine_ray.Prelude.{[], arith, last_n, ◌∷◌, ◌≡◌, ℕ, all_of, map, true, ◌⊎◌}
use mathlib.Core.List.{Memᴰ}
use x_divine_ray.Model.Int.{pos}
use x_divine_ray.Daemon.Traffic.{
  Sample, no_sample, History, capacity, new_history, add, samples, reset, peak, add_each,
}
use x_divine_ray.Daemon.Traffic.Peak.{samples-reset, below, peak_lem}
use x_divine_ray.Daemon.Ring.{new, add_all, ordered}
use x_divine_ray.Daemon.Ring.Window.{ordered_window}

ordered_window_example :
    ordered {A = ℕ} (add_all (new 0 3) (1 ∷ 2 ∷ 3 ∷ 4 ∷ 5 ∷ [])) ≡ last_n 3 (1 ∷ 2 ∷ 3 ∷ 4 ∷ 5 ∷ [])
ordered_window_example = ordered_window 0 3 (1 ∷ 2 ∷ 3 ∷ 4 ∷ 5 ∷ []) (omega arith)

abbrev busy : Sample
busy = record no_sample { uplink_rate = pos 7; downlink_rate = pos 9 }

samples-reset_example :
    samples (add_each (reset (add_each (new_history (pos 2)) (busy ∷ []))) (no_sample ∷ busy ∷ []))
    ≡ last_n (capacity (pos 2)) (no_sample ∷ busy ∷ [])
samples-reset_example = samples-reset (pos 2) (busy ∷ []) (no_sample ∷ busy ∷ [])

abbrev busy_history : History
busy_history = add (new_history (pos 2)) busy

peak_lem_example :
    (all_of (below (peak busy_history)) (samples busy_history) ≡ true)
    × (((peak busy_history).0 ≡ pos 0)
        ⊎ Memᴰ (peak busy_history).0 (map (λ s. s.uplink_rate) busy_history.slots))
    × (((peak busy_history).1 ≡ pos 0)
        ⊎ Memᴰ (peak busy_history).1 (map (λ s. s.downlink_rate) busy_history.slots))
peak_lem_example = peak_lem busy_history
