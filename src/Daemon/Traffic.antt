-- ===== src/Daemon/Traffic.antt =====
-- The traffic history (internal/daemon/traffic.go), a ring of samples.
pub mod Peak
use x_divine_ray.Prelude.{List, [], false, if◌then◌else◌, map, suc, zero, ℕ, ◌∷◌}
use x_divine_ray.Model.Int.{ℤ, pos, negsuc, lt}
use x_divine_ray.Daemon.Ring
use x_divine_ray.Daemon.Ring.{Ring}

pub record Sample : Type 0 where
  pub at : ℤ
  pub uplink : ℤ
  pub downlink : ℤ
  pub uplink_rate : ℤ
  pub downlink_rate : ℤ

abbrev pub no_sample : Sample
no_sample = record {
  at = pos 0;
  uplink = pos 0;
  downlink = pos 0;
  uplink_rate = pos 0;
  downlink_rate = pos 0;
}

abbrev pub History : Type 0
History = Ring Sample

-- How many samples a history of the size asked for holds.
abbrev pub capacity : ℤ → ℕ
capacity (pos zero) = 180
capacity (pos (suc n)) = suc n
capacity (negsuc n) = 180

unfoldable pub new_history : ℤ → History
new_history size = Ring.new no_sample (capacity size)

unfoldable pub add : History → Sample → History
add h s = Ring.add h s

unfoldable pub samples : History → List Sample
samples h = Ring.ordered h

unfoldable pub reset : History → History
reset h = record { slots = map (λ s. no_sample) h.slots; next = 0; full = false }

-- if a > b { b = a }
abbrev pub raise : ℤ → ℤ → ℤ
raise a b = if lt b a then a else b

abbrev pub peak_over : List Sample → ℤ × ℤ → ℤ × ℤ
peak_over [] m = m
peak_over (s ∷ ss) (up, down) = peak_over ss (raise s.uplink_rate up, raise s.downlink_rate down)

-- Over every slot, in the order of the array.
unfoldable pub peak : History → ℤ × ℤ
peak h = peak_over h.slots (pos 0, pos 0)

unfoldable pub add_each : History → List Sample → History
add_each h [] = h
add_each h (s ∷ ss) = add_each (add h s) ss
