-- ===== src/Model/Int.antt =====
-- Go's `int` where a value may be negative: ports, intervals and counts read from a file.
use x_divine_ray.Prelude.{ℕ, Bool, true, false, ltb, leb}

-- `negsuc n` is -(n + 1).
pub data ℤ : Type 0 where
  pos : ℕ → ℤ
  negsuc : ℕ → ℤ

-- a < b
abbrev pub lt : ℤ → ℤ → Bool
lt (pos a) (pos b) = ltb a b
lt (pos a) (negsuc b) = false
lt (negsuc a) (pos b) = true
lt (negsuc a) (negsuc b) = ltb b a

-- a <= b
abbrev pub le : ℤ → ℤ → Bool
le (pos a) (pos b) = leb a b
le (pos a) (negsuc b) = false
le (negsuc a) (pos b) = true
le (negsuc a) (negsuc b) = leb b a
