-- ===== src/Daemon/Ring.antt =====
-- A fixed array written round and round. `History.Add` (internal/daemon/traffic.go), the two rings
-- of `LogRing` (internal/daemon/logring.go) and `Process.recordTail` (internal/proc/proc.go) write
-- their arrays in this one way, and read them back oldest first.
pub mod Window
use x_divine_ray.Prelude.{
  Bool, List, [], drop, false, if◌then◌else◌, length, replicate, set, take, true, ℕ, ◌%◌, ◌++◌, ◌+◌,
  ◌==◌, ◌∷◌,
}

pub record Ring {ℓ} (A : Type ℓ) : Type ℓ where
  pub slots : List A
  pub next : ℕ
  pub full : Bool

module _ {ℓ} {A : Type ℓ} where
  -- make([]A, size)
  unfoldable pub new : A → ℕ → Ring A
  new zero_value size = record { slots = replicate size zero_value; next = 0; full = false }

  -- A write, which marks the ring as full when it comes round.
  unfoldable pub add : Ring A → A → Ring A
  add r x =
      let next' : ℕ = (r.next + 1) % length r.slots in
      record {
        slots = set r.slots r.next x;
        next = next';
        full = if next' == 0 then true else r.full;
      }

  -- Oldest first: `append(out, slots[next:]...)`, then `slots[:next]`, if the ring is full.
  unfoldable pub ordered : Ring A → List A
  ordered r = if r.full then drop r.next r.slots ++ take r.next r.slots else take r.next r.slots

  unfoldable pub add_all : Ring A → List A → Ring A
  add_all r [] = r
  add_all r (x ∷ xs) = add_all (add r x) xs
