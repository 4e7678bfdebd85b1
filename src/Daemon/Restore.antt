-- ===== src/Daemon/Restore.antt =====
-- The connection at startup (internal/daemon/engine.go): `wouldRestore`, `restoreDelay` and
-- `restoreLoop`. What the loop's three callbacks answer in one turn is a `Round`, and a run of the
-- loop is a list of rounds: `none` says that it has not ended with them.
use x_divine_ray.Prelude.{
  Bool, List, Option, [], all_of, ap, arith, false, if◌then◌else◌, leb, length, none, not, refl,
  some, suc, text_eq, true, zero, ℕ, ◌&&◌, ◌*◌, ◌++◌, ◌+◌, ◌-◌, ◌∙◌, ◌∷◌, ◌≡◌, ◌≤◌, sym,
}
use Prim.Native.Nat.{min, ◌^◌}
use native.Mathlib.Nat.{pow-zero, two-pow-succ, mul_assoc}
use x_divine_ray.Model.Settings.{Settings}

unfoldable pub would_restore : Settings → Bool
would_restore s = s.auto_connect && not (text_eq s.active [])

-- time.Second, in the nanoseconds that `time.Duration` counts.
abbrev pub second : ℕ
second = 1000000000

-- The loop of `restoreDelay`, with the number of turns that are left.
abbrev pub delay_from : ℕ → ℕ → ℕ
delay_from d zero = d
delay_from d (suc k) =
    let rest : ℕ = delay_from (d * 2) k in if leb (300 * second) (d * 2) then 300 * second else rest

unfoldable pub restore_delay : ℕ → ℕ
restore_delay attempt = delay_from (10 * second) (attempt - 1)

-- done(), attempt() without an error, done() again, and wait().
pub record Round : Type 0 where
  pub done_before : Bool
  pub connects : Bool
  pub done_after : Bool
  pub waits : Bool

-- The rounds from the nth on; the result is how many attempts were made.
unfoldable pub restore_loop : ℕ → List Round → Option ℕ
restore_loop n [] = none
restore_loop n (r ∷ rs) =
    let rest : Option ℕ = restore_loop (n + 1) rs in
    if r.done_before
    then some (n - 1)
    else if r.connects
    then some n
    else if r.done_after
    then some n
    else if not r.waits
    then some n
    else rest

-- Nothing in the round ends the loop.
abbrev pub goes_on : Round → Bool
goes_on r = not r.done_before && not r.connects && not r.done_after && r.waits

restore_loop-from :
    (n : ℕ) (before : List Round) (r : Round) (after : List Round)
    → all_of goes_on before ≡ true
    → goes_on r ≡ false
    → restore_loop (suc n) (before ++ r ∷ after)
      ≡ some (if r.done_before then n + length before else suc (n + length before))
unfolding restore_loop
restore_loop-from n [] r after h e = ground arith
restore_loop-from n (b ∷ before) r after h e =
    ground (arith, restore_loop-from (suc n) before r after)

restore_loop-on : (n : ℕ) (rs : List Round) → all_of goes_on rs ≡ true → restore_loop n rs ≡ none
unfolding restore_loop
restore_loop-on n [] h = refl
restore_loop-on n (r ∷ rs) h = ground (arith, restore_loop-on (n + 1) rs)

-- The loop goes on for as long as no round ends it. It ends in the first one that does, whatever may
-- come after: with the number of the rounds up to it, which leaves that one out if something else had
-- taken over before its attempt.
pub restore_loop_lem :
    (before : List Round) (r : Round) (after : List Round)
    → all_of goes_on before ≡ true
    → goes_on r ≡ false
    → (restore_loop 1 before ≡ none)
      × (restore_loop 1 (before ++ r ∷ after)
          ≡ some (if r.done_before then length before else length before + 1))
restore_loop_lem before r after h e =
    (restore_loop-on 1 before h, restore_loop-from 0 before r after h e ∙ ground arith)

-- Ten seconds doubled k times.
abbrev pub doubled : ℕ → ℕ → ℕ
doubled zero d = d
doubled (suc k) d = doubled k (d * 2)

doubled-le : (k d : ℕ) → d ≤ doubled k d
doubled-le zero d = omega arith
doubled-le (suc k) d = omega (arith, doubled-le k (d * 2))

delay_from-min : (k d : ℕ) → d ≤ 300 * second → delay_from d k ≡ min (300 * second) (doubled k d)
delay_from-min zero d h = omega arith
delay_from-min (suc k) d h = ground (arith, delay_from-min k (d * 2), doubled-le k (d * 2))

doubled-pow : (k d : ℕ) → doubled k d ≡ d * 2 ^ k
doubled-pow zero d = rw (pow-zero 2) (omega arith)
doubled-pow (suc k) d =
    doubled-pow k (d * 2) ∙ mul_assoc d 2 (2 ^ k) ∙ ap (◌*◌ d) (omega arith ∙ sym (two-pow-succ k))

-- The wait after attempt k + 1 is ten seconds times two to the k, but five minutes at most.
pub restore_delay_lem : (k : ℕ) → restore_delay (suc k) ≡ min (300 * second) (10 * second * 2 ^ k)
unfolding restore_delay
restore_delay_lem k =
    ap (delay_from (10 * second)) (omega arith)
    ∙ delay_from-min k (10 * second) (omega arith)
    ∙ ap (min (300 * second)) (doubled-pow k (10 * second))
