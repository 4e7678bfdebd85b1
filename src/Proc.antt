-- ===== src/Proc.antt =====
-- The last lines that a supervised process wrote (internal/proc/proc.go): `recordTail` and
-- `RecentOutput`.
use x_divine_ray.Prelude.{
  Bool, List, Option, Text, [], arith, if◌then◌else◌, keep_if, none, not, refl, some, text_eq,
  text_eq_iff, true, ℕ, ◌∷◌, ◌≡◌, all_of, all_of-drop, ap, false, last_n, suc, sym, zero, ◌∙◌, drop,
  ◌-◌,
}
use x_divine_ray.Prelude.Trim.{trim, drop_space}
use x_divine_ray.Model.Int.{ℤ}
use x_divine_ray.Daemon.Ring
use x_divine_ray.Daemon.Ring.{Ring}
use x_divine_ray.Daemon.Ring.Window.{ordered_window}
use x_divine_ray.Daemon.Journal.{cap}

abbrev pub tail_size : ℕ
tail_size = 30

-- `p.tail`, which is nil until the first line; then a ring of lines.
abbrev pub Tail : Type 0
Tail = Option (Ring Text)

abbrev pub is_written : Text → Bool
is_written line = not (text_eq (trim line) [])

abbrev made : Tail → Ring Text
made none = Ring.new [] tail_size
made (some r) = r

unfoldable pub record_tail : Text → Tail → Tail
record_tail line tail = if is_written line then some (Ring.add (made tail) line) else tail

abbrev is_used : Text → Bool
is_used line = not (text_eq line [])

-- The n last lines, oldest first; all of them where n is not positive.
unfoldable pub recent_output : ℤ → Tail → List Text
recent_output n none = []
recent_output n (some r) = cap n (keep_if is_used (Ring.ordered r))

unfoldable pub record_each : Tail → List Text → Tail
record_each tail [] = tail
record_each tail (l ∷ ls) = record_each (record_tail l tail) ls

-- The ring that a tail stands for.
record_each-add_all :
    (ls : List Text) (tail : Tail)
    → made (record_each tail ls) ≡ Ring.add_all (made tail) (keep_if is_written ls)
unfolding record_each record_tail Ring.add_all
record_each-add_all [] tail = refl
record_each-add_all (l ∷ ls) tail = record_each-add_all ls (record_tail l tail) ∙ go (is_written l)
  where
    go :
        (b : Bool)
        → Ring.add_all
            (made (if b then some (Ring.add (made tail) l) else tail))
            (keep_if is_written ls)
          ≡ Ring.add_all
              (made tail)
              (if b then l ∷ keep_if is_written ls else keep_if is_written ls)
    go true = refl
    go false = refl

trim_empty : (l : Text) → is_written l ≡ true → is_used l ≡ true
unfolding trim drop_space text_eq
trim_empty [] h = cc
trim_empty (c ∷ l) h = ground (arith, text_eq_iff (c ∷ l) [])

keep_used : (ls : List Text) → all_of is_used ls ≡ true → keep_if is_used ls ≡ ls
keep_used [] h = refl
keep_used (l ∷ ls) h = ground (arith, keep_used ls)

written_used : (ls : List Text) → all_of is_used (keep_if is_written ls) ≡ true
written_used [] = refl
written_used (l ∷ ls) = ground (arith, written_used ls, trim_empty l)

cap-nil : (n : ℤ) → cap {A = Text} n [] ≡ []
cap-nil (ℤ.pos zero) = refl
cap-nil (ℤ.pos (suc n)) = let e : 0 - suc n ≡ 0 = omega arith in ap (λ d. drop {A = Text} d []) e
cap-nil (ℤ.negsuc n) = refl

recent_output-made :
    (n : ℤ) (tail : Tail)
    → recent_output n tail ≡ cap n (keep_if is_used (Ring.ordered (made tail)))
unfolding recent_output Ring.ordered Ring.new
recent_output-made n none = sym (cap-nil n)
recent_output-made n (some r) = refl

-- After any lines, the output that is kept is that of the last thirty lines that are not blank,
-- oldest first, and of them as many of the last as were asked for.
pub recent_output-record_each :
    (n : ℤ) (ls : List Text)
    → recent_output n (record_each none ls) ≡ cap n (last_n tail_size (keep_if is_written ls))
recent_output-record_each n ls =
    let e : Ring.ordered (made (record_each none ls)) ≡ last_n tail_size (keep_if is_written ls) =
      ap Ring.ordered (record_each-add_all ls none)
      ∙ ordered_window [] tail_size (keep_if is_written ls) (omega arith) in
    recent_output-made n (record_each none ls)
    ∙ ap (λ o. cap n (keep_if is_used o)) e
    ∙ ap (cap n) (keep_used _ (all_of-drop is_used _ (keep_if is_written ls) (written_used ls)))
