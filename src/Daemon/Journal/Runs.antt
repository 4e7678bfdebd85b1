-- ===== src/Daemon/Journal/Runs.antt =====
-- The journal is the list of the runs of equal failures, of which the last ones are kept.
use x_divine_ray.Prelude.{
  Bool, List, Option, [], ap, arith, drop, if◌then◌else◌, inl, inr, last_n, length, length-set, not,
  refl, set, suc, text_eq, zero, ℕ, ◌++◌, ◌-◌, ◌<◌, ◌∙◌, ◌∷◌, ◌≡◌, ◌≤◌, all_of, all_of-drop,
  append_assoc, if_elim, keep_if, length-replicate, sym, true,
}
use x_divine_ray.Model.Int.{ℤ}
use x_divine_ray.Model.Log.{ErrorEntry}
use x_divine_ray.Daemon.Ring
use x_divine_ray.Daemon.Ring.{Ring, ordered}
use x_divine_ray.Daemon.Ring.Window.{
  IsRing, add-IsRing, ordered-add, length-ordered, last_n-drop, last_n_all, le-or-lt,
}
use x_divine_ray.Daemon.Journal.{
  Failure, Journal, new_journal, used, newest_error, same_failure, fresh_entry, repeated_entry,
  file_onto, file_error, cap, errors, no_entry,
}
use x_divine_ray.Daemon.Journal.Newest.{Newest, empty, at, newest_error-Newest}

-- A failure goes into the last run if it is the same, and begins a run otherwise.
abbrev pub extend : Failure → ErrorEntry → List ErrorEntry
extend f e = if same_failure e f then repeated_entry e f ∷ [] else e ∷ fresh_entry f ∷ []

unfoldable pub file_in : Failure → List ErrorEntry → List ErrorEntry
file_in f [] = fresh_entry f ∷ []
file_in f (e ∷ []) = extend f e
file_in f (e ∷ e' ∷ es) = e ∷ file_in f (e' ∷ es)

unfoldable pub runs_onto : List ErrorEntry → List Failure → List ErrorEntry
runs_onto xs [] = xs
runs_onto xs (f ∷ fs) = runs_onto (file_in f xs) fs

unfoldable pub file_each : Journal → List Failure → Journal
file_each j [] = j
file_each j (f ∷ fs) = file_each (file_error f j).0 fs

abbrev pub timed : Failure → Bool
timed f = not (text_eq f.now [])

file_in-append :
    (f : Failure) (init : List ErrorEntry) (e : ErrorEntry)
    → file_in f (init ++ e ∷ []) ≡ init ++ extend f e
unfolding file_in
file_in-append f [] e = refl
file_in-append f (x ∷ []) e = refl
file_in-append f (x ∷ y ∷ init) e = ap (◌∷◌ x) (file_in-append f (y ∷ init) e)

length-file_in : (f : Failure) (xs : List ErrorEntry) → length xs ≤ length (file_in f xs)
unfolding file_in
length-file_in f [] = omega arith
length-file_in f (e ∷ []) = ground arith
length-file_in f (e ∷ e' ∷ es) = omega (arith, length-file_in f (e' ∷ es))

file_in-drop :
    (f : Failure) (d : ℕ) (xs : List ErrorEntry)
    → d < length xs
    → file_in f (drop d xs) ≡ drop d (file_in f xs)
unfolding file_in
file_in-drop f zero xs h = refl
file_in-drop f (suc d) [] h = elim h [ ]
file_in-drop f (suc d) (e ∷ []) h = absurd (omega arith)
file_in-drop f (suc d) (e ∷ e' ∷ es) h = file_in-drop f d (e' ∷ es) (omega arith)

-- What is kept of the runs is enough to go on.
file_in-last_n :
    (f : Failure) (n : ℕ) (xs : List ErrorEntry)
    → 0 < n
    → last_n n (file_in f (last_n n xs)) ≡ last_n n (file_in f xs)
file_in-last_n f n xs p = elim (le-or-lt n (length xs)) [
  | inl h ↦
      ap (last_n n) (file_in-drop f (length xs - n) xs (omega arith))
      ∙ last_n-drop (length xs - n) n (file_in f xs) (omega (arith, length-file_in f xs))
  | inr h ↦ ap (λ ys. last_n n (file_in f ys)) (last_n_all n xs (omega arith))
]

set-IsRing :
    (size : ℕ) (r : Ring ErrorEntry) (i : ℕ) (y : ErrorEntry)
    → IsRing size r
    → IsRing size (record r { slots = set r.slots i y })
set-IsRing size r i y h = record { sized = length-set r.slots i y ∙ h.sized; inside = h.inside }

file_onto-ordered :
    (size : ℕ) (f : Failure) (j : Journal) (o : Option (ℕ × ErrorEntry))
    → IsRing size j.errors
    → Newest j.errors o
    → IsRing size (file_onto f j o).0.errors
      × (ordered (file_onto f j o).0.errors ≡ last_n size (file_in f (ordered j.errors)))
unfolding file_in
file_onto-ordered size f j _ h (empty e) = (
  add-IsRing size j.errors (fresh_entry f) h,
  ordered-add size j.errors (fresh_entry f) h
      ∙ ap (λ xs. last_n size (xs ++ fresh_entry f ∷ [])) e
      ∙ sym (ap (λ xs. last_n size (file_in f xs)) e),
)
file_onto-ordered size f j _ h (at i e init o w) =
    if_elim P (same_failure e f) _ _
      (λ same. (
        set-IsRing size j.errors i (repeated_entry e f) h,
        w (repeated_entry e f)
            ∙ sym (
                last_n_all size (init ++ repeated_entry e f ∷ []) (
                  omega (
                    arith,
                    length-ordered size _ (set-IsRing size j.errors i (repeated_entry e f) h),
                    ap length (w (repeated_entry e f)),
                  )))
            ∙ ap (last_n size) (sym (filed ∙ rw same refl)),
      ))
      (λ other. (
        add-IsRing size j.errors (fresh_entry f) h,
        ordered-add size j.errors (fresh_entry f) h
            ∙ ap (λ xs. last_n size (xs ++ fresh_entry f ∷ [])) o
            ∙ ap (last_n size) (append_assoc init (e ∷ []) (fresh_entry f ∷ []))
            ∙ ap (last_n size) (sym (filed ∙ rw other refl)),
      ))
  where
    P : Journal × ℕ → Type 0
    P r = IsRing size r.0.errors × (ordered r.0.errors ≡ last_n size (file_in f (ordered j.errors)))

    filed : file_in f (ordered j.errors) ≡ init ++ extend f e
    filed = ap (file_in f) o ∙ file_in-append f init e

pub record IsJournal (size : ℕ) (j : Journal) : Type 0 where
  pub ring : IsRing size j.errors
  pub all_used : all_of used (ordered j.errors) ≡ true

file_in-used :
    (f : Failure) (xs : List ErrorEntry)
    → timed f ≡ true
    → all_of used xs ≡ true
    → all_of used (file_in f xs) ≡ true
unfolding file_in fresh_entry repeated_entry
file_in-used f [] t h = ground arith
file_in-used f (e ∷ []) t h = ground arith
file_in-used f (e ∷ e' ∷ es) t h = ground (arith, file_in-used f (e' ∷ es))

file_error-ordered :
    (size : ℕ) (f : Failure) (j : Journal)
    → IsJournal size j
    → timed f ≡ true
    → IsJournal size (file_error f j).0
      × (ordered (file_error f j).0.errors ≡ last_n size (file_in f (ordered j.errors)))
unfolding file_error
file_error-ordered size f j h t =
    let (r, o) =
      file_onto-ordered size f j (newest_error j.errors) h.ring
        (newest_error-Newest size j.errors h.ring h.all_used) in
    (
      record {
        ring = r;
        all_used =
            ap (all_of used) o
            ∙ all_of-drop used _ (file_in f (ordered j.errors)) (file_in-used f _ t h.all_used);
      },
      o,
    )

file_each-ordered :
    (size : ℕ) (fs : List Failure) (j : Journal) (zs : List ErrorEntry)
    → 0 < size
    → IsJournal size j
    → all_of timed fs ≡ true
    → ordered j.errors ≡ last_n size zs
    → IsJournal size (file_each j fs)
      × (ordered (file_each j fs).errors ≡ last_n size (runs_onto zs fs))
unfolding file_each runs_onto
file_each-ordered size [] j zs p h t e = (h, e)
file_each-ordered size (f ∷ fs) j zs p h t e =
    let (k, o) = file_error-ordered size f j h (ground arith) in
    file_each-ordered size fs (file_error f j).0 (file_in f zs) p k (ground arith)
      (o ∙ ap (λ xs. last_n size (file_in f xs)) e ∙ file_in-last_n f size zs p)

keep_all : (p : ErrorEntry → Bool) (xs : List ErrorEntry) → all_of p xs ≡ true → keep_if p xs ≡ xs
keep_all p [] h = refl
keep_all p (x ∷ xs) h = ground (arith, keep_all p xs)

new_journal-IsJournal : (size : ℕ) → 0 < size → IsJournal size (new_journal size)
unfolding Ring.new ordered
new_journal-IsJournal size p = record {
  ring = record { sized = length-replicate size no_entry; inside = p };
  all_used = refl;
}

-- After any failures, each filed with a time, a journal of n > 0 entries reads as the last n runs of
-- equal failures (equal in component, stage and message), oldest first, and of them as many of the
-- last as were asked for: each run with its first failure's hint and codes, its last time, its last
-- detail that was not empty, and the number of its repeats.
pub errors-runs :
    (size : ℕ) (limit : ℤ) (fs : List Failure)
    → 0 < size
    → all_of timed fs ≡ true
    → errors limit (file_each (new_journal size) fs) ≡ cap limit (last_n size (runs_onto [] fs))
unfolding errors Ring.new ordered
errors-runs size limit fs p t =
    let (h, e) =
      file_each-ordered size fs (new_journal size) [] p (new_journal-IsJournal size p) t
        (sym (last_n_all size [] (omega arith))) in
    ap (cap limit) (keep_all used _ h.all_used ∙ e)
