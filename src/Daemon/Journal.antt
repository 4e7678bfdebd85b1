-- ===== src/Daemon/Journal.antt =====
-- The error journal of the log (internal/daemon/logring.go): `fileError` and what reads it. A
-- failure that repeats the newest one is folded into it.
pub mod Newest
pub mod Runs
use x_divine_ray.Prelude.{
  Bool, List, Option, Text, [], false, get_elem?, if◌then◌else◌, keep_if, last_n, length, none, not,
  replicate, set, some, suc, text_eq, zero, ℕ, ◌%◌, ◌&&◌, ◌+◌, ◌-◌, ◌==◌, ◌∷◌,
}
use x_divine_ray.Model.Int.{ℤ, pos, negsuc}
use x_divine_ray.Model.Log.{ErrorEntry, LastError}
use x_divine_ray.Daemon.Ring
use x_divine_ray.Daemon.Ring.{Ring}

-- What is filed: the arguments of `fileError`, with the time it reads from the clock.
pub record Failure : Type 0 where
  pub now : Text
  pub source : Text
  pub step : Text
  pub message : Text
  pub detail : Text
  pub hint : Text
  pub code : Text
  pub args : List Text
  pub hint_code : Text
  pub hint_args : List Text

pub record Journal : Type 0 where
  pub errors : Ring ErrorEntry
  pub last_error : Option LastError

abbrev pub no_entry : ErrorEntry
no_entry = record {
  time = [];
  source = [];
  step = [];
  message = [];
  detail = [];
  hint = [];
  code = [];
  args = [];
  hint_code = [];
  hint_args = [];
  repeats = 0;
}

abbrev pub new_journal : ℕ → Journal
new_journal size = record { errors = Ring.new no_entry size; last_error = none }

-- strings.TrimRight(s, "\n")
unfoldable pub trim_newlines : Text → Text
trim_newlines [] = []
trim_newlines (c ∷ s) =
    let rest : Text = trim_newlines s in if text_eq rest [] && c == 10 then [] else c ∷ rest

abbrev pub used : ErrorEntry → Bool
used e = not (text_eq e.time [])

abbrev slot : ℕ → Option ErrorEntry → Option (ℕ × ErrorEntry)
slot i none = none
slot i (some e) = if used e then some (i, e) else none

-- The slot before the next one, going round; with its entry, if it has been written.
unfoldable pub newest_error : Ring ErrorEntry → Option (ℕ × ErrorEntry)
newest_error r =
    if r.next == 0 && not r.full
    then none
    else (let i : ℕ = (r.next + length r.slots - 1) % length r.slots in
        slot i (get_elem? r.slots i))

unfoldable pub same_failure : ErrorEntry → Failure → Bool
same_failure e f = text_eq e.source f.source && text_eq e.step f.step && text_eq e.message f.message

unfoldable pub fresh_entry : Failure → ErrorEntry
fresh_entry f = record {
  time = f.now;
  source = f.source;
  step = f.step;
  message = f.message;
  detail = trim_newlines f.detail;
  hint = f.hint;
  code = f.code;
  args = f.args;
  hint_code = f.hint_code;
  hint_args = f.hint_args;
  repeats = 0;
}

-- A repeat brings its time, and its detail unless that is empty.
unfoldable pub repeated_entry : ErrorEntry → Failure → ErrorEntry
repeated_entry e f = record e {
  repeats = e.repeats + 1;
  time = f.now;
  detail = if text_eq f.detail [] then e.detail else trim_newlines f.detail;
}

abbrev banner_of : Text → Text → ErrorEntry → LastError
banner_of step message e = record {
  time = e.time;
  step = step;
  message = message;
  hint = e.hint;
  code = e.code;
  args = e.args;
  hint_code = e.hint_code;
  hint_args = e.hint_args;
}

abbrev pub file_fresh : Failure → Journal → Journal × ℕ
file_fresh f j = (
  record {
    errors = Ring.add j.errors (fresh_entry f);
    last_error = some (banner_of f.step f.message (fresh_entry f));
  },
  1,
)

abbrev pub file_onto : Failure → Journal → Option (ℕ × ErrorEntry) → Journal × ℕ
file_onto f j none = file_fresh f j
file_onto f j (some (i, e)) =
    if same_failure e f
    then (
      record {
        errors = record j.errors { slots = set j.errors.slots i (repeated_entry e f) };
        last_error = some (banner_of f.step f.message (repeated_entry e f));
      },
      e.repeats + 1 + 1,
    )
    else file_fresh f j

-- The journal afterwards, and how often this failure has now been seen in a row.
unfoldable pub file_error : Failure → Journal → Journal × ℕ
file_error f j = file_onto f j (newest_error j.errors)

-- `limit` entries at most, where it is positive.
abbrev pub cap {ℓ} : {A : Type ℓ} → ℤ → List A → List A
cap (pos zero) xs = xs
cap (pos (suc n)) xs = last_n (suc n) xs
cap (negsuc n) xs = xs

unfoldable pub errors : ℤ → Journal → List ErrorEntry
errors limit j = cap limit (keep_if used (Ring.ordered j.errors))

abbrev count_used : List ErrorEntry → ℕ
count_used [] = 0
count_used (e ∷ es) = let rest : ℕ = count_used es in if used e then rest + 1 else rest

-- r.ClearErrors(), and how many entries that removed.
unfoldable pub clear_errors : Journal → Journal × ℕ
clear_errors j = (
  record {
    errors = record { slots = replicate (length j.errors.slots) no_entry; next = 0; full = false };
    last_error = none;
  },
  count_used j.errors.slots,
)
