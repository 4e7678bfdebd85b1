-- ===== src/Daemon/Clock.antt =====
-- The clock's synchronisation (internal/daemon/timesync.go): agreedTime, networkTime and SyncClock. A
-- time is a number of nanoseconds; what each of the hosts answers is data, and so is whether the
-- system lets its clock be set.
pub mod Agreed
pub mod Network
use x_divine_ray.Prelude.{
  Bool, List, Option, [], if◌then◌else◌, leb, ltb, none, not, some, ℕ, ◌++◌, ◌+◌, ◌-◌, ◌∷◌,
}

abbrev pub clock_floor : ℕ
clock_floor = 2000000000

abbrev pub clock_agreement : ℕ
clock_agreement = 10000000000

-- sort.Slice by the order of times.
unfoldable pub insert : ℕ → List ℕ → List ℕ
insert x [] = x ∷ []
insert x (y ∷ ys) = if leb x y then x ∷ (y ∷ ys) else y ∷ insert x ys

unfoldable pub sort : List ℕ → List ℕ
sort [] = []
sort (x ∷ xs) = insert x (sort xs)

-- The loop of agreedTime, from the time `a` on.
unfoldable pub first_close : ℕ → List ℕ → Option ℕ
first_close a [] = none
first_close a (b ∷ bs) =
    let rest : Option ℕ = first_close b bs in if leb (b - a) clock_agreement then some b else rest

abbrev pub close_of : List ℕ → Option ℕ
close_of [] = none
close_of (a ∷ as') = first_close a as'

unfoldable pub agreed_time : List ℕ → Option ℕ
agreed_time seen = close_of (sort seen)

abbrev pub or_on : Option ℕ → Option ℕ → Option ℕ
or_on (some at) rest = some at
or_on none rest = rest

-- The loop over the hosts, with the times that were seen; a host that fails is passed over.
unfoldable pub ask_each : List ℕ → List (Option ℕ) → Option ℕ
ask_each seen [] = agreed_time seen
ask_each seen (none ∷ hosts) = ask_each seen hosts
ask_each seen (some t ∷ hosts) =
    or_on (agreed_time (seen ++ t ∷ [])) (ask_each (seen ++ t ∷ []) hosts)

unfoldable pub network_time : List (Option ℕ) → Option ℕ
network_time hosts = ask_each [] hosts

-- The distance between two times.
abbrev pub skew : ℕ → ℕ → ℕ
skew a b = (a - b) + (b - a)

abbrev pub set_to : ℕ → Bool → Option ℕ → ℕ
set_to before may_set none = before
set_to before may_set (some at) =
    if ltb (skew at before) clock_floor then before else if may_set then at else before

-- The clock after SyncClock.
unfoldable pub sync_clock : Bool → ℕ → List (Option ℕ) → Bool → ℕ
sync_clock wanted before hosts may_set =
    if not wanted then before else set_to before may_set (network_time hosts)

-- clockFloorDate, the first of June 2025.
abbrev clock_floor_date : ℕ
clock_floor_date = 1748736000000000000

abbrev clock_looks_unset : ℕ → Bool
clock_looks_unset now = ltb now clock_floor_date

-- The clock after SyncClockIfUnset.
abbrev pub sync_clock_if_unset : Bool → ℕ → List (Option ℕ) → Bool → ℕ
sync_clock_if_unset wanted now hosts may_set =
    if clock_looks_unset now then sync_clock wanted now hosts may_set else now
