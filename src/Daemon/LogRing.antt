-- ===== src/Daemon/LogRing.antt =====
-- The message stream of the log (internal/daemon/logring.go): `emit` and `Entries`. The copies that
-- go to subscribers and to the system log are not part of it.
use x_divine_ray.Prelude.{
  Bool, List, Text, [], all_of, all_of-drop, ap, arith, false, keep_if, last_n, not, refl, text_eq,
  true, ℕ, ◌&&◌, ◌<◌, ◌||◌, ◌∙◌, ◌∷◌, ◌≡◌,
}
use x_divine_ray.Model.Int.{ℤ}
use x_divine_ray.Model.Log.{Level, LogEntry, at_least}
use x_divine_ray.Daemon.Ring
use x_divine_ray.Daemon.Ring.{Ring}
use x_divine_ray.Daemon.Ring.Window.{ordered_window}
use x_divine_ray.Daemon.Journal.{cap}

abbrev pub no_line : LogEntry
no_line = record { time = []; level = Level.other []; source = []; step = []; message = [] }

unfoldable pub emit : Text → Level → Text → Text → Text → Ring LogEntry → Ring LogEntry
emit now level source step message r =
    Ring.add r
      (record { time = now; level = level; source = source; step = step; message = message })

-- The zero values of the fields select everything.
pub record Query : Type 0 where
  pub min_level : Level
  pub source : Text
  pub step : Text
  pub limit : ℤ

abbrev is_unset : Level → Bool
is_unset (Level.other []) = true
is_unset _ = false

-- The conditions under which the loop of `Entries` does not skip an entry that has a time.
abbrev pub matches : Query → LogEntry → Bool
matches q e =
    (is_unset q.min_level || at_least e.level q.min_level)
    && (text_eq q.source [] || text_eq e.source q.source)
    && (text_eq q.step [] || text_eq e.step q.step)

abbrev pub written : LogEntry → Bool
written e = not (text_eq e.time [])

unfoldable pub entries : Query → Ring LogEntry → List LogEntry
entries q r = cap q.limit (keep_if (λ e. written e && matches q e) (Ring.ordered r))

-- Each entry of the list, emitted in turn.
unfoldable pub emit_each : Ring LogEntry → List LogEntry → Ring LogEntry
emit_each r [] = r
emit_each r (e ∷ es) = emit_each (emit e.time e.level e.source e.step e.message r) es

emit_each-add_all : (es : List LogEntry) (r : Ring LogEntry) → emit_each r es ≡ Ring.add_all r es
unfolding emit_each emit Ring.add_all
emit_each-add_all [] r = refl
emit_each-add_all (e ∷ es) r = emit_each-add_all es (Ring.add r e)

keep_written :
    (q : Query) (es : List LogEntry)
    → all_of written es ≡ true
    → keep_if (λ e. written e && matches q e) es ≡ keep_if (matches q) es
keep_written q [] h = refl
keep_written q (e ∷ es) h = ground (arith, keep_written q es)

-- After any entries, each emitted with a time, a query on a log of n > 0 entries returns those of the
-- last n that have the severity, the component and the stage asked for, oldest first, and of them as
-- many of the last as were asked for.
pub entries-emit_each :
    (q : Query) (size : ℕ) (es : List LogEntry)
    → 0 < size
    → all_of written es ≡ true
    → entries q (emit_each (Ring.new no_line size) es)
      ≡ cap q.limit (keep_if (matches q) (last_n size es))
unfolding entries
entries-emit_each q size es p h =
    ap (λ xs. cap q.limit (keep_if (λ e. written e && matches q e) xs))
      (ap Ring.ordered (emit_each-add_all es _) ∙ ordered_window no_line size es p)
    ∙ ap (cap q.limit) (keep_written q (last_n size es) (all_of-drop written _ es h))
