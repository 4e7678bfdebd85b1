-- ===== src/Examples/Logs.antt =====
-- A journal of two entries, a log of two lines, and a connection that comes up at the second try.
use x_divine_ray.Prelude.{
  List, [], all_of, arith, codes, keep_if, last_n, refl, text_eq, true, ◌∷◌, ◌≡◌, false,
  if◌then◌else◌, length, none, some, suc, ◌*◌, ◌++◌, ◌+◌,
}
use x_divine_ray.Model.Int.{pos}
use x_divine_ray.Model.Log.{Level, LogEntry}
use Prim.Native.Nat.{min, ◌^◌}
use x_divine_ray.Daemon.Restore.{
  Round, restore_loop, restore_loop_lem, restore_delay, restore_delay_lem, second,
}
use x_divine_ray.Proc.{tail_size, is_written, recent_output, record_each, recent_output-record_each}
use x_divine_ray.Daemon.Ring
use x_divine_ray.Daemon.Journal.{Failure, new_journal, errors, cap}
use x_divine_ray.Daemon.Journal.Runs.{runs_onto, file_each, timed, errors-runs}
use x_divine_ray.Daemon.LogRing.{
  Query, no_line, entries, emit_each, matches, written, entries-emit_each,
}

abbrev refused : Failure
refused = record {
  now = codes "t1";
  source = codes "xray";
  step = codes "core";
  message = codes "refused";
  detail = [];
  hint = [];
  code = [];
  args = [];
  hint_code = [];
  hint_args = [];
}

abbrev lost : Failure
lost = record refused { message = codes "lost" }

abbrev failures : List Failure
failures = refused ∷ lost ∷ lost ∷ []

failures-timed : all_of timed failures ≡ true
unfolding codes text_eq
failures-timed = refl

errors-runs_example :
    errors (pos 1) (file_each (new_journal 2) failures)
    ≡ cap (pos 1) (last_n 2 (runs_onto [] failures))
errors-runs_example = errors-runs 2 (pos 1) failures (omega arith) failures-timed

abbrev warned : LogEntry
warned = record {
  time = codes "t1";
  level = Level.warn;
  source = codes "xwrt";
  step = [];
  message = codes "slow";
}

abbrev serious : Query
serious = record { min_level = Level.warn; source = []; step = []; limit = pos 5 }

warned_written : all_of written (warned ∷ []) ≡ true
unfolding codes text_eq
warned_written = refl

entries-emit_each_example :
    entries serious (emit_each (Ring.new no_line 2) (warned ∷ []))
    ≡ cap serious.limit (keep_if (matches serious) (last_n 2 (warned ∷ [])))
entries-emit_each_example = entries-emit_each serious 2 (warned ∷ []) (omega arith) warned_written

abbrev retry : Round
retry = record { done_before = false; connects = false; done_after = false; waits = true }

abbrev connects : Round
connects = record retry { connects = true }

restore_loop_lem_example :
    (restore_loop 1 (retry ∷ []) ≡ none)
    × (restore_loop 1 ((retry ∷ []) ++ connects ∷ [])
        ≡ some (if connects.done_before then length (retry ∷ []) else length (retry ∷ []) + 1))
restore_loop_lem_example = restore_loop_lem (retry ∷ []) connects [] refl refl

restore_delay_lem_example : restore_delay (suc 3) ≡ min (300 * second) (10 * second * 2 ^ 3)
restore_delay_lem_example = restore_delay_lem 3

recent_output-record_each_example :
    recent_output (pos 2) (record_each none (codes "a" ∷ codes " " ∷ codes "b" ∷ []))
    ≡ cap (pos 2) (last_n tail_size (keep_if is_written (codes "a" ∷ codes " " ∷ codes "b" ∷ [])))
recent_output-record_each_example =
    recent_output-record_each (pos 2) (codes "a" ∷ codes " " ∷ codes "b" ∷ [])
