-- ===== src/Daemon/Engine/Connect.antt =====
-- `Connect`, its fallback, and the operations that go through them.
use x_divine_ray.Prelude.{
  Bool, List, Option, Text, [], false, if◌then◌else◌, none, not, some, text_eq, true, ◌&&◌, ◌∷◌,
}
use x_divine_ray.Model.Strategy.{Group, UrlParser}
use x_divine_ray.Model.Strategy
use x_divine_ray.Model.Profile
use x_divine_ray.Model.Profile.{Profile}
use x_divine_ray.Model.Settings.{Settings, TargetKind}
use x_divine_ray.Ucicfg.Data.{Data}
use x_divine_ray.Ucicfg.Data
use x_divine_ray.Daemon.Engine.{
  Engine, World, Attempt, Torn, Code, config_read, config_nothing_selected, config_no_target,
  config_group_invalid, config_group_empty, config_profile_invalid, Run, on_engine,
}
use x_divine_ray.Daemon.Engine.Start.{start_locked, teardown}

-- What `Connect` was asked for, resolved against the file.
pub data Target : Type 0 where
  to_profile : Profile → Target
  to_group : Group → List Profile → Target

abbrev pub target_profile : Target → Option Profile
target_profile (to_profile p) = some p
target_profile (to_group g ms) = none

abbrev pub target_group : Target → Option Group
target_group (to_profile p) = none
target_group (to_group g ms) = some g

abbrev pub target_members : Target → List Profile
target_members (to_profile p) = []
target_members (to_group g ms) = ms

abbrev pub target_kind : Target → TargetKind
target_kind (to_profile p) = TargetKind.profile
target_kind (to_group g ms) = TargetKind.group

pub data Resolved : Type 0 where
  found : Target → Resolved
  refused : Code → Resolved

-- e.activeTargetLocked(): the id of what is connected, or "".
abbrev pub id_of : Option Group → Option Profile → Text
id_of (some g) p = g.id
id_of none (some p) = p.id
id_of none none = []

unfoldable pub active_target : Engine → Text
active_target e = if e.connected then id_of e.group e.profile else []

unfoldable pub should_fall_back : Text → Text → Bool
should_fall_back was attempted = if text_eq was [] then false else not (text_eq was attempted)

abbrev pub choose_id : Text → Data → Text
choose_id [] d = d.settings.active
choose_id (c ∷ s) d = c ∷ s

-- The outside code that the target's checks call.
pub record Checks : Type 0 where
  pub is_ip : Text → Bool
  pub parse_url : UrlParser

abbrev pub group_target : Group → List Profile → Resolved
group_target g [] = refused config_group_empty
group_target g (p ∷ ps) = found (to_group g (p ∷ ps))

-- A group goes before a profile of the same id.
abbrev pub resolve_target : Checks → Data → Option Group → Option Profile → Resolved
resolve_target k d (some g) p = elim (Strategy.validate k.parse_url g) [
  | none ↦ group_target g (Data.group_members d g)
  | some e ↦ refused config_group_invalid
]
resolve_target k d none (some p) = elim (Profile.validate k.is_ip p) [
  | none ↦ found (to_profile p)
  | some e ↦ refused config_profile_invalid
]
resolve_target k d none none = refused config_no_target

unfoldable pub resolve : Checks → Data → Text → Resolved
resolve k d id =
    if text_eq id []
    then refused config_nothing_selected
    else resolve_target k d (Data.group d id) (Data.profile d id)

-- The state that a connection leaves: the handles of `start_locked`, and what it is connected to.
abbrev pub connected_to : Target → Engine → Engine
connected_to t e = record e {
  profile = target_profile t;
  group = target_group t;
  members = target_members t;
  connected = true;
  stats_on = true;
}

abbrev pub save_active : Attempt → Text → TargetKind → Data → Data
save_active a id kind d =
    if a.active_loads && a.active_saves
    then record d {
      settings = record d.settings { active = id; active_kind = kind; enabled = true };
    }
    else d

-- The state in which `startLocked` begins: everything torn down, the settings and the network anew.
abbrev pub begin : Settings → Attempt → Torn → World → World
begin s a t w = on_engine (λ e. record e { settings = s; env = a.env }) (teardown t w)

abbrev pub Pass : Type 0
Pass = (Option Code × World) × Bool

-- The outcome of `startLocked`, and whether the pass is to be made again.
abbrev pub finish_pass : Attempt → Text → Target → Option Code × World → Pass
finish_pass a id t (none, w) = (
  (
    none,
    record w { engine = connected_to t w.engine; disk = save_active a id (target_kind t) w.disk },
  ),
  false,
)
finish_pass a id t (some c, w) =
    ((some c, on_engine (λ e. record e { pin_accepted = false }) w), w.engine.pin_accepted)

abbrev pub pass_to : Checks → Text → Attempt → Torn → Resolved → World → Pass
pass_to k id a t (refused c) w = ((some c, w), false)
pass_to k id a t (found x) w =
    finish_pass a id x
      (start_locked k.is_ip (target_profile x) w.disk.settings a (begin w.disk.settings a t w))

-- One pass of `connectLockedOnce`, and whether a changed certificate was accepted in it.
unfoldable pub connect_pass : Checks → Text → Attempt → Torn → World → Pass
connect_pass k id a t w =
    if a.loads
    then pass_to k (choose_id id w.disk) a t (resolve k w.disk (choose_id id w.disk)) w
    else ((some config_read, w), false)

-- The answers to one `connectLocked`: its pass, and the one more pass that a new pin allows.
pub record Answers : Type 0 where
  pub first : Attempt
  pub first_torn : Torn
  pub again : Attempt
  pub again_torn : Torn

-- In the second pass `retry` is false: its failure stands. A pass that is made again is made for
-- the id that the first one had chosen.
unfoldable pub connect_locked : Checks → Text → Answers → Run
connect_locked k id x w =
    let (r, retry) = connect_pass k id x.first x.first_torn w in
    let id' : Text = choose_id id w.disk in
    if retry then (connect_pass k id' x.again x.again_torn r.1).0 else r

abbrev pub record_error : Code → World → World
record_error c = on_engine (λ e. record e { last_error = some c; log = c ∷ e.log })

-- What one `Connect` gets: the answers for the target, for the fallback, and two teardowns.
pub record Oracle : Type 0 where
  pub target : Answers
  pub target_torn : Torn
  pub back : Answers
  pub back_torn : Torn

abbrev pub after_fall_back : Torn → Option Code × World → World
after_fall_back t (none, w) = w
after_fall_back t (some c, w) = teardown t (record_error c w)

unfoldable pub fall_back : Checks → Text → Text → Oracle → World → World
fall_back k was attempted o w =
    if should_fall_back was attempted
    then after_fall_back o.back_torn (connect_locked k was o.back w)
    else w

abbrev pub after_connect : Checks → Text → Text → Oracle → Option Code × World → Option Code × World
after_connect k was id o (none, w) = (none, on_engine (λ e. record e { last_error = none }) w)
after_connect k was id o (some c, w) =
    (some c, fall_back k was id o (teardown o.target_torn (record_error c w)))

-- e.Connect(id), without the clock synchronisation at its two ends.
unfoldable pub connect : Checks → Text → Oracle → Run
connect k id o w = after_connect k (active_target w.engine) id o (connect_locked k id o.target w)
