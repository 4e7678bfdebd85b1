-- ===== src/Examples/Models.antt =====
-- The data model on the sample servers and the default settings.
use x_divine_ray.Prelude.{[], none, ◌↔◌, ◌≡◌, refl, true, codes, ◌∷◌, ◌≢◌}
use x_divine_ray.Model.Strategy
use x_divine_ray.Model.Strategy.{Group, ProbeOk, group_validate_iff}
use x_divine_ray.Model.Mode.{PathsAgree, paths_agree}
use x_divine_ray.Model.Int.{pos}
use x_divine_ray.Model.Mode
use x_divine_ray.Model.Settings.{defaults, normalize}
use x_divine_ray.Model.Settings.Normal.{IsNormal, normalize_lem}
use x_divine_ray.Model.Profile
use x_divine_ray.Model.Profile.Complete.{IsComplete, validate_iff}
use x_divine_ray.Examples.Samples.{home, checks}

normalize_lem_example :
    IsNormal (normalize (record defaults { http_port = pos 0; mode = Mode.other [] }))
    × (normalize (normalize (record defaults { http_port = pos 0; mode = Mode.other [] }))
        ≡ normalize (record defaults { http_port = pos 0; mode = Mode.other [] }))
normalize_lem_example = normalize_lem (record defaults { http_port = pos 0; mode = Mode.other [] })

validate_iff_example : (Profile.validate checks.is_ip home ≡ none) ↔ IsComplete checks.is_ip home
validate_iff_example = validate_iff checks.is_ip home

mixed_valid : Mode.valid Mode.mixed ≡ true
unfolding Mode.valid
mixed_valid = refl

paths_agree_example : PathsAgree Mode.mixed
paths_agree_example = paths_agree Mode.mixed mixed_valid

abbrev pair : Group
pair = record {
  id = codes "pair";
  name = [];
  strategy = Strategy.balance;
  members = codes "home" ∷ codes "away" ∷ [];
  probe_url = [];
  probe_interval = [];
}

group_validate_iff_example : (Strategy.validate checks.parse_url pair ≡ none) ↔ (
    (pair.members ≢ [])
    × (Strategy.valid pair.strategy ≡ true)
    × ProbeOk checks.parse_url pair.probe_url)
group_validate_iff_example = group_validate_iff checks.parse_url pair
