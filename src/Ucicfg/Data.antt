-- ===== src/Ucicfg/Data.antt =====
-- The loaded configuration and its lookups (internal/ucicfg/store.go). The warnings of the loader are
-- texts and left out.
pub mod Lookup
pub mod Pruned
use x_divine_ray.Prelude.{Text, List, Option, [], if◌then◌else◌, none, some, text_eq, ◌∷◌}
use x_divine_ray.Model.Strategy.{Group}
use x_divine_ray.Model.Profile.{Profile}
use x_divine_ray.Model.Rule.{Rule, Subscription}
use x_divine_ray.Model.Settings.{Settings}

pub record Data : Type 0 where
  pub settings : Settings
  pub profiles : List Profile
  pub groups : List Group
  pub rules : List Rule
  pub subscriptions : List Subscription

find_group : Text → List Group → Option Group
find_group id [] = none
find_group id (g ∷ gs) = if text_eq g.id id then some g else find_group id gs

pub find_profile : Text → List Profile → Option Profile
find_profile id [] = none
find_profile id (p ∷ ps) = if text_eq p.id id then some p else find_profile id ps

-- d.Group(id): the first group of that id.
unfoldable pub group : Data → Text → Option Group
unfolding find_group
group d id = find_group id d.groups

-- d.Profile(id): the first profile of that id.
unfoldable pub profile : Data → Text → Option Profile
unfolding find_profile
profile d id = find_profile id d.profiles

members_of : Data → List Text → List Profile
members_of d [] = []
members_of d (id ∷ ids) = elim (profile d id) [
  | none ↦ members_of d ids
  | some p ↦ p ∷ members_of d ids
]

-- d.GroupMembers(g): the members that still exist, in the group's order.
unfoldable pub group_members : Data → Group → List Profile
unfolding members_of
group_members d g = members_of d g.members

replace_first : Text → (Profile → Profile) → List Profile → List Profile
replace_first id f [] = []
replace_first id f (p ∷ ps) = if text_eq p.id id then f p ∷ ps else p ∷ replace_first id f ps

-- A write through the pointer that `d.Profile(id)` returns.
unfoldable pub update_profile : Data → Text → (Profile → Profile) → Data
unfolding replace_first
update_profile d id f = record d { profiles = replace_first id f d.profiles }
