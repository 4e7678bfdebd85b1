-- ===== src/Ucicfg/Data/Lookup.antt =====
-- What the lookups return, and what a write through one of them leaves alone.
use x_divine_ray.Prelude.{
  List, Text, [], arith, if◌then◌else◌, length, some, text_eq, text_eq_iff, ◌∷◌, ◌≡◌, ◌≤◌, refl,
  All, ap, ◌++◌, ◌≢◌, Bool, false, true,
}
use mathlib.Core.Option.{some-injective}
use mathlib.Core.Option.{some-injective}
use x_divine_ray.Model.Profile.{Profile}
use x_divine_ray.Model.Strategy.{Group}
use x_divine_ray.Ucicfg.Data.{
  Data, group, profile, find_group, find_profile, replace_first, update_profile, group_members,
  members_of,
}

find_group-id : (id : Text) (gs : List Group) (g : Group) → find_group id gs ≡ some g → g.id ≡ id
unfolding find_group
find_group-id id [] g h = cc
find_group-id id (x ∷ gs) g h = ground (arith, find_group-id id gs g, text_eq_iff x.id id)

pub group-id : (d : Data) (id : Text) (g : Group) → group d id ≡ some g → g.id ≡ id
unfolding group
group-id d id g = find_group-id id d.groups g

pub find_profile-id :
    (id : Text) (ps : List Profile) (p : Profile) → find_profile id ps ≡ some p → p.id ≡ id
unfolding find_profile
find_profile-id id [] p h = cc
find_profile-id id (x ∷ ps) p h = ground (arith, find_profile-id id ps p, text_eq_iff x.id id)

pub profile-id : (d : Data) (id : Text) (p : Profile) → profile d id ≡ some p → p.id ≡ id
unfolding profile
profile-id d id p = find_profile-id id d.profiles p

-- The parts around the first profile of an id, and what the write makes of it.
abbrev pub IsWritten : Text → (Profile → Profile) → List Profile → Profile → List Profile → Type 0
IsWritten id f ps p written =
    (before : List Profile) × (after : List Profile) × (ps ≡ before ++ p ∷ after)
    × All (λ q. q.id ≢ id) before
    × (written ≡ before ++ f p ∷ after)

found_later :
    (id : Text) (f : Profile → Profile) (x p : Profile) (ps written : List Profile)
    → x.id ≢ id
    → IsWritten id f ps p written
    → IsWritten id f (x ∷ ps) p (x ∷ written)
found_later id f x p ps written other (before, after, whole, others, there) =
    (x ∷ before, after, ap (◌∷◌ x) whole, (other, others), ap (◌∷◌ x) there)

find_first :
    (id : Text) (f : Profile → Profile) (x p : Profile) (ps rest : List Profile) (b : Bool)
    → text_eq x.id id ≡ b
    → (find_profile id ps ≡ some p → IsWritten id f ps p rest)
    → (if b then some x else find_profile id ps) ≡ some p
    → IsWritten id f (x ∷ ps) p (if b then f x ∷ ps else x ∷ rest)
find_first id f x p ps rest true same later h =
    let e : x ≡ p = some-injective x p h in ([], ps, ap (λ q. q ∷ ps) e, tt, ap (λ q. f q ∷ ps) e)
find_first id f x p ps rest false other later h =
    found_later id f x p ps rest (λ same. ground (arith, (text_eq_iff x.id id).1 same)) (later h)

replace_first_lem :
    (id : Text) (f : Profile → Profile) (ps : List Profile) (p : Profile)
    → find_profile id ps ≡ some p
    → IsWritten id f ps p (replace_first id f ps)
unfolding find_profile replace_first
replace_first_lem id f [] p e = cc
replace_first_lem id f (x ∷ ps) p e =
    find_first id f x p ps (replace_first id f ps) (text_eq x.id id) refl
      (replace_first_lem id f ps p) e

-- The write changes the first profile of the id, and nothing else.
pub update_profile_lem :
    (d : Data) (id : Text) (f : Profile → Profile) (p : Profile)
    → profile d id ≡ some p
    → (before : List Profile) × (after : List Profile) × (d.profiles ≡ before ++ p ∷ after)
      × All (λ q. q.id ≢ id) before
      × (p.id ≡ id)
      × (update_profile d id f ≡ record d { profiles = before ++ f p ∷ after })
unfolding profile update_profile
update_profile_lem d id f p e =
    let (before, after, whole, others, there) = replace_first_lem id f d.profiles p e in
    (
      before,
      after,
      whole,
      others,
      find_profile-id id d.profiles p e,
      ap (λ ps. record d { profiles = ps }) there,
    )

length-members_of : (d : Data) (ids : List Text) → length (members_of d ids) ≤ length ids
unfolding members_of
length-members_of d [] = omega arith
length-members_of d (id ∷ ids) = ground (arith, length-members_of d ids)

pub length-group_members : (d : Data) (g : Group) → length (group_members d g) ≤ length g.members
unfolding group_members
length-group_members d g = length-members_of d g.members
