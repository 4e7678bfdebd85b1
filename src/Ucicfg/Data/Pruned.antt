-- ===== src/Ucicfg/Data/Pruned.antt =====
-- Pruned groups have the members that they had.
use x_divine_ray.Prelude.{
  List, Option, Text, [], arith, false, if_elim, keep_if, length, none, refl, some, text_eq, true,
  ◌∷◌, ◌≡◌, ap, suc, ◌∙◌, All, map, sym,
}
use x_divine_ray.Model.Strategy.{Group}
use x_divine_ray.Model.Profile.{Profile}
use x_divine_ray.Model.Subscription.{is_alive, prune_members}
use x_divine_ray.Ucicfg.Data.{Data, profile, find_profile, group_members, members_of}
use x_divine_ray.Ucicfg.Data.Lookup.{find_profile-id}

cons_eq {ℓ} : {A : Type ℓ} {x y : A} {xs ys : List A} → x ≡ y → xs ≡ ys → x ∷ xs ≡ y ∷ ys
cons_eq e f i = e i ∷ f i

is_alive-find_profile :
    (id : Text) (ps : List Profile) → is_alive ps id ≡ false → find_profile id ps ≡ none
unfolding is_alive find_profile
is_alive-find_profile id [] h = refl
is_alive-find_profile id (p ∷ ps) h = ground (arith, is_alive-find_profile id ps)

is_alive-found :
    (id : Text) (ps : List Profile)
    → is_alive ps id ≡ true
    → (p : Profile) × (find_profile id ps ≡ some p)
unfolding is_alive find_profile
is_alive-found id [] h = cc
is_alive-found id (p ∷ ps) h =
    if_elim (λ (o : Option Profile). (q : Profile) × (o ≡ some q)) (text_eq p.id id) _ _
      (λ _. (p, refl)) (λ other. is_alive-found id ps (ground arith))

members_of-pruned :
    (d : Data) (ids : List Text)
    → members_of d (keep_if (is_alive d.profiles) ids) ≡ members_of d ids
unfolding members_of profile
members_of-pruned d [] = refl
members_of-pruned d (id ∷ ids) =
    ground (arith, members_of-pruned d ids, is_alive-find_profile id d.profiles)

members_of-found :
    (d : Data) (id : Text) (ids : List Text) (p : Profile)
    → profile d id ≡ some p
    → members_of d (id ∷ ids) ≡ p ∷ members_of d ids
unfolding members_of
members_of-found d id ids p e =
    ap (λ (o : Option Profile). elim o [ none ↦ members_of d ids | some q ↦ q ∷ members_of d ids ])
      e

members_of-missing :
    (d : Data) (id : Text) (ids : List Text)
    → profile d id ≡ none
    → members_of d (id ∷ ids) ≡ members_of d ids
unfolding members_of
members_of-missing d id ids e =
    ap (λ (o : Option Profile). elim o [ none ↦ members_of d ids | some q ↦ q ∷ members_of d ids ])
      e

abbrev pub ids_of : List Profile → List Text
ids_of ps = map (λ (p : Profile). p.id) ps

ids_of-pruned :
    (d : Data) (ids : List Text) → keep_if (is_alive d.profiles) ids ≡ ids_of (members_of d ids)
unfolding members_of profile
ids_of-pruned d [] = refl
ids_of-pruned d (id ∷ ids) =
    if_elim (λ l. l ≡ ids_of (members_of d (id ∷ ids))) (is_alive d.profiles id) _ _
      (λ alive.
        let (p, e) = is_alive-found id d.profiles alive in
        cons_eq (sym (find_profile-id id d.profiles p e)) (ids_of-pruned d ids)
        ∙ sym (ap ids_of (members_of-found d id ids p e)))
      (λ dead.
        ids_of-pruned d ids
        ∙ sym (ap ids_of (members_of-missing d id ids (is_alive-find_profile id d.profiles dead))))

length-members_of_pruned :
    (d : Data) (ids : List Text)
    → length (members_of d (keep_if (is_alive d.profiles) ids))
      ≡ length (keep_if (is_alive d.profiles) ids)
unfolding members_of profile
length-members_of_pruned d [] = refl
length-members_of_pruned d (id ∷ ids) =
    let kept : List Text = keep_if (is_alive d.profiles) ids in
    if_elim (λ l. length (members_of d l) ≡ length l) (is_alive d.profiles id) (id ∷ kept) kept
      (λ alive.
        let (p, e) = is_alive-found id d.profiles alive in
        ap length (members_of-found d id kept p e) ∙ ap suc (length-members_of_pruned d ids))
      (λ _. length-members_of_pruned d ids)

-- Pruning the groups of a file takes from a group exactly the members that name no profile: what the
-- group's members resolve to stays as it was, and every member that is left resolves.
-- Pruning the groups of a file keeps every group, in order, and changes its members only: they become
-- the ids of the profiles that they resolved to, in the group's order. What each group resolves to
-- stays as it was, and every member that is left resolves.
pub prune_members-group_members :
    (d : Data) (gs : List Group)
    → (prune_members gs d.profiles
        ≡ map {A = Group} (λ g. record g { members = ids_of (group_members d g) }) gs)
      × (map (group_members d) (prune_members gs d.profiles) ≡ map (group_members d) gs)
      × All (λ g. length (group_members d g) ≡ length g.members) (prune_members gs d.profiles)
unfolding prune_members group_members
prune_members-group_members d [] = (refl, refl, tt)
prune_members-group_members d (g ∷ gs) =
    let (ids, same, whole) = prune_members-group_members d gs in
    (
      cons_eq (ap (λ (ms : List Text). record g { members = ms }) (ids_of-pruned d g.members)) ids,
      cons_eq (members_of-pruned d g.members) same,
      (length-members_of_pruned d g.members, whole),
    )
