-- ===== src/Xray/Build/Balanced.antt =====
-- The balancer of a group and what it needs from the rest of the configuration.
use x_divine_ray.Xray.Build.{check_target, check_profile, as_list}
use x_divine_ray.Xray.Build.Served.{Served}
use x_divine_ray.Xray.Result.{>>=-eq-ok, checked-eq-ok, checked, bad_group}
use x_divine_ray.Model.Strategy.{group_validate_iff}
use x_divine_ray.Xray.Build.{check_group, check_members}
use x_divine_ray.Xray.Parts.{observatory_for, burst_observatory_for}
use x_divine_ray.Xray.Outbounds.{member_tag, strategy_for}
use x_divine_ray.Xray.Config.{Observatory, BurstObservatory}
use x_divine_ray.Model.Strategy.{
  Strategy, least_ping, least_load, balance, random, round_robin, other, group_validate_iff,
}
use x_divine_ray.Model.Strategy
use x_divine_ray.Xray.Build.{as_list, check}
use mathlib.Core.List.{map-append}
use x_divine_ray.Model.Profile.{Profile}
use x_divine_ray.Model.Settings.{Settings}
use x_divine_ray.Xray.Config.{Outbound, Balancer}
use x_divine_ray.Xray.Outbounds.{balancer_for}
use x_divine_ray.Xray.Outbounds.Shape.{AreServers}
use x_divine_ray.Xray.Parts.{Options, Outside, other_outbounds}
use x_divine_ray.Xray.Rules.{is_off}
use x_divine_ray.Xray.Build.{caps_of}
use x_divine_ray.Xray.Build.Served.{Served}
use x_divine_ray.Prelude.{
  All, Bool, List, Option, Text, [], inl, inr, true, ℕ, ◌∷◌, ◌≡◌, arith, codes, if_elim, map, none,
  not, refl, some, text_eq_refl, Bool-cases, any_of, ap, false, has_prefix, if◌then◌else◌, keep_if,
  length, suc, text_eq, ◌++◌, ◌+◌, ◌≤◌, ◌⊎◌,
}
use x_divine_ray.Model.Settings.{Settings}
use x_divine_ray.Model.Strategy.{Group}
use x_divine_ray.Xray.Config.{Outbound, Balancer}
use x_divine_ray.Xray.Result.{ok}
use x_divine_ray.Xray.Parts.{Options, Outside}
use x_divine_ray.Xray.Build.{other_outbounds}
use x_divine_ray.Xray.Build.Tags.{is_among}
use x_divine_ray.Xray.Build.Tags.{tag_of}

-- The outbounds that a balancer picks among, by their tags.
abbrev pub is_picked : Balancer → Text → Bool
is_picked b t = any_of (has_prefix t) b.selector

abbrev is_some {ℓ} : {A : Type ℓ} → Option A → Bool
is_some none = false
is_some (some a) = true

-- A strategy that looks at the health of the members has the observatory that it reads, and only such a
-- one has a fallback.
abbrev pub is_watched : Balancer → Option Observatory → Option BurstObservatory → Bool
is_watched b obs burst =
    if text_eq b.strategy.kind (codes "leastPing")
    then is_some obs
    else if text_eq b.strategy.kind (codes "leastLoad")
    then is_some burst
    else text_eq b.fallback_tag []

-- The balancer picks among as many outbounds as the group has members, which is one at least; its
-- fallback is an outbound; and its strategy has what it needs.
pub record IsBalanced (members : ℕ) (tags : List Text) (obs : Option Observatory)
    (burst : Option BurstObservatory) (b : Balancer) : Type 0 where
  pub picked : length (keep_if (is_picked b) tags) ≡ members
  pub one : 1 ≤ members
  pub fallback : (b.fallback_tag ≡ []) ⊎ (is_among b.fallback_tag tags ≡ true)
  pub watched : is_watched b obs burst ≡ true

balancer_for-watched :
    (g : Group) (outs : List Outbound) (st : Strategy)
    → g.strategy ≡ st
    → Strategy.valid st ≡ true
    → is_watched (balancer_for g outs) (observatory_for (some g)) (burst_observatory_for (some g))
      ≡ true
unfolding balancer_for observatory_for burst_observatory_for strategy_for Strategy.valid codes
    text_eq Strategy.health_aware
balancer_for-watched g outs least_ping e v = rw e refl
balancer_for-watched g outs least_load e v = rw e refl
balancer_for-watched g outs balance e v = rw e refl
balancer_for-watched g [] random e v = rw e refl
balancer_for-watched g (out ∷ outs) random e v = rw e refl
balancer_for-watched g [] round_robin e v = rw e refl
balancer_for-watched g (out ∷ outs) round_robin e v = rw e refl
balancer_for-watched g outs (other s) e v = cc

balancer_for-fallback :
    (g : Group) (outs : List Outbound) (more : List Text)
    → ((balancer_for g outs).fallback_tag ≡ [])
      ⊎ (is_among (balancer_for g outs).fallback_tag (map tag_of outs ++ more) ≡ true)
unfolding balancer_for
balancer_for-fallback g [] more = inl refl
balancer_for-fallback g (out ∷ outs) more = elim (Bool-cases (Strategy.health_aware g.strategy)) [
  | inl aware ↦ inr (rw aware (rw (text_eq_refl out.tag) refl))
  | inr blind ↦ inl (rw blind refl)
]

member_tag-picked :
    (i : ℕ) (g : Group) (outs : List Outbound)
    → is_picked (balancer_for g outs) (member_tag i) ≡ true
unfolding balancer_for codes has_prefix
member_tag-picked i g outs = refl

others_unpicked :
    (s : Settings) (mark : ℕ) (g : Group) (outs : List Outbound)
    → keep_if (is_picked (balancer_for g outs)) (map tag_of (other_outbounds s mark)) ≡ []
unfolding other_outbounds balancer_for codes has_prefix
others_unpicked s mark g outs =
    if_elim (λ (l : List Outbound). keep_if (is_picked (balancer_for g outs)) (map tag_of l) ≡ [])
      (not (is_off s.dns_mode)) _ [] (λ _. refl) (λ _. refl)

AreServers-picked :
    (x : Outside) (o : Options) (mark : ℕ) (g : Group) (all : List Outbound) (i : ℕ)
    (ps : List Profile) (outs : List Outbound) (more : List Text)
    → AreServers x.is_ip o.resolve mark (caps_of o.caps) i ps outs
    → keep_if (is_picked (balancer_for g all)) more ≡ []
    → length (keep_if (is_picked (balancer_for g all)) (map tag_of outs ++ more)) ≡ length ps
AreServers-picked x o mark g all i [] [] more v none_left = rw none_left refl
AreServers-picked x o mark g all i (p ∷ ps) (out ∷ outs) more v none_left = rw v.0.tagged (
    rw (member_tag-picked i g all)
      (ap suc (AreServers-picked x o mark g all (i + 1) ps outs more v.1 none_left)))
AreServers-picked x o mark g all i [] (out ∷ outs) more v none_left = absurd v
AreServers-picked x o mark g all i (p ∷ ps) [] more v none_left = absurd v

pub check-check_group :
    (x : Outside) (o : Options) {r : Unit {0}}
    → check x o ≡ ok r
    → check_group x o.group o.members ≡ ok r
unfolding check
check-check_group x o h =
    let (_, _, h1) = >>=-eq-ok (check_target o.profile o.group) _ h in
    let (_, _, h2) = >>=-eq-ok (check_profile x o.profile) _ h1 in h2

pub some_member : (ps : List Profile) {r : Unit {0}} → check_members ps ≡ ok r → 1 ≤ length ps
some_member [] h = cc
some_member (p ∷ ps) h = omega arith

group_checked :
    (x : Outside) (g : Group) (ps : List Profile) {r : Unit {0}}
    → check_group x (some g) ps ≡ ok r
    → (Strategy.valid g.strategy ≡ true) × (1 ≤ length ps)
group_checked x g ps h =
    let (_, e, h1) = >>=-eq-ok (checked bad_group (Strategy.validate x.parse_url g)) _ h in
    let accepted =
      (group_validate_iff x.parse_url g).0
        (checked-eq-ok bad_group (Strategy.validate x.parse_url g) e) in
    (accepted.1, some_member ps h1)

pub Served-IsBalanced :
    (x : Outside) (o : Options) (s : Settings) (mark : ℕ) (g : Group) (outs : List Outbound)
    → Strategy.valid g.strategy ≡ true
    → 1 ≤ length o.members
    → AreServers x.is_ip o.resolve mark (caps_of o.caps) 0 o.members outs
    → IsBalanced
        (length o.members)
        (map tag_of (outs ++ other_outbounds s mark))
        (observatory_for (some g))
        (burst_observatory_for (some g))
        (balancer_for g outs)
Served-IsBalanced x o s mark g outs known some_member v =
    rw (map-append tag_of outs (other_outbounds s mark)) (record {
      picked =
          AreServers-picked x o mark g outs 0 o.members outs (map tag_of (other_outbounds s mark)) v
            (others_unpicked s mark g outs);
      one = some_member;
      fallback = balancer_for-fallback g outs (map tag_of (other_outbounds s mark));
      watched = balancer_for-watched g outs g.strategy refl known;
    })

-- With a group there is its balancer, with a profile there is none.
pub balancers-IsBalanced :
    (x : Outside) (o : Options) (s : Settings) (mark : ℕ) (og : Option Group) (op : Option Profile)
    (outs : List Outbound) (bal : Option Balancer) {r : Unit {0}}
    → check_group x og o.members ≡ ok r
    → Served x o mark og op outs bal
    → All
        (IsBalanced
          (length o.members)
          (map tag_of (outs ++ other_outbounds s mark))
          (observatory_for og)
          (burst_observatory_for og))
        (as_list bal)
balancers-IsBalanced x o s mark (some g) op outs bal h (v, chosen) =
    let (known, enough) = group_checked x g o.members h in
    rw chosen (Served-IsBalanced x o s mark g outs known enough v, tt)
balancers-IsBalanced x o s mark none (some p) outs bal h (out, _, _, no_bal) = rw no_bal tt
balancers-IsBalanced x o s mark none none outs bal h v = absurd v
