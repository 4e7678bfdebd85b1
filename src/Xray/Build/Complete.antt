-- ===== src/Xray/Build/Complete.antt =====
-- When Build returns a configuration: an account of what it asks for.
use x_divine_ray.Prelude.{
  All, List, Option, [], arith, none, refl, true, ℕ, ◌∷◌, ◌≡◌, length, some, ◌↔◌, ◌≢◌, ◌≤◌,
}
use x_divine_ray.Model.Profile.{
  Proto, vless, vmess, trojan, shadowsocks, other, Profile, credentials_error,
}
use x_divine_ray.Model.Profile
use x_divine_ray.Model.Settings.{Settings, mark_value}
use x_divine_ray.Model.Strategy.{Group}
use x_divine_ray.Model.Strategy
use x_divine_ray.Xray.Config.{Config, Outbound, Balancer}
use x_divine_ray.Xray.Result.{
  ok, >>=-eq-ok, checked, checked-eq-ok, is_ok, is_ok_value, is_ok->>=, is_ok-checked, bad_profile,
  bad_group,
}
use x_divine_ray.Xray.Stream.Supported.{build_stream-IsSupported}
use x_divine_ray.Xray.Outbounds.{
  tag_proxy, build_proxy_outbound, member_outbounds, build_group_outbounds,
}
use x_divine_ray.Xray.Rules.{build_user_rules}
use x_divine_ray.Xray.Parts.{Options, Outside, assets_available}
use x_divine_ray.Xray.Build.{
  build, build_with, with_settings, check, check_target, check_profile, check_group, check_members,
  proxies, caps_of, proxy_tag_for, proxy_balancer_for,
}
use x_divine_ray.Xray.Build.Balanced.{some_member}
use x_divine_ray.Xray.Build.Usable.{
  IsUsable, IsAccepted, build_proxy_outbound-is_ok, member_outbounds-is_ok, AreServers-IsUsable,
  rules-IsAccepted, IsAccepted-rules,
}
use x_divine_ray.Xray.Build.Inverse.{IsBuilt, build-IsBuilt}
use x_divine_ray.Xray.Build.Served.{Served, proxies-Served}

-- A profile that is given is complete, even where a group is used.
abbrev pub GivenOk : Outside → Option Profile → Type 0
GivenOk x none = Unit
GivenOk x (some p) = Profile.validate x.is_ip p ≡ none

-- What is to be connected to: a group that validates, has members and whose members are all usable,
-- or else a profile that is.
abbrev pub TargetOk : Outside → Options → Option Group → Option Profile → Type 0
TargetOk x o (some g) op =
    (Strategy.validate x.parse_url g ≡ none)
    × (1 ≤ length o.members)
    × All (IsUsable x (caps_of o.caps)) o.members
TargetOk x o none (some p) = IsUsable x (caps_of o.caps) p
TargetOk x o none none = ⊥

abbrev pub CanBuild : Outside → Options → Type 0
CanBuild x o =
    (o.settings ≢ none)
    × GivenOk x o.profile
    × TargetOk x o o.group o.profile
    × All (IsAccepted x) o.rules

module _ (x : Outside) (o : Options) where
  check_profile-GivenOk :
      (op : Option Profile) {r : Unit {0}} → check_profile x op ≡ ok r → GivenOk x op
  check_profile-GivenOk none h = tt
  check_profile-GivenOk (some p) h = checked-eq-ok bad_profile (Profile.validate x.is_ip p) h

  Served-TargetOk :
      (mark : ℕ) (og : Option Group) (op : Option Profile) (outs : List Outbound)
      (bal : Option Balancer) {r : Unit {0}}
      → check_group x og o.members ≡ ok r
      → Served x o mark og op outs bal
      → TargetOk x o og op
  Served-TargetOk mark (some g) op outs bal h v =
      let (_, e, h1) = >>=-eq-ok (checked bad_group (Strategy.validate x.parse_url g)) _ h in
      (
        checked-eq-ok bad_group (Strategy.validate x.parse_url g) e,
        some_member o.members h1,
        AreServers-IsUsable x.is_ip o.resolve mark (caps_of o.caps) 0 o.members outs v.0,
      )
  Served-TargetOk mark none (some p) outs bal h (out, _, v, _) =
      (v.complete, build_stream-IsSupported p mark (caps_of o.caps) v.stream)
  Served-TargetOk mark none none outs bal h v = absurd v

  settings_given : (os : Option Settings) {cfg : Config} → with_settings x o os ≡ ok cfg → os ≢ none
  settings_given none h = cc
  settings_given (some s) h = λ e. cc

  build-CanBuild :
      (os : Option Settings) (cfg : Config) → o.settings ≡ os → build x o ≡ ok cfg → CanBuild x o
  unfolding check build
  build-CanBuild none cfg given h = absurd (settings_given o.settings h given)
  build-CanBuild (some s) cfg given h =
      let b : IsBuilt x o s cfg = build-IsBuilt x o given h in
      let (_, e1, h1) = >>=-eq-ok (check_target o.profile o.group) _ b.checks in
      let (_, e2, h2) = >>=-eq-ok (check_profile x o.profile) _ h1 in
      (
        λ e. cc,
        check_profile-GivenOk o.profile e2,
        Served-TargetOk (mark_value x.parse_int s) o.group o.profile b.outs b.bal h2
            (proxies-Served x o (mark_value x.parse_int s) o.group o.profile b.servers),
        rules-IsAccepted x (proxy_tag_for o.group) (proxy_balancer_for o.group) o.rules
            b.exceptions,
      )

  TargetOk-checks :
      (og : Option Group) (op : Option Profile)
      → TargetOk x o og op
      → is_ok (check_target op og) ≡ true
  TargetOk-checks (some g) none h = refl
  TargetOk-checks (some g) (some p) h = refl
  TargetOk-checks none (some p) h = refl
  TargetOk-checks none none h = absurd h

  GivenOk-checks : (op : Option Profile) → GivenOk x op → is_ok (check_profile x op) ≡ true
  GivenOk-checks none h = refl
  GivenOk-checks (some p) h = is_ok-checked bad_profile _ h

  members-checks : (ps : List Profile) → 1 ≤ length ps → is_ok (check_members ps) ≡ true
  members-checks [] h = absurd (omega arith)
  members-checks (p ∷ ps) h = refl

  TargetOk-group :
      (og : Option Group) (op : Option Profile)
      → TargetOk x o og op
      → is_ok (check_group x og o.members) ≡ true
  TargetOk-group (some g) op h =
      is_ok->>= (checked bad_group (Strategy.validate x.parse_url g)) _
        (is_ok-checked bad_group _ h.0) (λ _. members-checks o.members h.1)
  TargetOk-group none op h = refl

  TargetOk-proxies :
      (mark : ℕ) (og : Option Group) (op : Option Profile)
      → TargetOk x o og op
      → is_ok (proxies x o mark og op) ≡ true
  unfolding proxies build_group_outbounds
  TargetOk-proxies mark (some g) op h =
      is_ok->>= (build_group_outbounds x.is_ip o.resolve g o.members mark (caps_of o.caps)) _
        (is_ok->>= (member_outbounds x.is_ip o.resolve 0 o.members mark (caps_of o.caps)) _
          (member_outbounds-is_ok x.is_ip o.resolve mark (caps_of o.caps) 0 o.members h.2)
          (λ _. refl))
        (λ _. refl)
  TargetOk-proxies mark none (some p) h =
      is_ok->>= (build_proxy_outbound x.is_ip o.resolve p tag_proxy mark (caps_of o.caps)) _
        (build_proxy_outbound-is_ok x.is_ip o.resolve mark (caps_of o.caps) p tag_proxy h.0 h.1)
        (λ _. refl)
  TargetOk-proxies mark none none h = absurd h

  CanBuild-build :
      (os : Option Settings) → o.settings ≡ os → CanBuild x o → is_ok (with_settings x o os) ≡ true
  unfolding build_with check
  CanBuild-build none e h = absurd (h.0 e)
  CanBuild-build (some s) e (_, given, target, rules) =
      is_ok->>= (check x o) _
        (is_ok->>= (check_target o.profile o.group) _ (TargetOk-checks o.group o.profile target)
          (λ _.
            is_ok->>= (check_profile x o.profile) _ (GivenOk-checks o.profile given)
              (λ _. TargetOk-group o.group o.profile target)))
        (λ _.
          is_ok->>= (proxies x o (mark_value x.parse_int s) o.group o.profile) _
            (TargetOk-proxies (mark_value x.parse_int s) o.group o.profile target)
            (λ _.
              is_ok->>=
                (build_user_rules x.is_ip x.parses_cidr (assets_available x) o.rules
                  (proxy_tag_for o.group) (proxy_balancer_for o.group))
                _
                (IsAccepted-rules x (proxy_tag_for o.group) (proxy_balancer_for o.group) o.rules
                  rules)
                (λ _. refl)))

  -- Build returns a configuration exactly where settings are given, a profile that is given is
  -- complete, what is to be connected to is a group that validates and has only usable members, of
  -- which there is one at least, or else a usable profile, and every enabled rule validates. A server
  -- is usable if it is complete and the core supports its security, pin and transport.
  pub build_iff : ((cfg : Config) × (build x o ≡ ok cfg)) ↔ CanBuild x o
  unfolding build
  build_iff = (
    λ h. build-CanBuild o.settings h.0 refl h.1,
    λ h. is_ok_value (build x o) (CanBuild-build o.settings refl h),
  )
