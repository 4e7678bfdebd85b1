-- ===== src/Xray/Build.antt =====
-- The whole configuration (internal/xray/config.go, Build).
pub mod Inverse
pub mod Served
pub mod Tags
pub mod Balanced
pub mod Closed
pub mod Usable
pub mod Complete
pub mod Marked
use x_divine_ray.Prelude.{
  List, Option, Text, [], codes, if◌then◌else◌, none, some, true, ℕ, ◌++◌, ◌∷◌,
}
use x_divine_ray.Model.Profile.{Profile}
use x_divine_ray.Model.Profile
use x_divine_ray.Model.Settings.{Settings, mark_value}
use x_divine_ray.Model.Strategy.{Group}
use x_divine_ray.Model.Strategy
use x_divine_ray.Xray.Config.{Config, Outbound, Rule, Balancer}
use x_divine_ray.Xray.Words.{access_log}
use x_divine_ray.Xray.Result.{
  Result, ok, err, ◌>>=◌, checked, no_settings, no_target, no_members, bad_profile, bad_group,
}
use x_divine_ray.Xray.Stream.{Capabilities, all_features}
use x_divine_ray.Xray.Outbounds.{
  tag_proxy, tag_balancer, build_proxy_outbound, build_group_outbounds,
}
use x_divine_ray.Xray.Inbounds.{inbounds}
use x_divine_ray.Xray.KeepAlive.{apply_keep_alive}
use x_divine_ray.Xray.Rules.{build_user_rules}
use x_divine_ray.Xray.Parts.{
  Options, Outside, assets_available, tag_api, conn_idle_for, dns_config, observatory_for,
  burst_observatory_for, other_outbounds, first_rules, catch_all,
}

abbrev pub as_list {ℓ} : {A : Type ℓ} → Option A → List A
as_list none = []
as_list (some a) = a ∷ []

abbrev pub assemble :
    Outside → Options → Settings → ℕ → List Outbound → Option Balancer → List Rule → Config
assemble x o s mark outs bal user = record {
  log = record { log_level = s.log_level; access = access_log s.log_level };
  api = record { tag = tag_api; services = codes "StatsService" ∷ codes "RoutingService" ∷ [] };
  policy = record {
    stats_outbound_uplink = true;
    stats_outbound_downlink = true;
    conn_idle = conn_idle_for s;
  };
  dns = dns_config x o s;
  observatory = observatory_for o.group;
  burst_observatory = burst_observatory_for o.group;
  inbounds = inbounds s o.rules;
  outbounds = outs ++ other_outbounds s mark;
  routing = record {
    domain_strategy = codes "AsIs";
    balancers = as_list bal;
    rules = first_rules x o s ++ (user ++ catch_all bal);
  };
}

abbrev pub check_target : Option Profile → Option Group → Result (Unit {0})
check_target none none = err no_target
check_target p g = ok tt

abbrev pub check_profile : Outside → Option Profile → Result (Unit {0})
check_profile x none = ok tt
check_profile x (some p) = checked bad_profile (Profile.validate x.is_ip p)

abbrev pub check_members : List Profile → Result (Unit {0})
check_members [] = err no_members
check_members (p ∷ ps) = ok tt

abbrev pub check_group : Outside → Option Group → List Profile → Result (Unit {0})
check_group x none members = ok tt
check_group x (some g) members = do
  _ ← checked bad_group (Strategy.validate x.parse_url g)
  check_members members

unfoldable pub check : Outside → Options → Result (Unit {0})
check x o = do
  _ ← check_target o.profile o.group
  _ ← check_profile x o.profile
  check_group x o.group o.members

abbrev pub caps_of : Capabilities → Capabilities
caps_of c = if c.probed then c else all_features

-- The outbounds that lead to servers, and the balancer between them; a group goes before a profile.
unfoldable pub proxies :
    Outside → Options → ℕ → Option Group → Option Profile → Result (List Outbound × Option Balancer)
proxies x o mark (some g) p = do
  outs ← build_group_outbounds x.is_ip o.resolve g o.members mark (caps_of o.caps)
  ok (outs.0, some outs.1)
proxies x o mark none (some p) = do
  out ← build_proxy_outbound x.is_ip o.resolve p tag_proxy mark (caps_of o.caps)
  ok (out ∷ [], none)
proxies x o mark none none = err no_target

-- The outbound or the balancer that a rule of the operator with the action proxy names.
abbrev pub proxy_tag_for : Option Group → Text
proxy_tag_for none = tag_proxy
proxy_tag_for (some g) = []

abbrev pub proxy_balancer_for : Option Group → Text
proxy_balancer_for none = []
proxy_balancer_for (some g) = tag_balancer

unfoldable pub build_with : Outside → Options → Settings → Result Config
build_with x o s = do
  _ ← check x o
  let mark = mark_value x.parse_int s
  out ← proxies x o mark o.group o.profile
  user ←
      build_user_rules x.is_ip x.parses_cidr (assets_available x) o.rules (proxy_tag_for o.group)
        (proxy_balancer_for o.group)
  ok (apply_keep_alive s.keep_alive (assemble x o s mark out.0 out.1 user))

abbrev pub with_settings : Outside → Options → Option Settings → Result Config
with_settings x o none = err no_settings
with_settings x o (some s) = build_with x o s

unfoldable pub build : Outside → Options → Result Config
build x o = with_settings x o o.settings
