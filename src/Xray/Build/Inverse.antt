-- ===== src/Xray/Build/Inverse.antt =====
-- What a configuration that was built was put together from.
use x_divine_ray.Prelude.{List, Option, some, ◌≡◌, none}
use x_divine_ray.Model.Settings.{Settings, mark_value}
use x_divine_ray.Xray.Config.{Config, Outbound, Rule, Balancer}
use x_divine_ray.Xray.Result.{ok, >>=-eq-ok}
use x_divine_ray.Xray.KeepAlive.{apply_keep_alive}
use x_divine_ray.Xray.Rules.{build_user_rules}
use x_divine_ray.Xray.Parts.{Options, Outside, assets_available}
use x_divine_ray.Xray.Build.{
  build, build_with, with_settings, check, proxies, assemble, proxy_tag_for, proxy_balancer_for,
}

-- The parts of a configuration that Build returned.
pub record IsBuilt (x : Outside) (o : Options) (s : Settings) (cfg : Config) : Type 0 where
  pub outs : List Outbound
  pub bal : Option Balancer
  pub user : List Rule
  pub checks : check x o ≡ ok tt
  pub servers : proxies x o (mark_value x.parse_int s) o.group o.profile ≡ ok (outs, bal)
  pub exceptions :
      build_user_rules x.is_ip x.parses_cidr
        (assets_available x)
        o.rules
        (proxy_tag_for o.group)
        (proxy_balancer_for o.group)
      ≡ ok user
  pub whole :
      apply_keep_alive s.keep_alive (assemble x o s (mark_value x.parse_int s) outs bal user) ≡ cfg

pub build_with-IsBuilt :
    (x : Outside) (o : Options) (s : Settings) {cfg : Config}
    → build_with x o s ≡ ok cfg
    → IsBuilt x o s cfg
unfolding build_with
build_with-IsBuilt x o s h =
    let (_, e1, h1) = >>=-eq-ok (check x o) _ h in
    let (out, e2, h2) = >>=-eq-ok (proxies x o (mark_value x.parse_int s) o.group o.profile) _ h1 in
    let (user, e3, h3) =
      >>=-eq-ok
        (build_user_rules x.is_ip x.parses_cidr (assets_available x) o.rules (proxy_tag_for o.group)
          (proxy_balancer_for o.group))
        _ h2 in
    record {
      outs = out.0;
      bal = out.1;
      user = user;
      checks = e1;
      servers = e2;
      exceptions = e3;
      whole = cc;
    }

with_settings-IsBuilt :
    (x : Outside) (o : Options) (given : Option Settings) {s : Settings} {cfg : Config}
    → given ≡ some s
    → with_settings x o given ≡ ok cfg
    → IsBuilt x o s cfg
with_settings-IsBuilt x o none e h = cc
with_settings-IsBuilt x o (some t) {s} e h = let same : t ≡ s = cc in build_with-IsBuilt x o s (cc)

pub build-IsBuilt :
    (x : Outside) (o : Options) {s : Settings} {cfg : Config}
    → o.settings ≡ some s
    → build x o ≡ ok cfg
    → IsBuilt x o s cfg
unfolding build
build-IsBuilt x o e h = with_settings-IsBuilt x o o.settings e h
