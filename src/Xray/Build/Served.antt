-- ===== src/Xray/Build/Served.antt =====
-- The outbounds that lead to servers in a configuration that was built, with its balancer.
use mathlib.Core.Path.{subst}
use x_divine_ray.Prelude.{List, Option, [], none, some, ℕ, ◌∷◌, ◌≡◌}
use x_divine_ray.Model.Profile.{Profile}
use x_divine_ray.Model.Strategy.{Group}
use x_divine_ray.Xray.Config.{Outbound, Balancer}
use x_divine_ray.Xray.Result.{ok, >>=-eq-ok}
use x_divine_ray.Xray.Outbounds.{
  tag_proxy, build_proxy_outbound, build_group_outbounds, balancer_for,
}
use x_divine_ray.Xray.Outbounds.Shape.{
  IsServer, AreServers, build_proxy_outbound-IsServer, build_group_outbounds-AreServers,
}
use x_divine_ray.Xray.Parts.{Options, Outside}
use x_divine_ray.Xray.Build.{proxies, caps_of}

module _ (x : Outside) (o : Options) (mark : ℕ) where
  abbrev pub Served : Option Group → Option Profile → List Outbound → Option Balancer → Type 0
  Served (some g) op outs bal =
      AreServers x.is_ip o.resolve mark (caps_of o.caps) 0 o.members outs
      × (bal ≡ some (balancer_for g outs))
  Served none (some p) outs bal =
      (out : Outbound) × (outs ≡ out ∷ [])
      × IsServer x.is_ip o.resolve mark (caps_of o.caps) p tag_proxy out
      × (bal ≡ none)
  Served none none outs bal = ⊥

  pub proxies-Served :
      (og : Option Group) (op : Option Profile) {outs : List Outbound} {bal : Option Balancer}
      → proxies x o mark og op ≡ ok (outs, bal)
      → Served og op outs bal
  unfolding proxies
  proxies-Served (some g) op {outs} {bal} h =
      let (r, e, h1) =
        >>=-eq-ok (build_group_outbounds x.is_ip o.resolve g o.members mark (caps_of o.caps)) _ h in
      let (servers, chosen) =
        build_group_outbounds-AreServers x.is_ip o.resolve mark (caps_of o.caps) g o.members e in
      let same : r.0 ≡ outs = cc in
      (subst (AreServers x.is_ip o.resolve mark (caps_of o.caps) 0 o.members) same servers, cc)
  proxies-Served none (some p) h =
      let (out, e, h1) =
        >>=-eq-ok (build_proxy_outbound x.is_ip o.resolve p tag_proxy mark (caps_of o.caps)) _ h in
      (
        out,
        cc,
        build_proxy_outbound-IsServer x.is_ip o.resolve mark (caps_of o.caps) p tag_proxy e,
        cc,
      )
  proxies-Served none none h = cc
