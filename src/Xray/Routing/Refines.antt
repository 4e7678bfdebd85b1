-- ===== src/Xray/Routing/Refines.antt =====
-- A configuration that was built routes every connection as its settings and rules mean it.
use x_divine_ray.Xray.Build.Served.{Served, proxies-Served}
use x_divine_ray.Xray.Parts.{tag_api, tag_dns_out}
use x_divine_ray.Xray.Rules.{is_off, tag_direct}
use x_divine_ray.Xray.Inbounds.{tag_api_in, tag_dns_in}
use x_divine_ray.Xray.Routing.Meaning.{Destination, the_api, the_resolver, directly, is_local}
use x_divine_ray.Model.Int.{ℤ, pos, lt}
use x_divine_ray.Model.Profile.{Profile}
use x_divine_ray.Model.Rule.Validate.{split}
use x_divine_ray.Model.Settings.{Settings, mark_value}
use x_divine_ray.Xray.Config.{Config, Outbound, Balancer, no_rule}
use x_divine_ray.Xray.KeepAlive.{keep_alive, apply_keep_alive}
use x_divine_ray.Xray.Outbounds.{tag_balancer, balancer_for}
use x_divine_ray.Xray.Parts.{Options, Outside, assets_available, catch_all, other_outbounds}
use x_divine_ray.Xray.Build.{build, assemble}
use x_divine_ray.Xray.Build.Inverse.{IsBuilt, build-IsBuilt}
use x_divine_ray.Xray.Routing.{
  Net, tcp, udp, net_text, to_outbound, to_balancer, network_matches, first_of, route, matches,
}
use x_divine_ray.Xray.Routing.Meaning.{meaning}
use x_divine_ray.Xray.Build.Tags.{keep_alive-tag}
use x_divine_ray.Xray.Routing.First.{route_by-first_rules}
use x_divine_ray.Prelude.{
  Bool, List, Option, Text, [], codes, inl, inr, none, refl, some, true, ◌++◌, ◌∷◌, ◌≡◌, arith,
  false, if_elim, not, any_of, ap, if◌then◌else◌, map, text_eq, ℕ, ◌&&◌, ◌∙◌,
}
use mathlib.Core.Path.{subst}
use x_divine_ray.Model.Rule as UserRules
use x_divine_ray.Model.Rule.{RuleAction, direct, proxy, block, other}
use x_divine_ray.Model.Strategy.{Group}
use x_divine_ray.Xray.Config.{Rule}
use x_divine_ray.Xray.Result.{Result, ok}
use x_divine_ray.Xray.Rules.{build_user_rules, matchers, with_target}
use x_divine_ray.Xray.Build.{proxy_tag_for, proxy_balancer_for}
use x_divine_ray.Xray.Routing.{Conn, Route, rule_target, route_by}
use x_divine_ray.Xray.Routing.Meaning.{proxied, by_action, by_rules, reached_by}
use x_divine_ray.Xray.Rules.Accepted.{Added, build_user_rules-Added}
use x_divine_ray.Xray.Routing.Matchers.{valid_action, matches-user_rule}

-- The target of a rule is where its action leads.
rule_target-with_target :
    (g : Option Group) (a : RuleAction) (m : UserRules.Rule)
    → UserRules.valid a ≡ true
    → rule_target (with_target a (proxy_tag_for g) (proxy_balancer_for g) (matchers m))
      ≡ reached_by g (by_action a)
unfolding with_target matchers UserRules.valid codes
rule_target-with_target g direct m h = refl
rule_target-with_target g block m h = refl
rule_target-with_target none proxy m h = refl
rule_target-with_target (some g) proxy m h = refl
rule_target-with_target g (other s) m h = cc

module _ (parses_ip parses_cidr : Text → Bool) (geo : Bool) (g : Option Group) (c : Conn)
    (last : Route) (more : List Rule) (rest : route_by c last more ≡ reached_by g proxied) where
  route_by-Added :
      (r : UserRules.Rule) (rs : List UserRules.Rule) (others : Result (List Rule))
      (out : List Rule)
      → ((outs : List Rule)
          → others ≡ ok outs
          → route_by c last (outs ++ more) ≡ reached_by g (by_rules c rs))
      → Added parses_ip parses_cidr geo (proxy_tag_for g) (proxy_balancer_for g) r others out
      → route_by c last (out ++ more) ≡ reached_by g (by_rules c (r ∷ rs))
  unfolding by_rules route_by
  route_by-Added r rs others out ih (inl (off, e)) = rw off (ih out e)
  route_by-Added r rs others out ih (inr (on, outs, valid, e, same)) =
      subst (λ (l : List Rule). route_by c last (l ++ more) ≡ reached_by g (by_rules c (r ∷ rs)))
        same
        (ground (
          arith,
          on,
          matches-user_rule parses_ip parses_cidr geo r valid c (proxy_tag_for g)
              (proxy_balancer_for g),
          rule_target-with_target g r.action r (valid_action parses_ip parses_cidr geo r valid),
          ih outs e,
        ))

  route_by-user_rules :
      (rs : List UserRules.Rule) {out : List Rule}
      → build_user_rules parses_ip parses_cidr geo rs (proxy_tag_for g) (proxy_balancer_for g)
        ≡ ok out
      → route_by c last (out ++ more) ≡ reached_by g (by_rules c rs)
  unfolding by_rules build_user_rules
  route_by-user_rules [] {out} h =
      let e : [] ≡ out = cc in
      subst (λ (l : List Rule). route_by c last (l ++ more) ≡ reached_by g proxied) e rest
  route_by-user_rules (r ∷ rs) {out} h =
      route_by-Added r rs
        (build_user_rules parses_ip parses_cidr geo rs (proxy_tag_for g) (proxy_balancer_for g)) out
        (λ outs e. route_by-user_rules rs e)
        (build_user_rules-Added parses_ip parses_cidr geo (proxy_tag_for g) (proxy_balancer_for g) r
          rs h)

-- The balancer's rule takes what comes to it, over TCP and UDP alike.
route_by-catch_all :
    (c : Conn) (last : Route) (b : Balancer)
    → b.tag ≡ tag_balancer
    → route_by c last (catch_all (some b)) ≡ to_balancer tag_balancer
unfolding route_by catch_all matches network_matches codes text_eq split
route_by-catch_all c last b e = go c.net
  where
    go :
        (n : Net)
        → (if any_of (text_eq (net_text n)) (split 44 (codes "tcp,udp")) && true
            then rule_target (record no_rule { balancer_tag = b.tag })
            else last)
          ≡ to_balancer tag_balancer
    go tcp = rw e refl
    go udp = rw e refl

reached_by-meaning :
    (g : Option Group) (api dns near : Bool) (rest : Destination)
    → (if api
        then to_outbound tag_api
        else if dns
        then to_outbound tag_dns_out
        else if near
        then to_outbound tag_direct
        else reached_by g rest)
      ≡ reached_by g
          (if api then the_api else if dns then the_resolver else if near then directly else rest)
reached_by-meaning g true dns near rest = refl
reached_by-meaning g false true near rest = refl
reached_by-meaning g false false true rest = refl
reached_by-meaning g false false false rest = refl

apply_keep_alive-route :
    (c : Conn) (seconds : ℤ) (cfg : Config) → route c (apply_keep_alive seconds cfg) ≡ route c cfg
unfolding apply_keep_alive route
apply_keep_alive-route c seconds cfg =
    if_elim (λ (r : Config). route c r ≡ route c cfg) (lt (pos 0) seconds) _ cfg
      (λ _. ap (λ (last : Route). route_by c last cfg.routing.rules) (go cfg.outbounds)) (λ _. refl)
  where
    go : (outs : List Outbound) → first_of (map (keep_alive seconds) outs) ≡ first_of outs
    go [] = refl
    go (out ∷ outs) = ap to_outbound (keep_alive-tag seconds out)

module _ (x : Outside) (o : Options) (c : Conn) where
  -- What is left after all the rules of the operator goes to the proxy.
  route_by-left :
      (mark : ℕ) (og : Option Group) (op : Option Profile) (outs others : List Outbound)
      (bal : Option Balancer)
      → Served x o mark og op outs bal
      → route_by c (first_of (outs ++ others)) (catch_all bal) ≡ reached_by og proxied
  unfolding route_by catch_all balancer_for
  route_by-left mark (some g) op outs others bal (_, chosen) =
      rw chosen (route_by-catch_all c (first_of (outs ++ others)) (balancer_for g outs) refl)
  route_by-left mark none (some p) outs others bal (out, same, v, no_bal) =
      rw no_bal (rw same (ap to_outbound v.tagged))
  route_by-left mark none none outs others bal v = absurd v

  -- A configuration that Build returns routes every connection as the settings and the operator's
  -- rules mean it: the core's own API and the name lookups of the DNS inbound to where they are
  -- answered, what is local directly, and everything else as the first enabled rule that applies
  -- says, or through the proxy.
  pub route-meaning :
      (s : Settings) (cfg : Config)
      → o.settings ≡ some s
      → build x o ≡ ok cfg
      → route c cfg ≡ reached_by o.group (meaning x o s c)
  unfolding meaning route
  route-meaning s cfg given h =
      let b : IsBuilt x o s cfg = build-IsBuilt x o given h in
      let mark : ℕ = mark_value x.parse_int s in
      let last : Route = first_of (b.outs ++ other_outbounds s mark) in
      let exceptions : route_by c last (b.user ++ catch_all b.bal)
          ≡ reached_by o.group (by_rules c o.rules) =
        route_by-user_rules x.is_ip x.parses_cidr (assets_available x) o.group c last
          (catch_all b.bal)
          (route_by-left mark o.group o.profile b.outs (other_outbounds s mark) b.bal
            (proxies-Served x o mark o.group o.profile b.servers))
          o.rules b.exceptions in
      let whole : route c (assemble x o s mark b.outs b.bal b.user)
          ≡ reached_by o.group (meaning x o s c) =
        route_by-first_rules x o c s last (b.user ++ catch_all b.bal)
        ∙ rw exceptions (
            reached_by-meaning o.group (text_eq c.inbound tag_api_in)
              (not (is_off s.dns_mode) && text_eq c.inbound tag_dns_in) (is_local x o c)
              (by_rules c o.rules)) in
      subst (λ (k : Config). route c k ≡ reached_by o.group (meaning x o s c)) b.whole
        (apply_keep_alive-route c s.keep_alive (assemble x o s mark b.outs b.bal b.user) ∙ whole)
