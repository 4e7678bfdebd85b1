-- ===== src/Xray/Routing/Meaning.antt =====
-- What the settings and the operator's rules mean for a connection, without the configuration that
-- says it to the core.
use x_divine_ray.Prelude.{
  Bool, List, Option, Text, [], any_of, codes, if◌then◌else◌, map, none, not, some, text_eq, ◌&&◌,
  ◌++◌, ◌==◌, ◌||◌, ◌∷◌,
}
use x_divine_ray.Prelude.Trim.{trim}
use x_divine_ray.Fw.Bypass.{says}
use x_divine_ray.Model.Rule as UserRules
use x_divine_ray.Model.Rule.{RuleAction, direct, proxy, block, other}
use x_divine_ray.Model.Settings.{Settings}
use x_divine_ray.Model.Strategy.{Group}
use x_divine_ray.Xray.Inbounds.{tag_api_in, tag_dns_in}
use x_divine_ray.Xray.Outbounds.{tag_proxy, tag_balancer}
use x_divine_ray.Xray.Parts.{
  Options, Outside, assets_available, private_cidrs, resolvers, tag_api, tag_dns_out,
}
use x_divine_ray.Xray.Rules.{tag_direct, tag_block, is_off}
use x_divine_ray.Xray.Routing.{
  Conn, holds_one, holds_text, domain_matches, network_matches, Route, to_outbound, to_balancer,
}

pub data Destination : Type 0 where
  the_api the_resolver directly blocked proxied : Destination

-- A bare name stands for itself and what is below it; an entry with a prefix is the core's own.
abbrev pub means_domain : Conn → Text → Bool
means_domain c d = if any_of (λ b. b == 58) d then domain_matches c d else c.under d

-- Every kind of matcher that the rule has holds for one of its entries at least.
unfoldable pub applies : Conn → UserRules.Rule → Bool
applies c r =
    holds_one (λ v. c.ip_in (trim v)) r.ips
    && (holds_one (λ v. means_domain c (trim v)) r.domains
        && (holds_one (λ v. c.source_in (trim v)) r.sources
            && (holds_text c.port_in (trim r.port)
                && (holds_text c.source_port_in (trim r.source_port)
                    && (holds_text (network_matches c) (trim r.network)
                        && holds_one (λ v. c.protocol_is (trim v)) r.protocols)))))

abbrev pub by_action : RuleAction → Destination
by_action direct = directly
by_action block = blocked
by_action proxy = proxied
by_action (other s) = proxied

-- The first rule that is enabled and applies decides; where there is none, the proxy is used.
unfoldable pub by_rules : Conn → List UserRules.Rule → Destination
by_rules c [] = proxied
by_rules c (r ∷ rs) = if r.enabled && applies c r then by_action r.action else by_rules c rs

-- The destination is in a private network, in one that never goes through the proxy, or is one of
-- the device's own resolvers.
unfoldable pub is_local : Outside → Options → Conn → Bool
is_local x o c =
    any_of c.ip_in private_cidrs
    || ((assets_available x && c.ip_in (codes "geoip:private"))
        || (any_of (says c.ip_in) o.direct_cidrs
            || any_of (says c.ip_in) (map (λ r. r ++ codes "/32") (resolvers x o))))

unfoldable pub meaning : Outside → Options → Settings → Conn → Destination
meaning x o s c =
    if text_eq c.inbound tag_api_in
    then the_api
    else if not (is_off s.dns_mode) && text_eq c.inbound tag_dns_in
    then the_resolver
    else if is_local x o c
    then directly
    else by_rules c o.rules

-- Where each destination is reached: with a group, the proxy is its balancer.
abbrev pub reached_by : Option Group → Destination → Route
reached_by g the_api = to_outbound tag_api
reached_by g the_resolver = to_outbound tag_dns_out
reached_by g directly = to_outbound tag_direct
reached_by g blocked = to_outbound tag_block
reached_by none proxied = to_outbound tag_proxy
reached_by (some g) proxied = to_balancer tag_balancer
