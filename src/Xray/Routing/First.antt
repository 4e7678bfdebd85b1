-- ===== src/Xray/Routing/First.antt =====
-- What the rules that stand before the operator's do with a connection.
use x_divine_ray.Prelude.{
  Bool, List, Text, [], any_of, codes, false, if◌then◌else◌, map, not, refl, text_eq, true, ◌&&◌,
  ◌++◌, ◌∙◌, ◌∷◌, ◌≡◌, arith, ◌||◌,
}
use x_divine_ray.Fw.{dedupe, dedupe_from}
use x_divine_ray.Fw.Bypass.{says, dedupe-any_of, any_of-++}
use x_divine_ray.Prelude.Trim.{trim, drop_space, is_space}
use x_divine_ray.Model.Settings.{Settings}
use x_divine_ray.Xray.Config.{Rule}
use x_divine_ray.Xray.Rules.{tag_direct, is_off}
use x_divine_ray.Xray.Parts.{
  Options, Outside, assets_available, private_cidrs, direct_networks, resolvers, first_rules,
  tag_api, tag_dns_out,
}
use x_divine_ray.Xray.Inbounds.{when, tag_api_in, tag_dns_in}
use x_divine_ray.Xray.Routing.{Conn, Route, to_outbound, matches, holds_one, route_by}
use x_divine_ray.Xray.Routing.Meaning.{is_local}

private_says : (f : Text → Bool) → any_of (says f) private_cidrs ≡ any_of f private_cidrs
unfolding codes text_eq trim drop_space is_space
private_says f = refl

geo_says :
    (b : Bool) (f : Text → Bool)
    → any_of (says f) (when b (codes "geoip:private" ∷ [])) ≡ (b && f (codes "geoip:private"))
unfolding codes text_eq trim drop_space is_space
geo_says true f = ground arith
geo_says false f = refl

any_of_four :
    (f : Text → Bool) (ps bs cs ds : List Text) {a b : Bool}
    → any_of f ps ≡ a
    → any_of f bs ≡ b
    → any_of f (ps ++ (bs ++ (cs ++ ds))) ≡ (a || (b || (any_of f cs || any_of f ds)))
any_of_four f ps bs cs ds p q =
    any_of-++ f ps (bs ++ (cs ++ ds))
    ∙ rw (any_of-++ f bs (cs ++ ds)) (rw (any_of-++ f cs ds) (rw p (rw q refl)))

module _ (x : Outside) (o : Options) (c : Conn) where
  direct_networks-is_local : any_of c.ip_in (direct_networks x o) ≡ is_local x o c
  unfolding direct_networks is_local
  direct_networks-is_local =
      dedupe-any_of c.ip_in (
        private_cidrs
        ++ (when (assets_available x) (codes "geoip:private" ∷ [])
            ++ (o.direct_cidrs ++ map (λ r. r ++ codes "/32") (resolvers x o))))
      ∙ any_of_four (says c.ip_in) private_cidrs
          (when (assets_available x) (codes "geoip:private" ∷ [])) o.direct_cidrs
          (map (λ r. r ++ codes "/32") (resolvers x o)) (private_says c.ip_in)
          (geo_says (assets_available x) c.ip_in)

  direct_networks_some :
      holds_one c.ip_in (direct_networks x o) ≡ any_of c.ip_in (direct_networks x o)
  unfolding direct_networks dedupe dedupe_from codes text_eq trim drop_space is_space
  direct_networks_some = refl

  pub route_by-first_rules :
      (s : Settings) (last : Route) (more : List Rule)
      → route_by c last (first_rules x o s ++ more) ≡ (
          if text_eq c.inbound tag_api_in
          then to_outbound tag_api
          else if not (is_off s.dns_mode) && text_eq c.inbound tag_dns_in
          then to_outbound tag_dns_out
          else if is_local x o c
          then to_outbound tag_direct
          else route_by c last more)
  unfolding first_rules route_by matches
  route_by-first_rules s last more = ground (arith, direct_networks_some ∙ direct_networks-is_local)
