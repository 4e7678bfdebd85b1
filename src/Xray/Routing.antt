-- ===== src/Xray/Routing.antt =====
-- How the core routes a connection by its configuration, as its documentation has it: the first rule
-- all of whose conditions hold decides, and where none does, the first outbound takes the connection.
-- A condition with several entries holds if one of them does, and one that is absent always holds. How
-- an address, a name or a port is matched against an entry is the core's: the connection brings the
-- answers as functions. A rule without any condition, which the core refuses, is read as one that
-- holds.
pub mod Meaning
pub mod Matchers
pub mod First
pub mod Refines
use x_divine_ray.Prelude.{
  Bool, List, Text, [], any_of, codes, drop, has_prefix, if◌then◌else◌, text_eq, true, ◌&&◌, ◌∷◌,
}
use x_divine_ray.Model.Profile.{is_empty}
use x_divine_ray.Model.Rule.Validate.{split}
use x_divine_ray.Xray.Config.{Config, Outbound, Rule}

pub data Net : Type 0 where
  tcp udp : Net

abbrev pub net_text : Net → Text
net_text tcp = codes "tcp"
net_text udp = codes "udp"

-- `under d` says that the name is d or below it; `domain_is` answers for entries of other kinds.
pub record Conn : Type 0 where
  pub inbound : Text
  pub ip_in : Text → Bool
  pub under : Text → Bool
  pub domain_is : Text → Bool
  pub source_in : Text → Bool
  pub port_in : Text → Bool
  pub source_port_in : Text → Bool
  pub net : Net
  pub protocol_is : Text → Bool

abbrev pub holds_one : (Text → Bool) → List Text → Bool
holds_one f [] = true
holds_one f (v ∷ vs) = any_of f (v ∷ vs)

abbrev pub holds_text : (Text → Bool) → Text → Bool
holds_text f [] = true
holds_text f (c ∷ s) = f (c ∷ s)

unfoldable pub domain_matches : Conn → Text → Bool
domain_matches c m = if has_prefix m (codes "domain:") then c.under (drop 7 m) else c.domain_is m

unfoldable pub network_matches : Conn → Text → Bool
network_matches c t = any_of (text_eq (net_text c.net)) (split 44 t)

unfoldable pub matches : Conn → Rule → Bool
matches c r =
    holds_one (text_eq c.inbound) r.inbound_tag
    && (holds_one c.ip_in r.ip
        && (holds_one (domain_matches c) r.domain
            && (holds_one c.source_in r.source
                && (holds_text c.port_in r.port
                    && (holds_text c.source_port_in r.source_port
                        && (holds_text (network_matches c) r.network
                            && holds_one c.protocol_is r.protocol))))))

pub data Route : Type 0 where
  to_outbound to_balancer : Text → Route

abbrev pub rule_target : Rule → Route
rule_target r =
    if is_empty r.balancer_tag then to_outbound r.outbound_tag else to_balancer r.balancer_tag

abbrev pub first_of : List Outbound → Route
first_of [] = to_outbound []
first_of (out ∷ outs) = to_outbound out.tag

unfoldable pub route_by : Conn → Route → List Rule → Route
route_by c last [] = last
route_by c last (r ∷ rs) = if matches c r then rule_target r else route_by c last rs

unfoldable pub route : Conn → Config → Route
route c cfg = route_by c (first_of cfg.outbounds) cfg.routing.rules
