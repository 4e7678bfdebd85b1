-- ===== src/Examples/Core.antt =====
-- A group of two servers with an exception for a bank and a port that is blocked, as the core's
-- configuration.
use x_divine_ray.Prelude.Trim.{trim, drop_space, is_space}
use x_divine_ray.Model.Profile.{credentials_error, network_known, security_known}
use x_divine_ray.Model.Profile
use x_divine_ray.Model.Strategy
use x_divine_ray.Model.Strategy.{validate_probe_url}
use x_divine_ray.Model.Rule.Validate
use x_divine_ray.Model.Rule.Validate.{
  has_matcher, needs_geo_data, all_ok, validate_domain_matcher, validate_port_spec,
  validate_port_part, validate_port_number, cut, split, contains,
}
use x_divine_ray.Ucicfg.Value.{atoi, digits_from, is_digit}
use x_divine_ray.Xray.Words.{pinned_cert_valid, pinned_cert_hex, or_else_text, has_header}
use x_divine_ray.Xray.Stream.{build_stream, secure, transport}
use x_divine_ray.Xray.Outbounds.{
  build_group_outbounds, member_outbounds, build_proxy_outbound, proto_settings,
}
use x_divine_ray.Xray.Rules.{build_user_rules}
use x_divine_ray.Xray.Build.{build_with, check, proxies}
use x_divine_ray.Prelude.{
  All, [], codes, false, none, refl, some, text_eq, true, ◌↔◌, ◌∷◌, ◌≡◌, has_prefix,
}
use x_divine_ray.Model.Rule as UserRules
use x_divine_ray.Model.Settings.{defaults, mark_value}
use x_divine_ray.Model.Strategy.{Group, least_ping}
use x_divine_ray.Xray.Config.{Config}
use x_divine_ray.Xray.Result.{ok, is_ok, is_ok_value}
use x_divine_ray.Xray.Stream.{all_features}
use x_divine_ray.Xray.Parts.{Options, Outside}
use x_divine_ray.Xray.Build.{build}
use x_divine_ray.Xray.Build.Closed.{IsClosed, build-IsClosed}
use x_divine_ray.Xray.Build.Marked.{Marked, build-Marked}
use x_divine_ray.Xray.Build.Complete.{CanBuild, build_iff}
use x_divine_ray.Xray.Routing.{Conn, tcp, route}
use x_divine_ray.Xray.Routing.Meaning.{meaning, reached_by}
use x_divine_ray.Xray.Routing.Refines.{route-meaning}
use x_divine_ray.Examples.Samples.{home, away}

abbrev no_matchers : UserRules.Rule
no_matchers = record {
  id = codes "r";
  name = [];
  enabled = true;
  action = UserRules.direct;
  domains = [];
  ips = [];
  sources = [];
  port = [];
  source_port = [];
  protocols = [];
  network = [];
}

abbrev device : Outside
device = record {
  is_ip = λ s. false;
  is_ip4 = λ s. false;
  is_loopback = λ s. false;
  parses_cidr = λ s. false;
  parse_url = λ s. none;
  parse_int = λ s. none;
  asset_env = [];
  has_geoip = λ s. false;
}

abbrev pair : Group
pair = record {
  id = codes "pair";
  name = [];
  strategy = least_ping;
  members = codes "home" ∷ codes "away" ∷ [];
  probe_url = [];
  probe_interval = [];
}

abbrev options : Options
options = record {
  profile = none;
  group = some pair;
  members = home ∷ away ∷ [];
  settings = some defaults;
  direct_cidrs = [];
  resolvers = [];
  rules =
      record no_matchers { domains = codes "bank.example" ∷ [] }
      ∷ record no_matchers { action = UserRules.block; port = codes "25" }
      ∷ [];
  caps = all_features;
  resolve = none;
}

options_build : is_ok (build device options) ≡ true
unfolding build build_with check proxies build_group_outbounds member_outbounds build_proxy_outbound
    proto_settings build_stream secure transport build_user_rules Profile.validate credentials_error
    network_known security_known Strategy.validate validate_probe_url Strategy.valid
    Validate.validate UserRules.valid has_matcher needs_geo_data all_ok validate_domain_matcher
    validate_port_spec validate_port_part validate_port_number cut split contains has_prefix trim
    drop_space is_space codes text_eq atoi digits_from is_digit pinned_cert_valid pinned_cert_hex
    or_else_text all_features has_header
options_build = refl

abbrev built : (cfg : Config) × (build device options ≡ ok cfg)
built = is_ok_value (build device options) options_build

-- A connection to the bank over TCP.
abbrev to_bank : Conn
to_bank = record {
  inbound = codes "socks-in";
  ip_in = λ s. false;
  under = λ d. text_eq d (codes "bank.example");
  domain_is = λ m. false;
  source_in = λ s. false;
  port_in = λ s. text_eq s (codes "443");
  source_port_in = λ s. false;
  net = tcp;
  protocol_is = λ s. text_eq s (codes "tls");
}

route-meaning_example :
    route to_bank built.0 ≡ reached_by (some pair) (meaning device options defaults to_bank)
route-meaning_example = route-meaning device options to_bank defaults built.0 refl built.1

build-IsClosed_example : IsClosed 2 built.0
build-IsClosed_example = build-IsClosed device options defaults built.0 refl built.1

build-Marked_example : All (Marked (mark_value device.parse_int defaults)) built.0.outbounds
build-Marked_example = build-Marked device options defaults built.0 refl built.1

build_iff_example : ((cfg : Config) × (build device options ≡ ok cfg)) ↔ CanBuild device options
build_iff_example = build_iff device options
