-- ===== src/Xray/Parts.antt =====
-- What Build is given, and the parts of the configuration besides the inbounds and the servers
-- (internal/xray/config.go).
use x_divine_ray.Prelude.{
  Bool, List, Option, Text, [], any_of, codes, false, if◌then◌else◌, map, none, not, some, true, ℕ,
  ◌&&◌, ◌++◌, ◌||◌, ◌∷◌,
}
use x_divine_ray.Fw.{dedupe}
use x_divine_ray.Model.Int.{ℤ, pos, lt}
use x_divine_ray.Model.Profile.{Profile, is_empty}
use x_divine_ray.Model.Rule as UserRules
use x_divine_ray.Model.Settings.{Settings, defaults}
use x_divine_ray.Model.Strategy.{Group, UrlParser, strategy_eq, least_ping, least_load, balance}
use x_divine_ray.Xray.Config.{
  Outbound, Rule, no_rule, Balancer, Observatory, BurstObservatory, DnsConfig, DnsServer, plain,
  scoped, no_stream, no_sockopt,
}
use x_divine_ray.Xray.Words.{upstream_dns}
use x_divine_ray.Xray.Stream.{Capabilities}
use x_divine_ray.Xray.Outbounds.{tag_proxy_prefix}
use x_divine_ray.Xray.Inbounds.{when, tag_api_in, tag_dns_in, dns_settings}
use x_divine_ray.Xray.Rules.{tag_direct, tag_block, bypassed_domains, local_resolvers, is_off}

pub record Options : Type 0 where
  pub profile : Option Profile
  pub group : Option Group
  pub members : List Profile
  pub settings : Option Settings
  pub direct_cidrs : List Text
  pub resolvers : List Text
  pub rules : List UserRules.Rule
  pub caps : Capabilities
  pub resolve : Option (Text → Text)

-- What the standard library and the device answer: `net.ParseIP(s) != nil`, whether that is an IPv4
-- address and a loopback one, whether net.ParseCIDR succeeds, url.Parse, strconv.ParseInt(s, 0, 32),
-- the directory that the environment names for the geo data, and which directories hold it.
pub record Outside : Type 0 where
  pub is_ip : Text → Bool
  pub is_ip4 : Text → Bool
  pub is_loopback : Text → Bool
  pub parses_cidr : Text → Bool
  pub parse_url : UrlParser
  pub parse_int : Text → Option ℤ
  pub asset_env : Text
  pub has_geoip : Text → Bool

unfoldable pub asset_dirs : Outside → List Text
asset_dirs x =
    x.asset_env
    ∷ codes "/usr/local/share/xray"
    ∷ codes "/usr/share/xray"
    ∷ codes "/usr/share/v2ray"
    ∷ []

unfoldable pub assets_available : Outside → Bool
assets_available x = any_of (λ dir. not (is_empty dir) && x.has_geoip dir) (asset_dirs x)

abbrev pub tag_dns_out : Text
tag_dns_out = codes "dns-out"

abbrev pub tag_api : Text
tag_api = codes "api"

abbrev is_nil {ℓ} : {A : Type ℓ} → List A → Bool
is_nil [] = true
is_nil (x ∷ xs) = false

abbrev pub private_cidrs : List Text
private_cidrs =
    codes "0.0.0.0/8"
    ∷ codes "10.0.0.0/8"
    ∷ codes "100.64.0.0/10"
    ∷ codes "127.0.0.0/8"
    ∷ codes "169.254.0.0/16"
    ∷ codes "172.16.0.0/12"
    ∷ codes "192.0.0.0/24"
    ∷ codes "192.168.0.0/16"
    ∷ codes "198.18.0.0/15"
    ∷ codes "224.0.0.0/4"
    ∷ codes "240.0.0.0/4"
    ∷ codes "255.255.255.255/32"
    ∷ codes "::1/128"
    ∷ codes "fc00::/7"
    ∷ codes "fe80::/10"
    ∷ []

unfoldable pub conn_idle_for : Settings → ℤ
conn_idle_for s = if lt (pos 0) s.conn_idle then s.conn_idle else defaults.conn_idle

unfoldable pub query_strategy : Settings → Text
query_strategy s = if s.ipv6 then codes "UseIP" else codes "UseIPv4"

abbrev pub direct_outbound : ℕ → Outbound
direct_outbound mark = record {
  tag = tag_direct;
  protocol = codes "freedom";
  settings = none;
  stream_settings = some (record no_stream {
    sockopt = some (record no_sockopt { mark = mark; domain_strategy = codes "UseIP" });
  });
  mux = none;
}

abbrev pub block_outbound : Outbound
block_outbound = record {
  tag = tag_block;
  protocol = codes "blackhole";
  settings = none;
  stream_settings = none;
  mux = none;
}

abbrev pub dns_outbound : Settings → ℕ → Outbound
dns_outbound s mark = record {
  tag = tag_dns_out;
  protocol = codes "dns";
  settings = some (dns_settings s (codes "tcp"));
  stream_settings = some (record no_stream { sockopt = some (record no_sockopt { mark = mark }) });
  mux = none;
}

-- What is added after the outbounds that lead to servers.
unfoldable pub other_outbounds : Settings → ℕ → List Outbound
other_outbounds s mark =
    direct_outbound mark
    ∷ block_outbound
    ∷ when (not (is_off s.dns_mode)) (dns_outbound s mark ∷ [])

-- Where a group's strategy gets the health of its members from.
unfoldable pub observatory_for : Option Group → Option Observatory
observatory_for none = none
observatory_for (some g) =
    if strategy_eq g.strategy least_ping
    then some (record {
      subject_selector = tag_proxy_prefix ∷ [];
      probe_url = g.probe_url;
      probe_interval = g.probe_interval;
    })
    else none

unfoldable pub burst_observatory_for : Option Group → Option BurstObservatory
burst_observatory_for none = none
burst_observatory_for (some g) =
    if strategy_eq g.strategy least_load || strategy_eq g.strategy balance
    then some (record {
      subject_selector = tag_proxy_prefix ∷ [];
      ping_config = record {
        destination = g.probe_url;
        interval = g.probe_interval;
        timeout = codes "10s";
        sampling = 3;
      };
    })
    else none

module _ (x : Outside) (o : Options) where
  abbrev pub resolvers : List Text
  resolvers = local_resolvers x.is_ip x.is_ip4 x.is_loopback o.resolvers

  -- The resolver for the domains that are bypassed, and the upstream one.
  unfoldable pub dns_servers : Settings → List DnsServer
  dns_servers s =
      let local : List Text = bypassed_domains o.rules in
      (if is_nil local then [] else map (λ r. scoped r local) resolvers)
      ++ plain (upstream_dns s.dns) ∷ []

  unfoldable pub dns_config : Settings → Option DnsConfig
  dns_config s =
      if is_off s.dns_mode
      then none
      else some (record { servers = dns_servers s; query_strategy = query_strategy s })

  -- The networks that are reached directly, whatever the operator's rules say.
  unfoldable pub direct_networks : List Text
  direct_networks = dedupe (
      private_cidrs
      ++ (when (assets_available x) (codes "geoip:private" ∷ [])
          ++ (o.direct_cidrs ++ map (λ r. r ++ codes "/32") resolvers)))

  -- The rules before those of the operator.
  unfoldable pub first_rules : Settings → List Rule
  first_rules s =
      record no_rule { inbound_tag = tag_api_in ∷ []; outbound_tag = tag_api }
      ∷ (when (not (is_off s.dns_mode))
            (record no_rule { inbound_tag = tag_dns_in ∷ []; outbound_tag = tag_dns_out } ∷ [])
          ++ record no_rule { ip = direct_networks; outbound_tag = tag_direct } ∷ [])

-- The rule behind all others that hands what is left to the balancer.
unfoldable pub catch_all : Option Balancer → List Rule
catch_all none = []
catch_all (some b) = record no_rule { network = codes "tcp,udp"; balancer_tag = b.tag } ∷ []
