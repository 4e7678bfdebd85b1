-- ===== src/Xray/Inbounds.antt =====
-- The inbounds of the core (internal/xray/config.go, Build and dnsListen).
use x_divine_ray.Prelude.{
  Bool, List, Text, [], codes, if◌then◌else◌, none, not, some, true, ◌++◌, ◌||◌, ◌∷◌,
}
use x_divine_ray.Model.Int.{pos, lt}
use x_divine_ray.Model.Mode
use x_divine_ray.Model.Rule as UserRules
use x_divine_ray.Model.Settings.{Settings, DnsMode, dnsmasq}
use x_divine_ray.Xray.Config.{
  Inbound, Json, text, number, flag, object, end, field, no_stream, no_sockopt,
}
use x_divine_ray.Xray.Rules.{sniffing_for, is_off}

abbrev pub tag_api_in : Text
tag_api_in = codes "api-in"

abbrev pub tag_socks_in : Text
tag_socks_in = codes "socks-in"

abbrev pub tag_http_in : Text
tag_http_in = codes "http-in"

abbrev pub tag_transparent : Text
tag_transparent = codes "transparent-in"

abbrev pub tag_dns_in : Text
tag_dns_in = codes "dns-in"

abbrev pub when {ℓ} : {A : Type ℓ} → Bool → List A → List A
when b xs = if b then xs else []

unfoldable pub dns_listen : DnsMode → Text
dns_listen dnsmasq = codes "127.0.0.1"
dns_listen m = codes "0.0.0.0"

-- An address, a port and a network, as the DNS inbound and outbound have them.
abbrev pub dns_settings : Settings → Text → Json
dns_settings s network = object (
    field (codes "address") (text s.dns)
      (field (codes "port") (number (pos 53)) (field (codes "network") (text network) end)))

module _ (s : Settings) (rules : List UserRules.Rule) where
  unfoldable pub api_inbound : Inbound
  api_inbound = record {
    tag = tag_api_in;
    listen = codes "127.0.0.1";
    port = s.stats_port;
    protocol = codes "dokodemo-door";
    settings = some (object (field (codes "address") (text (codes "127.0.0.1")) end));
    stream_settings = none;
    sniffing = none;
  }

  abbrev listen : Text
  listen = if s.allow_lan then codes "0.0.0.0" else codes "127.0.0.1"

  unfoldable pub socks_inbound : Inbound
  socks_inbound = record {
    tag = tag_socks_in;
    listen = listen;
    port = s.socks_port;
    protocol = codes "socks";
    settings = some (
        object (
          field (codes "auth") (text (codes "noauth"))
            (field (codes "udp") (flag true) (field (codes "ip") (text (codes "127.0.0.1")) end))));
    stream_settings = none;
    sniffing = some (sniffing_for s rules);
  }

  unfoldable pub http_inbound : Inbound
  http_inbound = record {
    tag = tag_http_in;
    listen = listen;
    port = s.http_port;
    protocol = codes "http";
    settings = none;
    stream_settings = none;
    sniffing = some (sniffing_for s rules);
  }

  unfoldable pub transparent_inbound : Inbound
  transparent_inbound = record {
    tag = tag_transparent;
    listen = codes "0.0.0.0";
    port = s.tprox_port;
    protocol = codes "dokodemo-door";
    settings = some (
        object (
          field (codes "network")
            (text (if Mode.captures_udp_via_tproxy s.mode then codes "tcp,udp" else codes "tcp"))
            (field (codes "followRedirect") (flag true) end)));
    stream_settings =
        if Mode.captures_tcp_via_tproxy s.mode || Mode.captures_udp_via_tproxy s.mode
        then some
            (record no_stream { sockopt = some (record no_sockopt { tproxy = codes "tproxy" }) })
        else none;
    sniffing = some (sniffing_for s rules);
  }

  unfoldable pub dns_inbound : Inbound
  dns_inbound = record {
    tag = tag_dns_in;
    listen = dns_listen s.dns_mode;
    port = s.dns_port;
    protocol = codes "dokodemo-door";
    settings = some (dns_settings s (codes "tcp,udp"));
    stream_settings = none;
    sniffing = none;
  }

  unfoldable pub inbounds : List Inbound
  inbounds =
      (api_inbound ∷ socks_inbound ∷ [])
      ++ (when (lt (pos 0) s.http_port) (http_inbound ∷ [])
          ++ (when (Mode.needs_firewall_capture s.mode) (transparent_inbound ∷ [])
              ++ when (not (is_off s.dns_mode)) (dns_inbound ∷ [])))
