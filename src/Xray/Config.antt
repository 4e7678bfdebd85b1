-- ===== src/Xray/Config.antt =====
-- The core's configuration as a value (internal/xray/config.go, the types above Build). A pointer or
-- an absent object is an Option, and a `map[string]any` is a JSON object with its keys in the order
-- they are written in.
use x_divine_ray.Prelude.{Bool, List, Option, Text, [], none, ℕ}
use x_divine_ray.Model.Int.{ℤ, pos}

-- The values that the settings of an inbound or outbound are made of.
mutual
  pub data Json : Type 0 where
    text : Text → Json
    number : ℤ → Json
    flag : Bool → Json
    array : Items → Json
    object : Fields → Json

  pub data Items : Type 0 where
    nil : Items
    item : Json → Items → Items

  pub data Fields : Type 0 where
    end : Fields
    field : Text → Json → Fields → Fields

pub record Observatory : Type 0 where
  pub subject_selector : List Text
  pub probe_url : Text
  pub probe_interval : Text

pub record PingConfig : Type 0 where
  pub destination : Text
  pub interval : Text
  pub timeout : Text
  pub sampling : ℕ

pub record BurstObservatory : Type 0 where
  pub subject_selector : List Text
  pub ping_config : PingConfig

-- `expected` is the settings object of the strategy, which has this one field.
pub record BalancerStrategy : Type 0 where
  pub kind : Text
  pub expected : Option ℕ

pub record Balancer : Type 0 where
  pub tag : Text
  pub selector : List Text
  pub strategy : BalancerStrategy
  pub fallback_tag : Text

pub record LogConfig : Type 0 where
  pub log_level : Text
  pub access : Text

pub record ApiConfig : Type 0 where
  pub tag : Text
  pub services : List Text

-- SystemPolicy, and the one level that is written, with its one field.
pub record PolicyConfig : Type 0 where
  pub stats_outbound_uplink : Bool
  pub stats_outbound_downlink : Bool
  pub conn_idle : ℤ

-- An entry of DNSConfig.Servers: a plain address, or a DNSServer.
pub data DnsServer : Type 0 where
  plain : Text → DnsServer
  scoped : Text → List Text → DnsServer

pub record DnsConfig : Type 0 where
  pub servers : List DnsServer
  pub query_strategy : Text

pub record Sniffing : Type 0 where
  pub enabled : Bool
  pub dest_override : List Text
  pub route_only : Bool

pub record Sockopt : Type 0 where
  pub mark : ℕ
  pub tproxy : Text
  pub domain_strategy : Text
  pub tcp_keep_alive_idle : ℤ
  pub tcp_keep_alive_interval : ℤ

-- Go's zero value.
abbrev pub no_sockopt : Sockopt
no_sockopt = record {
  mark = 0;
  tproxy = [];
  domain_strategy = [];
  tcp_keep_alive_idle = pos 0;
  tcp_keep_alive_interval = pos 0;
}

pub record TlsSettings : Type 0 where
  pub server_name : Text
  pub allow_insecure : Bool
  pub fingerprint : Text
  pub alpn : List Text
  pub pinned_peer_cert_sha256 : Text

pub record RealitySettings : Type 0 where
  pub server_name : Text
  pub fingerprint : Text
  pub public_key : Text
  pub short_id : Text
  pub spider_x : Text

-- A header's kind, and the request that one of kind http carries.
pub record Header : Type 0 where
  pub kind : Text
  pub request : Option Json

-- `headers` is the value of the one header, Host, that is ever written.
pub record WsSettings : Type 0 where
  pub path : Text
  pub host : Text
  pub headers : Option Text
  pub heartbeat_period : ℤ

pub record GrpcSettings : Type 0 where
  pub service_name : Text
  pub multi_mode : Bool

pub record HttpSettings : Type 0 where
  pub path : Text
  pub host : List Text

pub record KcpSettings : Type 0 where
  pub mtu : ℕ
  pub tti : ℕ
  pub uplink_capacity : ℕ
  pub downlink_capacity : ℕ
  pub congestion : Bool
  pub read_buffer_size : ℕ
  pub write_buffer_size : ℕ
  pub header : Option Header
  pub seed : Text

pub record QuicSettings : Type 0 where
  pub security : Text
  pub key : Text
  pub header : Option Header

pub record XhttpSettings : Type 0 where
  pub path : Text
  pub host : Text
  pub mode : Text

pub record HttpUpgradeSettings : Type 0 where
  pub path : Text
  pub host : Text

pub record StreamSettings : Type 0 where
  pub network : Text
  pub security : Text
  pub tls : Option TlsSettings
  pub reality : Option RealitySettings
  pub tcp : Option Header
  pub ws : Option WsSettings
  pub grpc : Option GrpcSettings
  pub http : Option HttpSettings
  pub kcp : Option KcpSettings
  pub quic : Option QuicSettings
  pub xhttp : Option XhttpSettings
  pub http_upgrade : Option HttpUpgradeSettings
  pub sockopt : Option Sockopt

abbrev pub no_stream : StreamSettings
no_stream = record {
  network = [];
  security = [];
  tls = none;
  reality = none;
  tcp = none;
  ws = none;
  grpc = none;
  http = none;
  kcp = none;
  quic = none;
  xhttp = none;
  http_upgrade = none;
  sockopt = none;
}

pub record MuxConfig : Type 0 where
  pub enabled : Bool
  pub concurrency : ℤ
  pub xudp_concurrency : ℕ
  pub xudp_proxy_udp443 : Text

pub record Inbound : Type 0 where
  pub tag : Text
  pub listen : Text
  pub port : ℤ
  pub protocol : Text
  pub settings : Option Json
  pub stream_settings : Option StreamSettings
  pub sniffing : Option Sniffing

pub record Outbound : Type 0 where
  pub tag : Text
  pub protocol : Text
  pub settings : Option Json
  pub stream_settings : Option StreamSettings
  pub mux : Option MuxConfig

pub record Rule : Type 0 where
  pub inbound_tag : List Text
  pub outbound_tag : Text
  pub balancer_tag : Text
  pub ip : List Text
  pub domain : List Text
  pub source : List Text
  pub port : Text
  pub source_port : Text
  pub network : Text
  pub protocol : List Text

-- The zero value of a rule, but for its type, which is "field" in every rule.
abbrev pub no_rule : Rule
no_rule = record {
  inbound_tag = [];
  outbound_tag = [];
  balancer_tag = [];
  ip = [];
  domain = [];
  source = [];
  port = [];
  source_port = [];
  network = [];
  protocol = [];
}

pub record RoutingConfig : Type 0 where
  pub domain_strategy : Text
  pub balancers : List Balancer
  pub rules : List Rule

pub record Config : Type 0 where
  pub log : LogConfig
  pub api : ApiConfig
  pub policy : PolicyConfig
  pub dns : Option DnsConfig
  pub observatory : Option Observatory
  pub burst_observatory : Option BurstObservatory
  pub inbounds : List Inbound
  pub outbounds : List Outbound
  pub routing : RoutingConfig
