-- ===== src/Model/Settings.antt =====
-- The settings and their defaults (internal/model/model.go, `Settings`).
pub mod Normal
use x_divine_ray.Prelude.{
  ℕ, zero, suc, ◌+◌, Text, Bool, true, false, List, [], ◌∷◌, Option, none, some, codes, text_eq,
  if◌then◌else◌,
}
use x_divine_ray.Model.Int.{ℤ, pos, negsuc, lt}
use x_divine_ray.Model.Mode
use x_divine_ray.Model.Mode.{Mode}

pub data DnsMode : Type 0 where
  dnsmasq redirect off : DnsMode
  other : Text → DnsMode

pub data SniffMode : Type 0 where
  auto on off : SniffMode
  other : Text → SniffMode

pub data TargetKind : Type 0 where
  profile group : TargetKind
  other : Text → TargetKind

pub record Settings : Type 0 where
  pub enabled : Bool
  pub mode : Mode
  pub active : Text
  pub active_kind : TargetKind
  pub socks_port : ℤ
  pub http_port : ℤ
  pub tprox_port : ℤ
  pub dns_port : ℤ
  pub api_port : ℤ
  pub stats_port : ℤ
  pub dns : Text
  pub dns_mode : DnsMode
  pub log_level : Text
  pub allow_lan : Bool
  pub auto_connect : Bool
  pub ipv6 : Bool
  pub proxy_router : Bool
  pub block_quic : Bool
  pub sync_time : Bool
  pub conn_idle : ℤ
  pub keep_alive : ℤ
  pub sniff : SniffMode
  pub xray_bin : Text
  pub hev_bin : Text
  pub run_dir : Text
  pub tun_name : Text
  pub tun_addr : Text
  pub tun_mask : Text
  pub tun_mtu : ℤ
  pub fw_mark : Text
  pub route_table : ℤ
  pub lan_device : Text
  pub wan_device : Text
  pub update_check : Bool
  pub update_repo : Text
  pub bypass_ip : List Text
  pub bypass_mac : List Text

abbrev pub keep_alive_min : ℕ
keep_alive_min = 10

abbrev pub keep_alive_max : ℕ
keep_alive_max = 600

-- The fields that Go's zero value fills are written out.
unfoldable pub defaults : Settings
defaults = record {
  enabled = false;
  mode = Mode.mixed;
  active = [];
  active_kind = TargetKind.other [];
  socks_port = pos 10808;
  http_port = pos 10809;
  tprox_port = pos 12345;
  dns_port = pos 15353;
  api_port = pos 8787;
  stats_port = pos 10085;
  dns = codes "1.1.1.1";
  dns_mode = dnsmasq;
  log_level = codes "warning";
  allow_lan = true;
  auto_connect = true;
  ipv6 = false;
  proxy_router = false;
  block_quic = true;
  sync_time = true;
  conn_idle = pos 14400;
  keep_alive = pos 30;
  sniff = auto;
  xray_bin = codes "xray";
  hev_bin = codes "hev-socks5-tunnel";
  run_dir = codes "/var/run/xwrt";
  tun_name = codes "xwrt0";
  tun_addr = codes "198.18.0.1";
  tun_mask = codes "255.255.0.0";
  tun_mtu = pos 8500;
  fw_mark = codes "0x1e0";
  route_table = pos 180;
  lan_device = [];
  wan_device = [];
  update_check = true;
  update_repo = codes "ozgunokan/xDivine-Ray";
  bypass_ip = [];
  bypass_mac = [];
}

-- `if v == 0 { v = def }`
abbrev pub or_int : ℤ → ℤ → ℤ
or_int (pos zero) def = def
or_int (pos (suc n)) def = pos (suc n)
or_int (negsuc n) def = negsuc n

-- `if s == "" { s = def }`
abbrev pub or_text : Text → Text → Text
or_text [] def = def
or_text (c ∷ s) def = c ∷ s

abbrev pub or_dns_mode : DnsMode → DnsMode → DnsMode
or_dns_mode (DnsMode.other s) def = def
or_dns_mode m def = m

abbrev pub or_sniff : SniffMode → SniffMode → SniffMode
or_sniff (SniffMode.other s) def = def
or_sniff m def = m

abbrev pub kind_of : TargetKind → TargetKind
kind_of group = group
kind_of _ = profile

-- The positive values are checked in the order of the source's `switch`.
unfoldable pub normalize_keep_alive : ℤ → ℤ → ℤ
normalize_keep_alive (negsuc n) def = negsuc 0
normalize_keep_alive (pos zero) def = def
normalize_keep_alive (pos (suc n)) def =
    if lt (pos (suc n)) (pos keep_alive_min)
    then pos keep_alive_min
    else if lt (pos keep_alive_max) (pos (suc n))
    then pos keep_alive_max
    else pos (suc n)

unfoldable pub normalize : Settings → Settings
normalize s = record s {
  mode = if Mode.valid s.mode then s.mode else defaults.mode;
  active_kind = kind_of s.active_kind;
  socks_port = or_int s.socks_port defaults.socks_port;
  http_port = or_int s.http_port defaults.http_port;
  tprox_port = or_int s.tprox_port defaults.tprox_port;
  dns_port = or_int s.dns_port defaults.dns_port;
  api_port = or_int s.api_port defaults.api_port;
  stats_port = or_int s.stats_port defaults.stats_port;
  dns = or_text s.dns defaults.dns;
  dns_mode = or_dns_mode s.dns_mode defaults.dns_mode;
  log_level = or_text s.log_level defaults.log_level;
  conn_idle = or_int s.conn_idle defaults.conn_idle;
  keep_alive = normalize_keep_alive s.keep_alive defaults.keep_alive;
  sniff = or_sniff s.sniff defaults.sniff;
  xray_bin = or_text s.xray_bin defaults.xray_bin;
  hev_bin = or_text s.hev_bin defaults.hev_bin;
  run_dir = or_text s.run_dir defaults.run_dir;
  tun_name = or_text s.tun_name defaults.tun_name;
  tun_addr = or_text s.tun_addr defaults.tun_addr;
  tun_mask = or_text s.tun_mask defaults.tun_mask;
  tun_mtu = or_int s.tun_mtu defaults.tun_mtu;
  fw_mark = or_text s.fw_mark defaults.fw_mark;
  route_table = or_int s.route_table defaults.route_table;
}

-- `strconv.ParseInt(s, 0, 32)` is the parameter: a value, or an error.
module _ (parse_int : Text → Option ℤ) where
  abbrev mark_or : Option ℤ → ℕ
  mark_or (some (pos (suc n))) = suc n
  mark_or _ = 480

  -- The mark of the core's own packets; 480 is 0x1e0, the default.
  unfoldable pub mark_value : Settings → ℕ
  mark_value s = mark_or (parse_int s.fw_mark)

  unfoldable pub mark_tproxy : Settings → ℕ
  mark_tproxy s = mark_value s + 1

  unfoldable pub mark_tun_udp : Settings → ℕ
  mark_tun_udp s = mark_value s + 2
