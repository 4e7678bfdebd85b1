-- ===== src/Ucicfg/Store/Main.antt =====
-- The section of the settings (internal/ucicfg/store.go, load and save).
pub mod Kept
use x_divine_ray.Prelude.{
  Bool, List, Text, [], codes, false, if◌then◌else◌, ◌∷◌, ◌++◌, true, ◌&&◌, not,
}
use x_divine_ray.Model.Int.{ℤ, pos, negsuc}
use x_divine_ray.Model.Mode
use x_divine_ray.Model.Mode.{Mode, mode_eq}
use x_divine_ray.Model.Settings.{Settings, defaults, normalize}
use x_divine_ray.Ucicfg.Names.{
  mode_text, mode_of, kind_text, kind_named, sniff_text, sniff_of, dns_text, dns_of,
}
use x_divine_ray.Ucicfg.Value.{itoa, to_int, to_bool, from_bool, or_default}
use x_divine_ray.Ucicfg.Syntax.{Section, new_section, get, list}
use x_divine_ray.Ucicfg.Store.{set_all, set_some, put_list}

abbrev pub main_options : Settings → List (Text × Text)
main_options s =
    (codes "enabled", from_bool s.enabled)
    ∷ (codes "mode", mode_text s.mode)
    ∷ (codes "active", s.active)
    ∷ (codes "active_kind", kind_text s.active_kind)
    ∷ (codes "socks_port", itoa s.socks_port)
    ∷ (codes "http_port", itoa s.http_port)
    ∷ (codes "tproxy_port", itoa s.tprox_port)
    ∷ (codes "dns_port", itoa s.dns_port)
    ∷ (codes "api_port", itoa s.api_port)
    ∷ (codes "conn_idle", itoa s.conn_idle)
    ∷ (codes "keepalive", itoa s.keep_alive)
    ∷ (codes "sniff", sniff_text s.sniff)
    ∷ (codes "stats_port", itoa s.stats_port)
    ∷ (codes "dns", s.dns)
    ∷ (codes "dns_mode", dns_text s.dns_mode)
    ∷ (codes "proxy_router", from_bool s.proxy_router)
    ∷ (codes "block_quic", from_bool s.block_quic)
    ∷ (codes "sync_time", from_bool s.sync_time)
    ∷ (codes "log_level", s.log_level)
    ∷ (codes "allow_lan", from_bool s.allow_lan)
    ∷ (codes "auto_connect", from_bool s.auto_connect)
    ∷ (codes "update_check", from_bool s.update_check)
    ∷ (codes "update_repo", s.update_repo)
    ∷ (codes "ipv6", from_bool s.ipv6)
    ∷ (codes "xray_bin", s.xray_bin)
    ∷ (codes "hev_bin", s.hev_bin)
    ∷ (codes "run_dir", s.run_dir)
    ∷ (codes "tun_name", s.tun_name)
    ∷ (codes "tun_addr", s.tun_addr)
    ∷ (codes "tun_mask", s.tun_mask)
    ∷ (codes "tun_mtu", itoa s.tun_mtu)
    ∷ (codes "fwmark", s.fw_mark)
    ∷ (codes "route_table", itoa s.route_table)
    ∷ []

unfoldable pub save_main : Settings → Section
save_main s = put_list (codes "bypass_mac") s.bypass_mac (
    put_list (codes "bypass_ip") s.bypass_ip (
      set_some ((codes "lan_device", s.lan_device) ∷ (codes "wan_device", s.wan_device) ∷ [])
        (set_all (main_options s) (new_section (codes "xwrt") (codes "main") false))))

-- `if v := m.Get(k); v != "" { field = f(v) }`
abbrev pub when_set {ℓ} : {A : Type ℓ} → Text → (Text → A) → A → A
when_set [] f def = def
when_set (c ∷ v) f def = f (c ∷ v)

-- The option that redirect mode once had, which mixed mode took over.
abbrev pub migrated : Mode → Text → Mode
migrated m [] = m
migrated m (c ∷ v) = if mode_eq m Mode.redirect && to_bool (c ∷ v) false then Mode.mixed else m

-- The settings as the options give them, over the defaults.
unfoldable pub read_main : Section → Settings
read_main m = record {
  enabled = to_bool (get m (codes "enabled")) defaults.enabled;
  mode =
      migrated (when_set (get m (codes "mode")) mode_of defaults.mode) (get m (codes "proxy_udp"));
  active = get m (codes "active");
  active_kind = when_set (get m (codes "active_kind")) kind_named defaults.active_kind;
  socks_port = to_int (get m (codes "socks_port")) defaults.socks_port;
  http_port = to_int (get m (codes "http_port")) defaults.http_port;
  tprox_port = to_int (get m (codes "tproxy_port")) defaults.tprox_port;
  dns_port = to_int (get m (codes "dns_port")) defaults.dns_port;
  api_port = to_int (get m (codes "api_port")) defaults.api_port;
  stats_port = to_int (get m (codes "stats_port")) defaults.stats_port;
  dns = or_default (get m (codes "dns")) defaults.dns;
  dns_mode = when_set (get m (codes "dns_mode")) dns_of defaults.dns_mode;
  log_level = or_default (get m (codes "log_level")) defaults.log_level;
  allow_lan = to_bool (get m (codes "allow_lan")) defaults.allow_lan;
  auto_connect = to_bool (get m (codes "auto_connect")) defaults.auto_connect;
  ipv6 = to_bool (get m (codes "ipv6")) defaults.ipv6;
  proxy_router = to_bool (get m (codes "proxy_router")) defaults.proxy_router;
  block_quic = to_bool (get m (codes "block_quic")) defaults.block_quic;
  sync_time = to_bool (get m (codes "sync_time")) defaults.sync_time;
  conn_idle = to_int (get m (codes "conn_idle")) defaults.conn_idle;
  keep_alive = to_int (get m (codes "keepalive")) defaults.keep_alive;
  sniff = when_set (get m (codes "sniff")) sniff_of defaults.sniff;
  xray_bin = or_default (get m (codes "xray_bin")) defaults.xray_bin;
  hev_bin = or_default (get m (codes "hev_bin")) defaults.hev_bin;
  run_dir = or_default (get m (codes "run_dir")) defaults.run_dir;
  tun_name = or_default (get m (codes "tun_name")) defaults.tun_name;
  tun_addr = or_default (get m (codes "tun_addr")) defaults.tun_addr;
  tun_mask = or_default (get m (codes "tun_mask")) defaults.tun_mask;
  tun_mtu = to_int (get m (codes "tun_mtu")) defaults.tun_mtu;
  fw_mark = or_default (get m (codes "fwmark")) defaults.fw_mark;
  route_table = to_int (get m (codes "route_table")) defaults.route_table;
  lan_device = get m (codes "lan_device");
  wan_device = get m (codes "wan_device");
  update_check = to_bool (get m (codes "update_check")) defaults.update_check;
  update_repo = or_default (get m (codes "update_repo")) defaults.update_repo;
  bypass_ip = list m (codes "bypass_ip");
  bypass_mac = list m (codes "bypass_mac");
}

unfoldable pub load_main : Section → Settings
load_main m = normalize (read_main m)
