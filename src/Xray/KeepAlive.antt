-- ===== src/Xray/KeepAlive.antt =====
-- The pings and probes that keep the tunnel's own connections alive (internal/xray/keepalive.go).
use x_divine_ray.Prelude.{
  List, Option, Text, [], any_of, codes, if◌then◌else◌, map, none, some, text_eq, ◌∷◌,
}
use x_divine_ray.Model.Int.{ℤ, pos, lt}
use x_divine_ray.Xray.Config.{Config, Outbound, StreamSettings, Sockopt, no_sockopt, WsSettings}

abbrev pub keep_alive_protocols : List Text
keep_alive_protocols = codes "vless" ∷ codes "vmess" ∷ codes "trojan" ∷ codes "shadowsocks" ∷ []

abbrev pub keep_alive_networks : List Text
keep_alive_networks =
    []
    ∷ codes "tcp"
    ∷ codes "raw"
    ∷ codes "ws"
    ∷ codes "httpupgrade"
    ∷ codes "grpc"
    ∷ codes "h2"
    ∷ []

abbrev pub with_heartbeat : ℤ → Text → Option WsSettings → Option WsSettings
with_heartbeat seconds network none = none
with_heartbeat seconds network (some ws) =
    if text_eq network (codes "ws")
    then some (record ws { heartbeat_period = seconds })
    else some ws

abbrev sockopt_or_new : Option Sockopt → Sockopt
sockopt_or_new none = no_sockopt
sockopt_or_new (some o) = o

abbrev pub with_probes : ℤ → Option Sockopt → Sockopt
with_probes seconds o = record (sockopt_or_new o) {
  tcp_keep_alive_idle = seconds;
  tcp_keep_alive_interval = seconds;
}

unfoldable pub keep_stream_alive : ℤ → StreamSettings → StreamSettings
keep_stream_alive seconds ss =
    if any_of (text_eq ss.network) keep_alive_networks
    then record ss {
      ws = with_heartbeat seconds ss.network ss.ws;
      sockopt = some (with_probes seconds ss.sockopt);
    }
    else ss

abbrev pub on_stream : ℤ → Option StreamSettings → Option StreamSettings
on_stream seconds none = none
on_stream seconds (some ss) = some (keep_stream_alive seconds ss)

-- The body of the loop.
unfoldable pub keep_alive : ℤ → Outbound → Outbound
keep_alive seconds out =
    if any_of (text_eq out.protocol) keep_alive_protocols
    then record out { stream_settings = on_stream seconds out.stream_settings }
    else out

unfoldable pub apply_keep_alive : ℤ → Config → Config
apply_keep_alive seconds cfg =
    if lt (pos 0) seconds
    then record cfg { outbounds = map (keep_alive seconds) cfg.outbounds }
    else cfg
