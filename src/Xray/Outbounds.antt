-- ===== src/Xray/Outbounds.antt =====
-- One outbound for a server, and one for each member of a group with the balancer between them
-- (internal/xray/config.go: buildProxyOutbound, buildGroupOutbounds, strategyFor, serverAddress).
pub mod Shape
use x_divine_ray.Prelude.{
  Bool, List, Option, Text, [], codes, if◌then◌else◌, length, ltb, none, some, true, ℕ, ◌++◌, ◌+◌,
  ◌∷◌,
}
use x_divine_ray.Model.Int.{pos, negsuc}
use x_divine_ray.Model.Profile.{Proto, vless, vmess, trojan, shadowsocks, other, Profile, is_empty}
use x_divine_ray.Model.Profile
use x_divine_ray.Model.Strategy.{Strategy, least_load, balance, Group, health_aware}
use x_divine_ray.Ucicfg.Names.{proto_text, strategy_text}
use x_divine_ray.Ucicfg.Syntax.{decimal}
use x_divine_ray.Xray.Config.{
  Json, text, number, flag, array, object, nil, item, end, field, Fields, MuxConfig, Outbound,
  BalancerStrategy, Balancer,
}
use x_divine_ray.Xray.Words.{or_else_text}
use x_divine_ray.Xray.Result.{
  Result, ok, err, ◌>>=◌, checked, wrapped, bad_profile, unsupported, of_member,
}
use x_divine_ray.Xray.Stream.{Capabilities, build_stream}

abbrev pub tag_proxy : Text
tag_proxy = codes "proxy"

abbrev pub tag_balancer : Text
tag_balancer = codes "balancer"

abbrev pub tag_proxy_prefix : Text
tag_proxy_prefix = codes "proxy-"

-- fmt.Sprintf("%s%d", TagProxyPrefix, i)
abbrev pub member_tag : ℕ → Text
member_tag i = tag_proxy_prefix ++ decimal i

-- `net.ParseIP(s) != nil` and the caller's resolver, which may be missing.
module _ (is_ip : Text → Bool) (resolve : Option (Text → Text)) where
  unfoldable pub server_address : Profile → Text
  server_address p = elim resolve [
    | none ↦ p.address
    | some look_up ↦
        if is_ip p.address then p.address else or_else_text (look_up p.address) p.address
  ]

  abbrev one_object : Text → Fields → Json
  one_object key fields = object (field key (array (item (object fields) nil)) end)

  abbrev with_user : Profile → Fields → Fields
  with_user p user = field (codes "address") (text (server_address p)) (
      field (codes "port") (number p.port)
        (field (codes "users") (array (item (object user) nil)) end))

  -- The `switch p.Proto`: the settings of the outbound.
  unfoldable pub proto_settings : Proto → Profile → Result Json
  proto_settings vless p = ok (
      one_object (codes "vnext") (
        with_user p (
          field (codes "id") (text p.uuid) (
            field (codes "encryption") (text (or_else_text p.encryption (codes "none")))
              (if is_empty p.flow then end else field (codes "flow") (text p.flow) end)))))
  proto_settings vmess p = ok (
      one_object (codes "vnext") (
        with_user p (
          field (codes "id") (text p.uuid) (
            field (codes "alterId") (number p.alter_id)
              (field (codes "security") (text (or_else_text p.encryption (codes "auto"))) end)))))
  proto_settings trojan p = ok (
      one_object (codes "servers") (
        field (codes "address") (text (server_address p))
          (field (codes "port") (number p.port) (field (codes "password") (text p.password) end))))
  proto_settings shadowsocks p = ok (
      one_object (codes "servers") (
        field (codes "address") (text (server_address p)) (
          field (codes "port") (number p.port) (
            field (codes "method") (text p.method)
              (field (codes "password") (text p.password) (field (codes "uot") (flag true) end))))))
  proto_settings (other s) p = err (unsupported (other s))

  abbrev mux_for : Profile → MuxConfig
  mux_for p = record {
    enabled = true;
    concurrency = if p.mux then pos 8 else negsuc 0;
    xudp_concurrency = 16;
    xudp_proxy_udp443 = codes "allow";
  }

  unfoldable pub build_proxy_outbound : Profile → Text → ℕ → Capabilities → Result Outbound
  build_proxy_outbound p tag mark caps = do
    _ ← checked bad_profile (Profile.validate is_ip p)
    settings ← proto_settings p.proto p
    ss ← build_stream p mark caps
    ok (record {
      tag = tag;
      protocol = proto_text p.proto;
      settings = some settings;
      stream_settings = some ss;
      mux = some (mux_for p);
    })

  -- The loop of buildGroupOutbounds, from the member at `i`.
  unfoldable pub member_outbounds : ℕ → List Profile → ℕ → Capabilities → Result (List Outbound)
  member_outbounds i [] mark caps = ok []
  member_outbounds i (p ∷ ps) mark caps = do
    out ← wrapped (of_member p) (build_proxy_outbound p (member_tag i) mark caps)
    outs ← member_outbounds (i + 1) ps mark caps
    ok (out ∷ outs)

unfoldable pub strategy_for : Strategy → ℕ → BalancerStrategy
strategy_for balance members = record {
  kind = strategy_text least_load;
  expected = some (if ltb members 1 then 1 else members);
}
strategy_for least_load members = record { kind = strategy_text least_load; expected = some 1 }
strategy_for st members = record { kind = strategy_text st; expected = none }

abbrev pub first_tag : Strategy → List Outbound → Text
first_tag st [] = []
first_tag st (out ∷ outs) = if health_aware st then out.tag else []

unfoldable pub balancer_for : Group → List Outbound → Balancer
balancer_for g outs = record {
  tag = tag_balancer;
  selector = tag_proxy_prefix ∷ [];
  strategy = strategy_for g.strategy (length outs);
  fallback_tag = first_tag g.strategy outs;
}

-- buildGroupOutbounds
unfoldable pub build_group_outbounds :
    (Text → Bool)
    → Option (Text → Text)
    → Group
    → List Profile
    → ℕ
    → Capabilities
    → Result (List Outbound × Balancer)
build_group_outbounds is_ip resolve g members mark caps = do
  outs ← member_outbounds is_ip resolve 0 members mark caps
  ok (outs, balancer_for g outs)
