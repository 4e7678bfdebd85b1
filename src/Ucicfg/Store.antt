-- ===== src/Ucicfg/Store.antt =====
-- What the daemon's configuration is as sections of a package (internal/ucicfg/store.go, load and
-- save): the profiles, groups, rules and subscriptions. A run of `Set` calls is a table of them.
pub mod Filled
pub mod Built
pub mod File
pub mod Main
pub mod Sections
pub mod Others
pub mod Whole
use x_divine_ray.Prelude.{
  Bool, List, Text, [], codes, false, if◌then◌else◌, ◌∷◌, ◌++◌, true, none, zero,
}
use x_divine_ray.Model.Int.{ℤ, pos, negsuc}
use x_divine_ray.Model.Profile.{Profile}
use x_divine_ray.Model.Strategy.{Group}
use x_divine_ray.Model.Strategy
use x_divine_ray.Model.Rule.{Rule, Subscription}
use x_divine_ray.Ucicfg.Names.{
  proto_text, proto_of, strategy_text, strategy_of, action_text, action_of,
}
use x_divine_ray.Ucicfg.Value.{itoa, to_int, to_bool, from_bool, or_default}
use x_divine_ray.Ucicfg.Syntax.{Section, new_section, set_option, insert, get, list}

-- s.Set(k, v) for every entry, in order.
unfoldable pub set_all : List (Text × Text) → Section → Section
set_all [] s = s
set_all ((k, v) ∷ es) s = set_all es (set_option k v s)

abbrev pub set_non_empty : Text → Text → Section → Section
set_non_empty k [] s = s
set_non_empty k (c ∷ v) s = set_option k (c ∷ v) s

-- The closure `set`, which leaves an empty value out.
unfoldable pub set_some : List (Text × Text) → Section → Section
set_some [] s = s
set_some ((k, v) ∷ es) s = set_some es (set_non_empty k v s)

-- sec.Lists[k] = xs, where there are any.
unfoldable pub put_list : Text → List Text → Section → Section
put_list k [] s = s
put_list k (x ∷ xs) s = record s { lists = insert k (x ∷ xs) s.lists }

-- `if b { set(k, "1") }`, as a value.
abbrev pub flag : Bool → Text
flag b = if b then codes "1" else []

-- `if n != 0 { set(k, strconv.Itoa(n)) }`, as a value.
abbrev pub unless_zero : ℤ → Text
unless_zero (pos zero) = []
unless_zero n = itoa n

abbrev pub profile_options : Profile → List (Text × Text)
profile_options p =
    (codes "name", p.name)
    ∷ (codes "proto", proto_text p.proto)
    ∷ (codes "address", p.address)
    ∷ (codes "port", itoa p.port)
    ∷ (codes "uuid", p.uuid)
    ∷ (codes "password", p.password)
    ∷ (codes "method", p.method)
    ∷ (codes "alter_id", unless_zero p.alter_id)
    ∷ (codes "encryption", p.encryption)
    ∷ (codes "flow", p.flow)
    ∷ (codes "net", p.network)
    ∷ (codes "security", p.security)
    ∷ (codes "sni", p.sni)
    ∷ (codes "alpn", p.alpn)
    ∷ (codes "fp", p.fingerprint)
    ∷ (codes "pbk", p.public_key)
    ∷ (codes "sid", p.short_id)
    ∷ (codes "spx", p.spider_x)
    ∷ (codes "allow_insecure", flag p.allow_insecure)
    ∷ (codes "pinned_cert", p.pinned_cert)
    ∷ (codes "pin_auto", flag p.pin_auto)
    ∷ (codes "pin_unverifiable", flag p.pin_unverifiable)
    ∷ (codes "path", p.path)
    ∷ (codes "host", p.host)
    ∷ (codes "service_name", p.service_name)
    ∷ (codes "header_type", p.header_type)
    ∷ (codes "seed", p.seed)
    ∷ (codes "quic_security", p.quic_sec)
    ∷ (codes "quic_key", p.quic_key)
    ∷ (codes "mux", flag p.mux)
    ∷ (codes "sub", p.subscription)
    ∷ (codes "remark", p.remark)
    ∷ []

unfoldable pub save_profile : Profile → Section
save_profile p = set_some (profile_options p) (new_section (codes "profile") p.id false)

unfoldable pub load_profile : Section → Profile
load_profile s = record {
  id = s.name;
  name = get s (codes "name");
  proto = proto_of (or_default (get s (codes "proto")) (codes "vless"));
  address = get s (codes "address");
  port = to_int (get s (codes "port")) (pos 0);
  uuid = get s (codes "uuid");
  password = get s (codes "password");
  method = get s (codes "method");
  alter_id = to_int (get s (codes "alter_id")) (pos 0);
  encryption = get s (codes "encryption");
  flow = get s (codes "flow");
  network = or_default (get s (codes "net")) (codes "tcp");
  security = or_default (get s (codes "security")) (codes "none");
  sni = get s (codes "sni");
  alpn = get s (codes "alpn");
  fingerprint = get s (codes "fp");
  public_key = get s (codes "pbk");
  short_id = get s (codes "sid");
  spider_x = get s (codes "spx");
  allow_insecure = to_bool (get s (codes "allow_insecure")) false;
  pinned_cert = get s (codes "pinned_cert");
  pin_auto = to_bool (get s (codes "pin_auto")) false;
  pin_unverifiable = to_bool (get s (codes "pin_unverifiable")) false;
  path = get s (codes "path");
  host = get s (codes "host");
  service_name = get s (codes "service_name");
  header_type = get s (codes "header_type");
  seed = get s (codes "seed");
  quic_sec = get s (codes "quic_security");
  quic_key = get s (codes "quic_key");
  mux = to_bool (get s (codes "mux")) false;
  subscription = get s (codes "sub");
  remark = get s (codes "remark");
}

-- The group is normalized before it is written and after it is read.
unfoldable pub save_group : Group → Section
save_group g' =
    let g : Group = Strategy.normalize g' in
    put_list (codes "member") g.members (
      set_all
        ((codes "name", g.name)
          ∷ (codes "strategy", strategy_text g.strategy)
          ∷ (codes "probe_url", g.probe_url)
          ∷ (codes "probe_interval", g.probe_interval)
          ∷ [])
        (new_section (codes "group") g.id false))

unfoldable pub load_group : Section → Group
load_group s = Strategy.normalize (record {
  id = s.name;
  name = get s (codes "name");
  strategy = strategy_of (get s (codes "strategy"));
  members = list s (codes "member");
  probe_url = get s (codes "probe_url");
  probe_interval = get s (codes "probe_interval");
})

unfoldable pub save_rule : Rule → Section
save_rule r = put_list (codes "protocol") r.protocols (
    put_list (codes "source") r.sources (
      put_list (codes "ip") r.ips (
        put_list (codes "domain") r.domains (
          set_some
            ((codes "port", r.port)
              ∷ (codes "source_port", r.source_port)
              ∷ (codes "network", r.network)
              ∷ [])
            (set_all
              ((codes "name", r.name)
                ∷ (codes "enabled", from_bool r.enabled)
                ∷ (codes "action", action_text r.action)
                ∷ [])
              (new_section (codes "rule") r.id false))))))

unfoldable pub load_rule : Section → Rule
load_rule s = record {
  id = s.name;
  name = get s (codes "name");
  enabled = to_bool (get s (codes "enabled")) true;
  action = action_of (or_default (get s (codes "action")) (codes "direct"));
  domains = list s (codes "domain");
  ips = list s (codes "ip");
  sources = list s (codes "source");
  port = get s (codes "port");
  source_port = get s (codes "source_port");
  protocols = list s (codes "protocol");
  network = get s (codes "network");
}

unfoldable pub save_sub : Subscription → Section
save_sub u = set_all ((codes "count", itoa u.count) ∷ []) (
    set_some ((codes "updated", u.updated) ∷ []) (
      set_all ((codes "name", u.name) ∷ (codes "url", u.url) ∷ [])
        (new_section (codes "subscription") u.id false)))

unfoldable pub load_sub : Section → Subscription
load_sub s = record {
  id = s.name;
  name = get s (codes "name");
  url = get s (codes "url");
  updated = get s (codes "updated");
  count = to_int (get s (codes "count")) (pos 0);
}
