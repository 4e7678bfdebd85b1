-- ===== src/Xray/Rules.antt =====
-- The operator's rules as the core's (internal/xray/config.go: buildUserRules, bypassedDomains,
-- localResolvers, sniffWanted). `dedupe` is that of Fw: the two packages have the same function.
pub mod Accepted
use x_divine_ray.Prelude.{
  Bool, List, Text, [], any_of, codes, false, if◌then◌else◌, not, suc, text_eq, true, zero, ℕ, ◌&&◌,
  ◌++◌, ◌||◌, ◌∷◌,
}
use x_divine_ray.Prelude.Trim.{trim}
use x_divine_ray.Fw.{dedupe}
use x_divine_ray.Model.Profile.{is_empty}
use x_divine_ray.Model.Rule.{RuleAction, direct, proxy, block, other, action_eq}
use x_divine_ray.Model.Rule as UserRules
use x_divine_ray.Model.Rule.Validate
use x_divine_ray.Model.Settings.{Settings, DnsMode, SniffMode}
use x_divine_ray.Xray.Config.{Rule, no_rule, Sniffing}
use x_divine_ray.Xray.Words.{trim_all, domain_matchers}
use x_divine_ray.Xray.Result.{Result, ok, ◌>>=◌, checked, bad_rule}

abbrev pub tag_direct : Text
tag_direct = codes "direct"

abbrev pub tag_block : Text
tag_block = codes "block"

-- The matchers of a rule, without a target.
unfoldable pub matchers : UserRules.Rule → Rule
matchers r = record no_rule {
  domain = domain_matchers r.domains;
  ip = trim_all r.ips;
  source = trim_all r.sources;
  port = trim r.port;
  source_port = trim r.source_port;
  protocol = trim_all r.protocols;
  network = trim r.network;
}

-- The `switch r.Action`.
unfoldable pub with_target : RuleAction → Text → Text → Rule → Rule
with_target direct proxy_tag proxy_balancer r = record r { outbound_tag = tag_direct }
with_target block proxy_tag proxy_balancer r = record r { outbound_tag = tag_block }
with_target proxy proxy_tag proxy_balancer r =
    if not (is_empty proxy_balancer)
    then record r { balancer_tag = proxy_balancer }
    else record r { outbound_tag = proxy_tag }
with_target (other s) proxy_tag proxy_balancer r = r

abbrev pub user_rule : UserRules.Rule → Text → Text → Rule
user_rule r proxy_tag proxy_balancer = with_target r.action proxy_tag proxy_balancer (matchers r)

module _ (parses_ip parses_cidr : Text → Bool) (geo : Bool) where
  unfoldable pub build_user_rules : List UserRules.Rule → Text → Text → Result (List Rule)
  build_user_rules [] proxy_tag proxy_balancer = ok []
  build_user_rules (r ∷ rs) proxy_tag proxy_balancer =
      let rest : Result (List Rule) = build_user_rules rs proxy_tag proxy_balancer in
      if not r.enabled then rest else (do
        _ ← checked bad_rule (Validate.validate parses_ip parses_cidr geo r)
        outs ← rest
        ok (user_rule r proxy_tag proxy_balancer ∷ outs))

abbrev is_blanket_bypass : UserRules.Rule → Bool
is_blanket_bypass r =
    if not r.enabled || not (action_eq r.action direct)
    then false
    else not (any_of (λ _. true) r.sources || not (is_empty r.source_port))

unfoldable pub bypassed_of : List UserRules.Rule → List Text
bypassed_of [] = []
bypassed_of (r ∷ rs) =
    let rest : List Text = bypassed_of rs in
    if is_blanket_bypass r then domain_matchers r.domains ++ rest else rest

unfoldable pub bypassed_domains : List UserRules.Rule → List Text
bypassed_domains rs = dedupe (bypassed_of rs)

-- `net.ParseIP(s) != nil`, `ip.To4() != nil` and `ip.IsLoopback()`.
module _ (parses_ip is_ip4 is_loopback : Text → Bool) where
  abbrev pub is_usable : Text → Bool
  is_usable r =
      if is_empty r || text_eq r (codes "localhost")
      then false
      else not (not (parses_ip r) || not (is_ip4 r) || is_loopback r)

  -- The loop, with the number of resolvers that are still taken.
  unfoldable pub usable_resolvers : ℕ → List Text → List Text
  usable_resolvers zero rs = []
  usable_resolvers (suc n) [] = []
  usable_resolvers (suc n) (r ∷ rs) =
      let skipped : List Text = usable_resolvers (suc n) rs in
      let taken : List Text = usable_resolvers n rs in
      if is_usable (trim r) then trim r ∷ taken else skipped

  unfoldable pub local_resolvers : List Text → List Text
  local_resolvers rs = usable_resolvers 2 rs

abbrev wanted_by_rule : UserRules.Rule → Bool
wanted_by_rule r = r.enabled && any_of (λ _. true) r.domains

abbrev wanted_by : SniffMode → List UserRules.Rule → Bool
wanted_by SniffMode.off rs = false
wanted_by SniffMode.on rs = true
wanted_by SniffMode.auto rs = any_of wanted_by_rule rs
wanted_by (SniffMode.other s) rs = any_of wanted_by_rule rs

unfoldable pub sniff_wanted : Settings → List UserRules.Rule → Bool
sniff_wanted s rs = wanted_by s.sniff rs

abbrev pub is_off : DnsMode → Bool
is_off DnsMode.off = true
is_off m = false

unfoldable pub sniffing_for : Settings → List UserRules.Rule → Sniffing
sniffing_for s rs =
    if not (sniff_wanted s rs)
    then record { enabled = false; dest_override = []; route_only = false }
    else record {
      enabled = true;
      dest_override = codes "http" ∷ codes "tls" ∷ codes "quic" ∷ [];
      route_only = not (is_off s.dns_mode);
    }
