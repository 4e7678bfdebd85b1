-- ===== src/Ucicfg/Names.antt =====
-- The named strings of the data model as the options hold them: `string(m)` and `model.Mode(v)`, and
-- so for the other kinds.
use x_divine_ray.Prelude.{Text, codes, text_eq, if◌then◌else◌, ◌≡◌, refl, true}
use x_divine_ray.Model.Mode
use x_divine_ray.Model.Mode.{Mode}
use x_divine_ray.Model.Profile.{Proto}
use x_divine_ray.Model.Settings.{DnsMode, SniffMode, TargetKind}
use x_divine_ray.Model.Settings.Normal.{known_dns, known_sniff, known_kind}
use x_divine_ray.Model.Strategy
use x_divine_ray.Model.Strategy.{Strategy}
use x_divine_ray.Model.Rule.{RuleAction}
use x_divine_ray.Model.Rule

abbrev pub mode_text : Mode → Text
mode_text Mode.redirect = codes "redirect"
mode_text Mode.mixed = codes "mixed"
mode_text Mode.tproxy = codes "tproxy"
mode_text Mode.tun = codes "tun"
mode_text (Mode.other s) = s

unfoldable pub mode_of : Text → Mode
mode_of s =
    if text_eq s (codes "redirect")
    then Mode.redirect
    else if text_eq s (codes "mixed")
    then Mode.mixed
    else if text_eq s (codes "tproxy")
    then Mode.tproxy
    else if text_eq s (codes "tun")
    then Mode.tun
    else Mode.other s

abbrev pub kind_text : TargetKind → Text
kind_text TargetKind.profile = codes "profile"
kind_text TargetKind.group = codes "group"
kind_text (TargetKind.other s) = s

unfoldable pub kind_named : Text → TargetKind
kind_named s =
    if text_eq s (codes "profile")
    then TargetKind.profile
    else if text_eq s (codes "group")
    then TargetKind.group
    else TargetKind.other s

abbrev pub sniff_text : SniffMode → Text
sniff_text SniffMode.auto = codes "auto"
sniff_text SniffMode.on = codes "on"
sniff_text SniffMode.off = codes "off"
sniff_text (SniffMode.other s) = s

unfoldable pub sniff_of : Text → SniffMode
sniff_of s =
    if text_eq s (codes "auto")
    then SniffMode.auto
    else if text_eq s (codes "on")
    then SniffMode.on
    else if text_eq s (codes "off")
    then SniffMode.off
    else SniffMode.other s

abbrev pub dns_text : DnsMode → Text
dns_text DnsMode.dnsmasq = codes "dnsmasq"
dns_text DnsMode.redirect = codes "redirect"
dns_text DnsMode.off = codes "off"
dns_text (DnsMode.other s) = s

unfoldable pub dns_of : Text → DnsMode
dns_of s =
    if text_eq s (codes "dnsmasq")
    then DnsMode.dnsmasq
    else if text_eq s (codes "redirect")
    then DnsMode.redirect
    else if text_eq s (codes "off")
    then DnsMode.off
    else DnsMode.other s

abbrev pub proto_text : Proto → Text
proto_text Proto.vless = codes "vless"
proto_text Proto.vmess = codes "vmess"
proto_text Proto.trojan = codes "trojan"
proto_text Proto.shadowsocks = codes "shadowsocks"
proto_text (Proto.other s) = s

unfoldable pub proto_of : Text → Proto
proto_of s =
    if text_eq s (codes "vless")
    then Proto.vless
    else if text_eq s (codes "vmess")
    then Proto.vmess
    else if text_eq s (codes "trojan")
    then Proto.trojan
    else if text_eq s (codes "shadowsocks")
    then Proto.shadowsocks
    else Proto.other s

abbrev pub strategy_text : Strategy → Text
strategy_text Strategy.least_ping = codes "leastPing"
strategy_text Strategy.least_load = codes "leastLoad"
strategy_text Strategy.balance = codes "balance"
strategy_text Strategy.random = codes "random"
strategy_text Strategy.round_robin = codes "roundRobin"
strategy_text (Strategy.other s) = s

unfoldable pub strategy_of : Text → Strategy
strategy_of s =
    if text_eq s (codes "leastPing")
    then Strategy.least_ping
    else if text_eq s (codes "leastLoad")
    then Strategy.least_load
    else if text_eq s (codes "balance")
    then Strategy.balance
    else if text_eq s (codes "random")
    then Strategy.random
    else if text_eq s (codes "roundRobin")
    then Strategy.round_robin
    else Strategy.other s

abbrev pub action_text : RuleAction → Text
action_text RuleAction.direct = codes "direct"
action_text RuleAction.proxy = codes "proxy"
action_text RuleAction.block = codes "block"
action_text (RuleAction.other s) = s

unfoldable pub action_of : Text → RuleAction
action_of s =
    if text_eq s (codes "direct")
    then RuleAction.direct
    else if text_eq s (codes "proxy")
    then RuleAction.proxy
    else if text_eq s (codes "block")
    then RuleAction.block
    else RuleAction.other s

pub mode_of-mode_text : (m : Mode) → Mode.valid m ≡ true → mode_of (mode_text m) ≡ m
unfolding mode_of codes text_eq Mode.valid
mode_of-mode_text Mode.redirect h = refl
mode_of-mode_text Mode.mixed h = refl
mode_of-mode_text Mode.tproxy h = refl
mode_of-mode_text Mode.tun h = refl
mode_of-mode_text (Mode.other s) h = cc

pub kind_named-kind_text : (k : TargetKind) → known_kind k ≡ true → kind_named (kind_text k) ≡ k
unfolding kind_named codes text_eq
kind_named-kind_text TargetKind.profile h = refl
kind_named-kind_text TargetKind.group h = refl
kind_named-kind_text (TargetKind.other s) h = cc

pub sniff_of-sniff_text : (k : SniffMode) → known_sniff k ≡ true → sniff_of (sniff_text k) ≡ k
unfolding sniff_of codes text_eq
sniff_of-sniff_text SniffMode.auto h = refl
sniff_of-sniff_text SniffMode.on h = refl
sniff_of-sniff_text SniffMode.off h = refl
sniff_of-sniff_text (SniffMode.other s) h = cc

pub dns_of-dns_text : (k : DnsMode) → known_dns k ≡ true → dns_of (dns_text k) ≡ k
unfolding dns_of codes text_eq
dns_of-dns_text DnsMode.dnsmasq h = refl
dns_of-dns_text DnsMode.redirect h = refl
dns_of-dns_text DnsMode.off h = refl
dns_of-dns_text (DnsMode.other s) h = cc

pub strategy_of-strategy_text :
    (k : Strategy) → Strategy.valid k ≡ true → strategy_of (strategy_text k) ≡ k
unfolding strategy_of codes text_eq Strategy.valid
strategy_of-strategy_text Strategy.least_ping h = refl
strategy_of-strategy_text Strategy.least_load h = refl
strategy_of-strategy_text Strategy.balance h = refl
strategy_of-strategy_text Strategy.random h = refl
strategy_of-strategy_text Strategy.round_robin h = refl
strategy_of-strategy_text (Strategy.other s) h = cc

pub action_of-action_text : (k : RuleAction) → Rule.valid k ≡ true → action_of (action_text k) ≡ k
unfolding action_of codes text_eq Rule.valid
action_of-action_text RuleAction.direct h = refl
action_of-action_text RuleAction.proxy h = refl
action_of-action_text RuleAction.block h = refl
action_of-action_text (RuleAction.other s) h = cc
