-- ===== src/Xray/Build/Tags.antt =====
-- The tags of a configuration, and which of them a rule names.

use x_divine_ray.Model.Int.{ℤ}
use x_divine_ray.Xray.KeepAlive.{keep_alive}
use x_divine_ray.Xray.Inbounds.{
  api_inbound, socks_inbound, http_inbound, transparent_inbound, dns_inbound,
}
use x_divine_ray.Prelude.{
  All, Bool, List, Option, Text, [], any_of, arith, codes, false, inl, map, none, refl, some,
  text_eq, true, ◌++◌, ◌∙◌, ◌∷◌, ◌≡◌, ◌⊎◌, text_eq_refl, ℕ,
}
use x_divine_ray.Fw.Bypass.{any_of-++}
use x_divine_ray.Model.Int.{pos, lt}
use x_divine_ray.Model.Mode
use x_divine_ray.Model.Rule as UserRules
use x_divine_ray.Model.Rule.{RuleAction, direct, proxy, block, other}
use x_divine_ray.Model.Settings.{Settings}
use x_divine_ray.Model.Strategy.{Group}
use x_divine_ray.Xray.Config.{Config, Inbound, Outbound, Balancer, Rule, no_rule}
use x_divine_ray.Xray.Inbounds.{inbounds, when, tag_api_in, tag_dns_in}
use x_divine_ray.Xray.Parts.{other_outbounds, tag_api, tag_dns_out}
use x_divine_ray.Xray.Rules.{is_off, tag_direct, tag_block, matchers, with_target}
use x_divine_ray.Xray.Build.{proxy_tag_for, proxy_balancer_for}

abbrev pub tag_of : Outbound → Text
tag_of out = out.tag

abbrev pub is_among : Text → List Text → Bool
is_among t ts = any_of (text_eq t) ts

abbrev pub inbound_tags : Config → List Text
inbound_tags cfg = map (λ (i : Inbound). i.tag) cfg.inbounds

abbrev pub outbound_tags : Config → List Text
outbound_tags cfg = map tag_of cfg.outbounds

abbrev pub balancer_tags : Config → List Text
balancer_tags cfg = map (λ (b : Balancer). b.tag) cfg.routing.balancers

-- A rule names either an outbound, the API among them, or a balancer.
abbrev pub Leads : List Text → List Text → Rule → Type 0
Leads outs bals r =
    ((r.balancer_tag ≡ []) × (is_among r.outbound_tag (tag_api ∷ outs) ≡ true))
    ⊎ ((r.outbound_tag ≡ []) × (is_among r.balancer_tag bals ≡ true))

abbrev pub Named : List Text → List Text → List Text → Rule → Type 0
Named ins outs bals r = All (λ t. is_among t ins ≡ true) r.inbound_tag × Leads outs bals r

pub among_later :
    (t : Text) (xs ys : List Text) → is_among t ys ≡ true → is_among t (xs ++ ys) ≡ true
among_later t xs ys h = any_of-++ (text_eq t) xs ys ∙ rw h (ground arith)

pub among_earlier :
    (t : Text) (xs ys : List Text) → is_among t xs ≡ true → is_among t (xs ++ ys) ≡ true
among_earlier t xs ys h = any_of-++ (text_eq t) xs ys ∙ rw h refl

pub user_rule-Named :
    (g : Option Group) (a : RuleAction) (r : UserRules.Rule) (ins outs bals : List Text)
    → UserRules.valid a ≡ true
    → is_among tag_direct outs ≡ true
    → is_among tag_block outs ≡ true
    → Leads outs bals
        (record no_rule { outbound_tag = proxy_tag_for g; balancer_tag = proxy_balancer_for g })
    → Named ins outs bals (with_target a (proxy_tag_for g) (proxy_balancer_for g) (matchers r))
unfolding with_target matchers UserRules.valid codes text_eq
user_rule-Named g direct r ins outs bals v d b p = (tt, inl (refl, d))
user_rule-Named g block r ins outs bals v d b p = (tt, inl (refl, b))
user_rule-Named none proxy r ins outs bals v d b p = (tt, p)
user_rule-Named (some g) proxy r ins outs bals v d b p = (tt, p)
user_rule-Named g (other s) r ins outs bals v d b p = cc

dns_in_last :
    (b1 b2 : Bool) (h t d : Inbound)
    → d.tag ≡ tag_dns_in
    → is_among tag_dns_in
        (map (λ (i : Inbound). i.tag) (when b1 (h ∷ []) ++ (when b2 (t ∷ []) ++ (d ∷ []))))
      ≡ true
dns_in_last true true h t d e = ground (arith, e, text_eq_refl tag_dns_in)
dns_in_last true false h t d e = ground (arith, e, text_eq_refl tag_dns_in)
dns_in_last false true h t d e = ground (arith, e, text_eq_refl tag_dns_in)
dns_in_last false false h t d e = ground (arith, e, text_eq_refl tag_dns_in)

pub inbounds-dns_in :
    (s : Settings) (rules : List UserRules.Rule)
    → is_off s.dns_mode ≡ false
    → is_among tag_dns_in (map (λ (i : Inbound). i.tag) (inbounds s rules)) ≡ true
unfolding inbounds dns_inbound
inbounds-dns_in s rules on = rw on (
    among_later tag_dns_in ((api_inbound s rules).tag ∷ (socks_inbound s rules).tag ∷ []) _ (
      dns_in_last (lt (pos 0) s.http_port) (Mode.needs_firewall_capture s.mode)
        (http_inbound s rules) (transparent_inbound s rules) (dns_inbound s rules) refl))

pub inbounds-api_in :
    (s : Settings) (rules : List UserRules.Rule)
    → is_among tag_api_in (map (λ (i : Inbound). i.tag) (inbounds s rules)) ≡ true
unfolding inbounds codes text_eq api_inbound
inbounds-api_in s rules = refl

-- Of the outbounds that are always there, the DNS one is last if there is one.
pub other_outbounds-direct :
    (s : Settings) (mark : ℕ) → is_among tag_direct (map tag_of (other_outbounds s mark)) ≡ true
unfolding other_outbounds codes text_eq
other_outbounds-direct s mark = refl

pub other_outbounds-block :
    (s : Settings) (mark : ℕ) → is_among tag_block (map tag_of (other_outbounds s mark)) ≡ true
unfolding other_outbounds codes text_eq
other_outbounds-block s mark = refl

pub other_outbounds-dns_out :
    (s : Settings) (mark : ℕ)
    → is_off s.dns_mode ≡ false
    → is_among tag_dns_out (map tag_of (other_outbounds s mark)) ≡ true
unfolding other_outbounds codes text_eq
other_outbounds-dns_out s mark on = rw on refl

pub keep_alive-tag : (seconds : ℤ) (out : Outbound) → (keep_alive seconds out).tag ≡ out.tag
unfolding keep_alive
keep_alive-tag seconds out = ground arith
