-- ===== src/Xray/Build/Closed.antt =====
-- Every rule and every balancer of a configuration that was built names what is there.
use x_divine_ray.Model.Settings.{mark_value}
use x_divine_ray.Xray.Build.Tags.{other_outbounds-block}
use x_divine_ray.Xray.Parts.{tag_api, tag_dns_out}
use x_divine_ray.Xray.Outbounds.{tag_balancer}
use x_divine_ray.Model.Int.{ℤ, pos, lt}
use x_divine_ray.Xray.KeepAlive.{keep_alive, apply_keep_alive}
use x_divine_ray.Xray.Result.{ok}
use x_divine_ray.Xray.Build.{build, assets_available}
use x_divine_ray.Xray.Build.Inverse.{IsBuilt, build-IsBuilt}
use x_divine_ray.Xray.Build.Served.{proxies-Served}
use x_divine_ray.Xray.Build.{as_list}
use mathlib.Core.List.{map-append}
use x_divine_ray.Model.Profile.{Profile}
use x_divine_ray.Model.Settings.{Settings, mark_value}
use x_divine_ray.Xray.Config.{Config, Outbound, Balancer}
use x_divine_ray.Xray.Outbounds.{tag_balancer, balancer_for}
use x_divine_ray.Xray.Parts.{Options, Outside, first_rules, catch_all, other_outbounds}
use x_divine_ray.Xray.Rules.{is_off}
use x_divine_ray.Xray.Build.{assemble}
use x_divine_ray.Xray.Build.Served.{Served}
use mathlib.Core.Path.{ap₂}
use x_divine_ray.Xray.Build.Balanced.{check-check_group, balancers-IsBalanced, IsBalanced}
use x_divine_ray.Xray.Build.Tags.{
  keep_alive-tag, tag_of, inbound_tags, outbound_tags, balancer_tags, among_later, inbounds-dns_in,
  inbounds-api_in, other_outbounds-direct, other_outbounds-dns_out,
}
use x_divine_ray.Prelude.{
  All, Bool, List, Option, Text, [], inl, inr, true, ℕ, ◌∷◌, ◌≡◌, All-append, arith, codes, if_elim,
  map, none, not, refl, some, text_eq_refl, length, ◌++◌,
}
use mathlib.Core.Path.{subst}
use x_divine_ray.Model.Rule as UserRules
use x_divine_ray.Model.Settings.{Settings, mark_value}
use x_divine_ray.Model.Strategy.{Group}
use x_divine_ray.Xray.Config.{Config, Outbound, Balancer, Rule, no_rule}
use x_divine_ray.Xray.Result.{Result, ok}
use x_divine_ray.Xray.Parts.{Options, Outside}
use x_divine_ray.Xray.Rules.{tag_direct, tag_block, build_user_rules}
use x_divine_ray.Xray.Rules.Accepted.{Added, build_user_rules-Added}
use x_divine_ray.Xray.Routing.Matchers.{valid_action}
use x_divine_ray.Xray.Build.{
  assemble, proxy_tag_for, proxy_balancer_for, other_outbounds, first_rules, catch_all,
}
use x_divine_ray.Xray.Build.Tags.{
  is_among, Leads, Named, user_rule-Named, inbound_tags, outbound_tags, balancer_tags,
}

-- The operator's rules, where the tags that they may name are there.
module _ (parses_ip parses_cidr : Text → Bool) (geo : Bool) (g : Option Group)
    (ins outs bals : List Text) (has_direct : is_among tag_direct outs ≡ true)
    (has_block : is_among tag_block outs ≡ true)
    (has_proxy : Leads outs bals (record no_rule {
      outbound_tag = proxy_tag_for g;
      balancer_tag = proxy_balancer_for g;
    })) where
  Added-Named :
      (r : UserRules.Rule) (others : Result (List Rule)) (out : List Rule)
      → ((l : List Rule) → others ≡ ok l → All (Named ins outs bals) l)
      → Added parses_ip parses_cidr geo (proxy_tag_for g) (proxy_balancer_for g) r others out
      → All (Named ins outs bals) out
  Added-Named r others out ih (inl (off, e)) = ih out e
  Added-Named r others out ih (inr (on, l, valid, e, same)) =
      subst (All (Named ins outs bals)) same (
        user_rule-Named g r.action r ins outs bals (valid_action parses_ip parses_cidr geo r valid)
            has_direct has_block has_proxy,
        ih l e,
      )

  build_user_rules-Named :
      (rs : List UserRules.Rule) {out : List Rule}
      → build_user_rules parses_ip parses_cidr geo rs (proxy_tag_for g) (proxy_balancer_for g)
        ≡ ok out
      → All (Named ins outs bals) out
  unfolding build_user_rules
  build_user_rules-Named [] {out} h =
      let e : [] ≡ out = cc in subst (All (Named ins outs bals)) e tt
  build_user_rules-Named (r ∷ rs) {out} h =
      Added-Named r
        (build_user_rules parses_ip parses_cidr geo rs (proxy_tag_for g) (proxy_balancer_for g)) out
        (λ l e. build_user_rules-Named rs e)
        (build_user_rules-Added parses_ip parses_cidr geo (proxy_tag_for g) (proxy_balancer_for g) r
          rs h)

catch_all-Named :
    (ins ts : List Text) (b : Option Balancer)
    → All (Named ins ts (map (λ (q : Balancer). q.tag) (as_list b))) (catch_all b)
unfolding catch_all
catch_all-Named ins ts none = tt
catch_all-Named ins ts (some b) = ((tt, inr (refl, rw (text_eq_refl b.tag) refl)), tt)

module _ (x : Outside) (o : Options) (s : Settings) (outs : List Outbound) (bal : Option Balancer)
    (user : List Rule) where
  abbrev own_mark : ℕ
  own_mark = mark_value x.parse_int s

  abbrev put_together : Config
  put_together = assemble x o s own_mark outs bal user

  abbrev IsNamed : Rule → Type 0
  IsNamed =
      Named (inbound_tags put_together) (outbound_tags put_together) (balancer_tags put_together)

  among_others :
      (t : Text)
      → is_among t (map tag_of (other_outbounds s own_mark)) ≡ true
      → is_among t (outbound_tags put_together) ≡ true
  among_others t h =
      rw (map-append tag_of outs (other_outbounds s own_mark)) (among_later t (map tag_of outs) _ h)

  first_rules-Named : All IsNamed (first_rules x o s)
  unfolding first_rules codes
  first_rules-Named = (
    ((inbounds-api_in s o.rules, tt), inl (refl, rw (text_eq_refl tag_api) refl)),
    All-append IsNamed _ _
        (if_elim (All IsNamed) (not (is_off s.dns_mode)) _ []
          (λ on. (
            (
              (inbounds-dns_in s o.rules (ground arith), tt),
              inl (
                refl,
                among_later tag_dns_out (tag_api ∷ []) _
                    (among_others tag_dns_out (other_outbounds-dns_out s own_mark (ground arith))),
              ),
            ),
            tt,
          ))
          (λ _. tt))
        (
          (
            tt,
            inl (
              refl,
              among_later tag_direct (tag_api ∷ []) _
                  (among_others tag_direct (other_outbounds-direct s own_mark)),
            ),
          ),
          tt,
        ),
  )

  Served-Leads :
      (og : Option Group) (op : Option Profile)
      → Served x o own_mark og op outs bal
      → Leads
          (outbound_tags put_together)
          (balancer_tags put_together)
          (record no_rule { outbound_tag = proxy_tag_for og; balancer_tag = proxy_balancer_for og })
  unfolding balancer_for
  Served-Leads (some g) op (_, chosen) =
      inr (refl, rw chosen (ground (arith, text_eq_refl tag_balancer)))
  Served-Leads none (some p) (out, same, v, _) =
      inl (refl, rw same (ground (arith, v.tagged, text_eq_refl out.tag)))
  Served-Leads none none v = absurd v

rules-Named :
    (x : Outside) (o : Options) (s : Settings) (outs : List Outbound) (bal : Option Balancer)
    (user : List Rule) (og : Option Group) (op : Option Profile)
    → Served x o (mark_value x.parse_int s) og op outs bal
    → build_user_rules x.is_ip x.parses_cidr
        (assets_available x)
        o.rules
        (proxy_tag_for og)
        (proxy_balancer_for og)
      ≡ ok user
    → All (IsNamed x o s outs bal user) (first_rules x o s ++ (user ++ catch_all bal))
rules-Named x o s outs bal user og op v accepted =
    let P : Rule → Type 0 = IsNamed x o s outs bal user in
    All-append P (first_rules x o s) (user ++ catch_all bal) (first_rules-Named x o s outs bal user)
      (All-append P user (catch_all bal)
        (build_user_rules-Named x.is_ip x.parses_cidr (assets_available x) og _ _ _
          (among_others x o s outs bal user tag_direct
            (other_outbounds-direct s (mark_value x.parse_int s)))
          (among_others x o s outs bal user tag_block
            (other_outbounds-block s (mark_value x.parse_int s)))
          (Served-Leads x o s outs bal user og op v) o.rules accepted)
        (catch_all-Named _ _ bal))

abbrev ClosedBy : ℕ → List Text → Config → Type 0
ClosedBy members tags cfg =
    All (Named (inbound_tags cfg) tags (balancer_tags cfg)) cfg.routing.rules
    × All (IsBalanced members tags cfg.observatory cfg.burst_observatory) cfg.routing.balancers

-- Every rule leads from inbounds that are there to an outbound or a balancer that is there, or to the
-- API, and every balancer is in order.
abbrev pub IsClosed : ℕ → Config → Type 0
IsClosed members cfg = ClosedBy members (outbound_tags cfg) cfg

keep_alive-tags :
    (seconds : ℤ) (outs : List Outbound)
    → map tag_of (map (keep_alive seconds) outs) ≡ map tag_of outs
keep_alive-tags seconds [] = refl
keep_alive-tags seconds (out ∷ outs) =
    ap₂ (◌∷◌) (keep_alive-tag seconds out) (keep_alive-tags seconds outs)

apply_keep_alive-IsClosed :
    (members : ℕ) (seconds : ℤ) (cfg : Config)
    → IsClosed members cfg
    → IsClosed members (apply_keep_alive seconds cfg)
unfolding apply_keep_alive
apply_keep_alive-IsClosed members seconds cfg h =
    if_elim (IsClosed members) (lt (pos 0) seconds) _ cfg
      (λ _. rw (keep_alive-tags seconds cfg.outbounds) h) (λ _. h)

-- A configuration that Build returns is closed.
pub build-IsClosed :
    (x : Outside) (o : Options) (s : Settings) (cfg : Config)
    → o.settings ≡ some s
    → build x o ≡ ok cfg
    → IsClosed (length o.members) cfg
build-IsClosed x o s cfg given h =
    let b : IsBuilt x o s cfg = build-IsBuilt x o given h in
    let v : Served x o (mark_value x.parse_int s) o.group o.profile b.outs b.bal =
      proxies-Served x o (mark_value x.parse_int s) o.group o.profile b.servers in
    subst (IsClosed (length o.members)) b.whole (
      apply_keep_alive-IsClosed (length o.members) s.keep_alive
        (put_together x o s b.outs b.bal b.user)
        (
          rules-Named x o s b.outs b.bal b.user o.group o.profile v b.exceptions,
          balancers-IsBalanced x o s (mark_value x.parse_int s) o.group o.profile b.outs b.bal
              (check-check_group x o b.checks) v,
        ))
