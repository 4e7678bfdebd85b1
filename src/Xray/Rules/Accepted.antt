-- ===== src/Xray/Rules/Accepted.antt =====
-- What it says of the operator's rules that they were all accepted.
use x_divine_ray.Prelude.{
  Bool, List, Text, arith, false, if_elim, inl, inr, none, not, true, ◌∷◌, ◌≡◌, ◌⊎◌,
}
use x_divine_ray.Model.Rule as UserRules
use x_divine_ray.Model.Rule.Validate
use x_divine_ray.Xray.Config.{Rule}
use x_divine_ray.Xray.Result.{Result, ok, >>=-eq-ok, checked, checked-eq-ok, bad_rule}
use x_divine_ray.Xray.Rules.{build_user_rules, user_rule}

module _ (parses_ip parses_cidr : Text → Bool) (geo : Bool) (proxy_tag proxy_balancer : Text) where
  -- What the first rule of a list adds to those of the others.
  abbrev pub Added : UserRules.Rule → Result (List Rule) → List Rule → Type 0
  Added r others out =
      ((r.enabled ≡ false) × (others ≡ ok out))
      ⊎ ((r.enabled ≡ true)
          × (outs : List Rule) × (Validate.validate parses_ip parses_cidr geo r ≡ none)
          × (others ≡ ok outs)
          × (user_rule r proxy_tag proxy_balancer ∷ outs ≡ out))

  pub build_user_rules-Added :
      (r : UserRules.Rule) (rs : List UserRules.Rule) {out : List Rule}
      → build_user_rules parses_ip parses_cidr geo (r ∷ rs) proxy_tag proxy_balancer ≡ ok out
      → Added r (build_user_rules parses_ip parses_cidr geo rs proxy_tag proxy_balancer) out
  unfolding build_user_rules
  build_user_rules-Added r rs {out} h =
      if_elim (λ (m : Result (List Rule)). m ≡ ok out → Added r others out) (not r.enabled) others _
        (λ off e. inl (ground arith, e))
        (λ on e.
          let (_, e1, h1) =
            >>=-eq-ok (checked bad_rule (Validate.validate parses_ip parses_cidr geo r)) _ e in
          let (outs, e2, h2) = >>=-eq-ok others _ h1 in
          inr (
            ground arith,
            outs,
            checked-eq-ok bad_rule (Validate.validate parses_ip parses_cidr geo r) e1,
            e2,
            cc,
          ))
        h
    where
      others : Result (List Rule)
      others = build_user_rules parses_ip parses_cidr geo rs proxy_tag proxy_balancer
