-- ===== src/Xray/Build/Usable.antt =====
-- What Build asks of the servers and of the operator's rules.
use x_divine_ray.Prelude.{
  All, Bool, List, Option, Text, [], arith, inl, inr, none, refl, true, ℕ, ◌+◌, ◌∙◌, ◌∷◌, ◌≡◌,
  if_elim, not,
}
use x_divine_ray.Model.Profile.{
  Proto, vless, vmess, trojan, shadowsocks, other, Profile, credentials_error,
}
use x_divine_ray.Model.Profile
use x_divine_ray.Model.Rule as UserRules
use x_divine_ray.Model.Rule.Validate
use x_divine_ray.Xray.Config.{Outbound, Rule}
use x_divine_ray.Xray.Result.{
  Result, ok, checked, is_ok, is_ok->>=, is_ok-wrapped, is_ok-checked, wrapped, bad_profile,
  bad_rule, of_member,
}
use x_divine_ray.Xray.Stream.{Capabilities, build_stream}
use x_divine_ray.Xray.Stream.Supported.{
  IsSupported, build_stream-IsSupported, IsSupported-build_stream,
}
use x_divine_ray.Xray.Outbounds.{member_tag, proto_settings, build_proxy_outbound, member_outbounds}
use x_divine_ray.Xray.Outbounds.Shape.{AreServers}
use x_divine_ray.Xray.Rules.{build_user_rules}
use x_divine_ray.Xray.Rules.Accepted.{Added, build_user_rules-Added}
use x_divine_ray.Xray.Parts.{Outside, assets_available}

-- The profile is complete, and the core supports what it uses.
abbrev pub IsUsable : Outside → Capabilities → Profile → Type 0
IsUsable x caps p = (Profile.validate x.is_ip p ≡ none) × IsSupported caps p

module _ (is_ip : Text → Bool) (resolve : Option (Text → Text)) (mark : ℕ)
    (caps : Capabilities) where
  known_proto :
      (q : Proto) (p : Profile)
      → credentials_error q p ≡ none
      → is_ok (proto_settings is_ip resolve q p) ≡ true
  unfolding credentials_error proto_settings
  known_proto vless p h = refl
  known_proto vmess p h = refl
  known_proto trojan p h = refl
  known_proto shadowsocks p h = refl
  known_proto (other s) p h = cc

  credentials_checked :
      (p : Profile) → Profile.validate is_ip p ≡ none → credentials_error p.proto p ≡ none
  unfolding Profile.validate
  credentials_checked p h = ground arith

  pub build_proxy_outbound-is_ok :
      (p : Profile) (tag : Text)
      → Profile.validate is_ip p ≡ none
      → IsSupported caps p
      → is_ok (build_proxy_outbound is_ip resolve p tag mark caps) ≡ true
  unfolding build_proxy_outbound
  build_proxy_outbound-is_ok p tag v h =
      is_ok->>= (checked bad_profile (Profile.validate is_ip p)) _
        (is_ok-checked bad_profile (Profile.validate is_ip p) v)
        (λ _.
          is_ok->>= (proto_settings is_ip resolve p.proto p) _
            (known_proto p.proto p (credentials_checked p v))
            (λ _.
              is_ok->>= (build_stream p mark caps) _ (IsSupported-build_stream p mark caps h)
                (λ _. refl)))

  pub member_outbounds-is_ok :
      (i : ℕ) (ps : List Profile)
      → All (λ p. (Profile.validate is_ip p ≡ none) × IsSupported caps p) ps
      → is_ok (member_outbounds is_ip resolve i ps mark caps) ≡ true
  unfolding member_outbounds
  member_outbounds-is_ok i [] h = refl
  member_outbounds-is_ok i (p ∷ ps) h =
      is_ok->>=
        (wrapped (of_member p) (build_proxy_outbound is_ip resolve p (member_tag i) mark caps)) _
        (is_ok-wrapped (of_member p) (build_proxy_outbound is_ip resolve p (member_tag i) mark caps)
          ∙ build_proxy_outbound-is_ok p (member_tag i) h.0.0 h.0.1)
        (λ _.
          is_ok->>= (member_outbounds is_ip resolve (i + 1) ps mark caps) _
            (member_outbounds-is_ok (i + 1) ps h.1) (λ _. refl))

  pub AreServers-IsUsable :
      (i : ℕ) (ps : List Profile) (outs : List Outbound)
      → AreServers is_ip resolve mark caps i ps outs
      → All (λ p. (Profile.validate is_ip p ≡ none) × IsSupported caps p) ps
  AreServers-IsUsable i [] [] v = tt
  AreServers-IsUsable i (p ∷ ps) (out ∷ outs) v = (
    (v.0.complete, build_stream-IsSupported p mark caps v.0.stream),
    AreServers-IsUsable (i + 1) ps outs v.1,
  )
  AreServers-IsUsable i [] (out ∷ outs) v = absurd v
  AreServers-IsUsable i (p ∷ ps) [] v = absurd v

-- Every rule that is enabled validates.
abbrev pub IsAccepted : Outside → UserRules.Rule → Type 0
IsAccepted x r =
    r.enabled ≡ true → Validate.validate x.is_ip x.parses_cidr (assets_available x) r ≡ none

module _ (x : Outside) (pt pb : Text) where
  Added-IsAccepted :
      (r : UserRules.Rule) (others : Result (List Rule)) (out : List Rule)
      → Added x.is_ip x.parses_cidr (assets_available x) pt pb r others out
      → IsAccepted x r × (l : List Rule) × (others ≡ ok l)
  Added-IsAccepted r others out (inl (off, e)) = (λ on. cc, out, e)
  Added-IsAccepted r others out (inr (on, l, valid, e, same)) = (λ _. valid, l, e)

  pub rules-IsAccepted :
      (rs : List UserRules.Rule) {out : List Rule}
      → build_user_rules x.is_ip x.parses_cidr (assets_available x) rs pt pb ≡ ok out
      → All (IsAccepted x) rs
  rules-IsAccepted [] h = tt
  rules-IsAccepted (r ∷ rs) {out} h =
      let (here, l, e) =
        Added-IsAccepted r (build_user_rules x.is_ip x.parses_cidr (assets_available x) rs pt pb)
          out (build_user_rules-Added x.is_ip x.parses_cidr (assets_available x) pt pb r rs h) in
      (here, rules-IsAccepted rs e)

  pub IsAccepted-rules :
      (rs : List UserRules.Rule)
      → All (IsAccepted x) rs
      → is_ok (build_user_rules x.is_ip x.parses_cidr (assets_available x) rs pt pb) ≡ true
  unfolding build_user_rules
  IsAccepted-rules [] h = refl
  IsAccepted-rules (r ∷ rs) h =
      if_elim (λ (m : Result (List Rule)). is_ok m ≡ true) (not r.enabled) _ _
        (λ _. IsAccepted-rules rs h.1)
        (λ on.
          is_ok->>=
            (checked bad_rule (Validate.validate x.is_ip x.parses_cidr (assets_available x) r)) _
            (is_ok-checked bad_rule _ (h.0 (ground arith)))
            (λ _.
              is_ok->>= (build_user_rules x.is_ip x.parses_cidr (assets_available x) rs pt pb) _
                (IsAccepted-rules rs h.1) (λ _. refl)))
