-- ===== src/Xray/Routing/Matchers.antt =====
-- A rule of the operator that validates matches, in the core's form, what it applies to.
use mathlib.Core.Path.{fun_ext}
use x_divine_ray.Prelude.{
  Bool, List, Option, Text, [], any_of, ap, arith, false, if◌then◌else◌, map, none, refl, some,
  text_eq, ◌∷◌, ◌≡◌, Bool-cases, codes, has_prefix, inl, inr, text_eq_iff, true, ◌==◌, ◌∙◌,
}
use x_divine_ray.Prelude.Trim.{trim, drop_space, is_space}
use x_divine_ray.Model.Profile.{is_empty}
use x_divine_ray.Model.Rule as UserRules
use x_divine_ray.Model.Rule.{RuleAction, direct, proxy, block, other}
use x_divine_ray.Model.Rule.Validate.{
  RuleError, all_ok, both_ok, validate_domain_matcher, validate_ip_matcher, protocols,
}
use x_divine_ray.Model.Rule.Validate
use x_divine_ray.Xray.Config.{Rule}
use x_divine_ray.Xray.Words.{trim_all, domain_matcher, domain_matchers}
use x_divine_ray.Xray.Rules.{with_target, matchers, user_rule}
use x_divine_ray.Xray.Routing.{Conn, holds_one, domain_matches, matches}
use x_divine_ray.Xray.Routing.Meaning.{means_domain, applies}

-- No entry of the list is blank.
abbrev IsFilled : List Text → Type 0
IsFilled [] = Unit
IsFilled (v ∷ vs) = (is_empty (trim v) ≡ false) × IsFilled vs

trim_all-IsFilled : (vs : List Text) → IsFilled vs → trim_all vs ≡ map trim vs
unfolding trim_all
trim_all-IsFilled [] h = refl
trim_all-IsFilled (v ∷ vs) h = rw (h.0) (ap (◌∷◌ (trim v)) (trim_all-IsFilled vs h.1))

any_of-map :
    (f : Text → Bool) (g : Text → Text) (vs : List Text)
    → any_of f (map g vs) ≡ any_of (λ v. f (g v)) vs
any_of-map f g [] = refl
any_of-map f g (v ∷ vs) = ground (arith, any_of-map f g vs)

holds_one-map :
    (f : Text → Bool) (g : Text → Text) (vs : List Text)
    → holds_one f (map g vs) ≡ holds_one (λ v. f (g v)) vs
holds_one-map f g [] = refl
holds_one-map f g (v ∷ vs) = any_of-map f g (v ∷ vs)

all_ok-IsFilled :
    (check : Text → Option RuleError) (vs : List Text)
    → ((v : Text) → check v ≡ none → is_empty (trim v) ≡ false)
    → all_ok check vs ≡ none
    → IsFilled vs
unfolding all_ok
all_ok-IsFilled check [] sound h = tt
all_ok-IsFilled check (v ∷ vs) sound h =
    (sound v (ground arith), all_ok-IsFilled check vs sound (ground arith))

is_empty-text_eq : (s : Text) → text_eq s [] ≡ is_empty s
unfolding text_eq
is_empty-text_eq [] = refl
is_empty-text_eq (c ∷ s) = refl

module _ (parses_ip parses_cidr : Text → Bool) where
  domain_filled :
      (v : Text)
      → validate_domain_matcher parses_ip parses_cidr v ≡ none
      → is_empty (trim v) ≡ false
  unfolding validate_domain_matcher
  domain_filled v h = elim (Bool-cases (is_empty (trim v))) [
    | inl blank ↦
        absurd
          (let e : text_eq (trim v) [] ≡ true = is_empty-text_eq (trim v) ∙ blank in cc (rw e at h))
    | inr filled ↦ filled
  ]

  ip_filled :
      (v : Text) → validate_ip_matcher parses_ip parses_cidr v ≡ none → is_empty (trim v) ≡ false
  unfolding validate_ip_matcher
  ip_filled v h = elim (Bool-cases (is_empty (trim v))) [
    | inl blank ↦
        absurd
          (let e : text_eq (trim v) [] ≡ true = is_empty-text_eq (trim v) ∙ blank in cc (rw e at h))
    | inr filled ↦ filled
  ]

filled_as :
    (v w : Text) → is_empty (trim w) ≡ false → text_eq v w ≡ true → is_empty (trim v) ≡ false
filled_as v w h e = rw ((text_eq_iff v w).0 e) h

protocol_filled :
    (v : Text)
    → (if any_of (text_eq v) protocols then none else some (Validate.unknown_protocol v)) ≡ none
    → is_empty (trim v) ≡ false
unfolding trim drop_space is_space codes
protocol_filled v h = ground (
  arith,
  filled_as v (codes "http") refl,
  filled_as v (codes "tls") refl,
  filled_as v (codes "quic") refl,
  filled_as v (codes "bittorrent") refl,
)

-- A bare name in the core's form is matched as the operator means it.
domain_matches-domain_matcher :
    (c : Conn) (d : Text) → domain_matches c (domain_matcher d) ≡ means_domain c d
unfolding domain_matches has_prefix codes
domain_matches-domain_matcher c d = elim (Bool-cases (any_of (λ b. b == 58) d)) [
  | inl colon ↦ rw colon refl
  | inr bare ↦ rw bare refl
]

matches-with_target :
    (c : Conn) (a : RuleAction) (pt pb : Text) (r : Rule)
    → matches c (with_target a pt pb r) ≡ matches c r
unfolding matches with_target
matches-with_target c direct pt pb r = refl
matches-with_target c block pt pb r = refl
matches-with_target c proxy pt [] r = refl
matches-with_target c proxy pt (b ∷ pb) r = refl
matches-with_target c (other s) pt pb r = refl

module _ (parses_ip parses_cidr : Text → Bool) (geo : Bool) (r : UserRules.Rule)
    (valid : Validate.validate parses_ip parses_cidr geo r ≡ none) where
  domains-IsFilled : IsFilled r.domains
  unfolding Validate.validate
  domains-IsFilled =
      all_ok-IsFilled (validate_domain_matcher parses_ip parses_cidr) r.domains
        (domain_filled parses_ip parses_cidr) (ground arith)

  ips-IsFilled : IsFilled r.ips
  unfolding Validate.validate
  ips-IsFilled =
      all_ok-IsFilled (validate_ip_matcher parses_ip parses_cidr) r.ips
        (ip_filled parses_ip parses_cidr) (ground arith)

  sources-IsFilled : IsFilled r.sources
  unfolding Validate.validate
  sources-IsFilled =
      all_ok-IsFilled (validate_ip_matcher parses_ip parses_cidr) r.sources
        (ip_filled parses_ip parses_cidr) (ground arith)

  protocols-IsFilled : IsFilled r.protocols
  unfolding Validate.validate
  protocols-IsFilled =
      all_ok-IsFilled
        (λ p. if any_of (text_eq p) protocols then none else some (Validate.unknown_protocol p))
        r.protocols protocol_filled (ground arith)

  pub valid_action : UserRules.valid r.action ≡ true
  unfolding Validate.validate
  valid_action = ground arith

  trimmed :
      (f : Text → Bool) (vs : List Text)
      → IsFilled vs
      → holds_one f (trim_all vs) ≡ holds_one (λ v. f (trim v)) vs
  trimmed f vs h = rw (trim_all-IsFilled vs h) (holds_one-map f trim vs)

  domains_matched :
      (c : Conn)
      → holds_one (domain_matches c) (domain_matchers r.domains)
        ≡ holds_one (λ v. means_domain c (trim v)) r.domains
  unfolding domain_matchers
  domains_matched c =
      holds_one-map (domain_matches c) domain_matcher (trim_all r.domains)
      ∙ trimmed (λ v. domain_matches c (domain_matcher v)) r.domains domains-IsFilled
      ∙ ap (λ (f : Text → Bool). holds_one (λ v. f (trim v)) r.domains)
          (fun_ext (domain_matches-domain_matcher c))

  matches-matchers : (c : Conn) → matches c (matchers r) ≡ applies c r
  unfolding matches matchers applies
  matches-matchers c = rw (trimmed c.ip_in r.ips ips-IsFilled) (
      rw (domains_matched c) (
        rw (trimmed c.source_in r.sources sources-IsFilled)
          (rw (trimmed c.protocol_is r.protocols protocols-IsFilled) refl)))

  -- The core's rule matches a connection exactly where the operator's applies to it.
  pub matches-user_rule : (c : Conn) (pt pb : Text) → matches c (user_rule r pt pb) ≡ applies c r
  matches-user_rule c pt pb = matches-with_target c r.action pt pb (matchers r) ∙ matches-matchers c
