-- ===== src/Model/Rule/Validate.antt =====
-- The checks of a routing rule (internal/model/rule.go): Validate, its matchers and its port
-- specifications. What an error says is left out but for its kind and the entry it is about.
pub mod Ports
use x_divine_ray.Prelude.{
  Bool, List, Option, Text, [], any_of, codes, false, has_prefix, if◌then◌else◌, none, not, some,
  text_eq, true, ℕ, ◌&&◌, ◌==◌, ◌||◌, ◌∷◌,
}
use x_divine_ray.Prelude.Trim.{trim}
use x_divine_ray.Model.Int.{ℤ, pos, lt}
use x_divine_ray.Model.Rule.{Rule, valid}
use x_divine_ray.Ucicfg.Value.{atoi}

pub data RuleError : Type 0 where
  unknown_action matches_nothing no_geo_data : RuleError
  empty_entry not_a_domain prefix_alone unknown_prefix address_as_domain : Text → RuleError
  no_list_name not_a_network not_an_address : Text → RuleError
  empty_port not_a_port port_out_of_range range_backwards : Text → RuleError
  unknown_protocol unknown_network : Text → RuleError

abbrev is_empty {ℓ} : {A : Type ℓ} → List A → Bool
is_empty [] = true
is_empty (x ∷ xs) = false

unfoldable pub has_matcher : Rule → Bool
has_matcher r =
    not (is_empty r.domains)
    || not (is_empty r.ips)
    || not (is_empty r.sources)
    || not (text_eq r.port [])
    || not (text_eq r.source_port [])
    || not (is_empty r.protocols)
    || not (text_eq r.network [])

unfoldable pub needs_geo_data : Rule → Bool
needs_geo_data r =
    any_of (λ d. has_prefix d (codes "geosite:")) r.domains
    || any_of (λ ip. has_prefix ip (codes "geoip:")) r.ips

-- strings.Cut at one byte: the texts before and after its first occurrence.
unfoldable pub cut : ℕ → Text → Option (Text × Text)
cut c [] = none
cut c (x ∷ s) =
    let rest : Option (Text × Text) = cut c s in
    if x == c then some ([], s) else elim rest [ none ↦ none | some r ↦ some (x ∷ r.0, r.1) ]

abbrev to_head : ℕ → List Text → List Text
to_head x [] = (x ∷ []) ∷ []
to_head x (t ∷ ts) = (x ∷ t) ∷ ts

-- strings.Split at one byte.
unfoldable pub split : ℕ → Text → List Text
split c [] = [] ∷ []
split c (x ∷ s) = let rest : List Text = split c s in if x == c then [] ∷ rest else to_head x rest

-- strings.Contains
unfoldable pub contains : Text → Text → Bool
contains p [] = has_prefix [] p
contains p (x ∷ s) = let rest : Bool = contains p s in if has_prefix (x ∷ s) p then true else rest

abbrev pub domain_prefixes : List Text
domain_prefixes =
    codes "domain"
    ∷ codes "full"
    ∷ codes "keyword"
    ∷ codes "regexp"
    ∷ codes "geosite"
    ∷ codes "ext"
    ∷ []

abbrev pub both_ok : Option RuleError → Option RuleError → Option RuleError
both_ok none next = next
both_ok (some e) next = some e

-- The first error over a list, in its order.
unfoldable pub all_ok : (Text → Option RuleError) → List Text → Option RuleError
all_ok check [] = none
all_ok check (x ∷ xs) = both_ok (check x) (all_ok check xs)

-- net.ParseIP and net.ParseCIDR, as to whether they succeed.
module _ (parses_ip parses_cidr : Text → Bool) where
  unfoldable pub validate_domain_matcher : Text → Option RuleError
  validate_domain_matcher d' =
      let d : Text = trim d' in
      if text_eq d []
      then some (empty_entry d')
      else if contains (codes "://") d || any_of (λ c. c == 47 || c == 32) d
      then some (not_a_domain d)
      else elim (cut 58 d) [
        | some parts ↦
            if any_of (text_eq parts.0) domain_prefixes
            then if text_eq (trim parts.1) [] then some (prefix_alone d) else none
            else some (unknown_prefix d)
        | none ↦ if parses_ip d then some (address_as_domain d) else none
      ]

  abbrev after_prefix : Text → Text
  after_prefix (_ ∷ _ ∷ _ ∷ _ ∷ _ ∷ _ ∷ s) = s
  after_prefix _ = []

  unfoldable pub validate_ip_matcher : Text → Option RuleError
  validate_ip_matcher v' =
      let v : Text = trim v' in
      if text_eq v []
      then some (empty_entry v')
      else if has_prefix v (codes "geoip:")
      then if text_eq (trim (after_prefix v)) [] then some (no_list_name v) else none
      else if any_of (λ c. c == 47) v
      then if parses_cidr v then none else some (not_a_network v)
      else if parses_ip v
      then none
      else some (not_an_address v)

abbrev pub port_range : Text → Option ℤ → Option RuleError
port_range v none = some (not_a_port v)
port_range v (some n) =
    if lt n (pos 1) || lt (pos 65535) n then some (port_out_of_range v) else none

unfoldable pub validate_port_number : Text → Option RuleError
validate_port_number v = port_range v (atoi (trim v))

abbrev pub number_or_zero : Option ℤ → ℤ
number_or_zero none = pos 0
number_or_zero (some n) = n

-- One entry of the list, between its commas.
unfoldable pub validate_port_part : Text → Option RuleError
validate_port_part part' =
    let part : Text = trim part' in
    if text_eq part [] then some (empty_port part') else elim (cut 45 part) [
      | none ↦ validate_port_number part
      | some ends ↦ both_ok (validate_port_number ends.0) (
          both_ok (validate_port_number ends.1) (
            if lt (number_or_zero (atoi (trim ends.1))) (number_or_zero (atoi (trim ends.0)))
            then some (range_backwards part)
            else none))
    ]

unfoldable pub validate_port_spec : Text → Option RuleError
validate_port_spec spec =
    if text_eq (trim spec) [] then none else all_ok validate_port_part (split 44 spec)

abbrev pub protocols : List Text
protocols = codes "http" ∷ codes "tls" ∷ codes "quic" ∷ codes "bittorrent" ∷ []

abbrev pub networks : List Text
networks = [] ∷ codes "tcp" ∷ codes "udp" ∷ codes "tcp,udp" ∷ codes "udp,tcp" ∷ []

unfoldable pub validate : (Text → Bool) → (Text → Bool) → Bool → Rule → Option RuleError
validate parses_ip parses_cidr geo_available r =
    if not (valid r.action)
    then some unknown_action
    else if not (has_matcher r)
    then some matches_nothing
    else if needs_geo_data r && not geo_available
    then some no_geo_data
    else both_ok (all_ok (validate_domain_matcher parses_ip parses_cidr) r.domains) (
        both_ok (all_ok (validate_ip_matcher parses_ip parses_cidr) r.ips) (
          both_ok (all_ok (validate_ip_matcher parses_ip parses_cidr) r.sources) (
            both_ok (validate_port_spec r.port) (
              both_ok (validate_port_spec r.source_port) (
                both_ok
                  (all_ok
                    (λ p. if any_of (text_eq p) protocols then none else some (unknown_protocol p))
                    r.protocols)
                  (if any_of (text_eq r.network) networks
                    then none
                    else some (unknown_network r.network)))))))
