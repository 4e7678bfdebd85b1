-- ===== src/Xray/Words.antt =====
-- The small functions on texts that the configuration is built with (internal/xray/config.go and
-- fingerprint.go; splitList, PinnedCertHex and ALPNList of internal/model/model.go).
use x_divine_ray.Prelude.{
  Bool, List, Text, [], all_of, any_of, codes, if◌then◌else◌, keep_if, leb, length, map, not,
  text_eq, ℕ, ◌&&◌, ◌++◌, ◌==◌, ◌||◌, ◌∷◌,
}
use x_divine_ray.Prelude.Trim.{trim}
use x_divine_ray.Model.Profile.{Profile, is_empty}
use x_divine_ray.Model.Rule.Validate.{split, contains}
use x_divine_ray.Ucicfg.Value.{lower, is_digit}

-- strings.EqualFold against a word of small letters without k and s, whose only other spellings are
-- by ASCII capitals.
abbrev pub folds_to : Text → Text → Bool
folds_to s word = text_eq (lower s) word

-- orDefault of two and of three values.
unfoldable pub or_else_text : Text → Text → Text
or_else_text v w = if is_empty v then w else v

unfoldable pub trim_all : List Text → List Text
trim_all [] = []
trim_all (v ∷ vs) =
    let rest : List Text = trim_all vs in if is_empty (trim v) then rest else trim v ∷ rest

unfoldable pub split_list : Text → List Text
unfolding trim_all
split_list s = if is_empty (trim s) then [] else trim_all (split 44 s)

unfoldable pub has_header : Text → Bool
has_header t = let w : Text = trim (lower t) in not (is_empty w) && not (text_eq w (codes "none"))

unfoldable pub core_fingerprint : Text → Text
core_fingerprint fp = if folds_to (trim fp) (codes "helloxdivine") then codes "hellogolang" else fp

unfoldable pub access_log : Text → Text
access_log level =
    if text_eq level (codes "debug") || text_eq level (codes "info") then [] else codes "none"

unfoldable pub upstream_dns : Text → Text
upstream_dns addr =
    let v : Text = trim addr in
    if is_empty v
    then v
    else if contains (codes "://") v || text_eq v (codes "localhost")
    then v
    else codes "tcp://" ++ v

-- strings.ReplaceAll of one byte by nothing.
abbrev without : ℕ → Text → Text
without c = keep_if (λ x. not (x == c))

abbrev is_hex : ℕ → Bool
is_hex c = is_digit c || leb 97 c && leb c 102

unfoldable pub pinned_cert_hex : Profile → Text
pinned_cert_hex p =
    let h : Text = without 32 (without 58 (lower (trim p.pinned_cert))) in
    if not (length h == 64) then [] else if all_of is_hex h then h else []

unfoldable pub pinned_cert_valid : Profile → Bool
pinned_cert_valid p = is_empty (trim p.pinned_cert) || not (is_empty (pinned_cert_hex p))

-- What the `drop` map of ALPNList holds.
unfoldable pub alpn_drops : Profile → List Text
alpn_drops p =
    (if not (is_empty p.network) && not (text_eq p.network (codes "quic"))
      then codes "h3" ∷ []
      else [])
    ++ (if text_eq p.network (codes "ws") || text_eq p.network (codes "httpupgrade")
        then codes "h2" ∷ []
        else [])

unfoldable pub alpn_list : Profile → List Text
alpn_list p = keep_if (λ a. not (any_of (text_eq a) (alpn_drops p))) (split_list p.alpn)

-- A bare name is matched with its subdomains; an entry with a prefix stays as it is.
abbrev pub domain_matcher : Text → Text
domain_matcher d = if any_of (λ c. c == 58) d then d else codes "domain:" ++ d

unfoldable pub domain_matchers : List Text → List Text
unfolding trim_all
domain_matchers ds = map domain_matcher (trim_all ds)
