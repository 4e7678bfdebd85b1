-- ===== src/Model/Strategy.antt =====
-- How a group picks among its members (internal/model/model.go, `Strategy` and `Group`).
use x_divine_ray.Prelude.{
  Text, Bool, true, false, ◌||◌, List, [], ◌∷◌, ◌≡◌, arith, Option, none, some, text_eq, codes,
  any_of, if◌then◌else◌, inl, inr, refl, text_eq_iff, ◌↔◌, ◌≢◌, ◌⊎◌,
}

pub data Strategy : Type 0 where
  least_ping least_load balance random round_robin : Strategy
  other : Text → Strategy

abbrev pub strategy_eq : Strategy → Strategy → Bool
strategy_eq least_ping least_ping = true
strategy_eq least_load least_load = true
strategy_eq balance balance = true
strategy_eq random random = true
strategy_eq round_robin round_robin = true
strategy_eq (other s) (other t) = text_eq s t
strategy_eq _ _ = false

abbrev pub strategies : List Strategy
strategies = least_ping ∷ least_load ∷ balance ∷ random ∷ round_robin ∷ []

unfoldable pub valid : Strategy → Bool
valid st = any_of (strategy_eq st) strategies

unfoldable pub health_aware : Strategy → Bool
health_aware st = strategy_eq st least_ping || strategy_eq st least_load || strategy_eq st balance

unfoldable pub spreads : Strategy → Bool
spreads st = strategy_eq st balance || strategy_eq st random || strategy_eq st round_robin

pub record Group : Type 0 where
  pub id : Text
  pub name : Text
  pub strategy : Strategy
  pub members : List Text
  pub probe_url : Text
  pub probe_interval : Text

abbrev pub default_probe_url : Text
default_probe_url = codes "https://cp.cloudflare.com/generate_204"

abbrev pub default_probe_interval : Text
default_probe_interval = codes "60s"

abbrev pub or_text : Text → Text → Text
or_text [] d = d
or_text (c ∷ s) d = c ∷ s

unfoldable pub label : Group → Text
label g = or_text g.name g.id

unfoldable pub normalize : Group → Group
normalize g = record g {
  strategy = if valid g.strategy then g.strategy else least_ping;
  probe_url = or_text g.probe_url default_probe_url;
  probe_interval = or_text g.probe_interval default_probe_interval;
}

pub data GroupError : Type 0 where
  no_members url_unparsed url_scheme url_no_host : GroupError
  unknown_strategy : Strategy → GroupError

-- What `url.Parse` returns of an address: its scheme and its host, or an error.
abbrev pub UrlParser : Type 0
UrlParser = Text → Option (Text × Text)

abbrev check_url : Option (Text × Text) → Option GroupError
check_url none = some url_unparsed
check_url (some (scheme, [])) =
    if text_eq scheme (codes "http") || text_eq scheme (codes "https")
    then some url_no_host
    else some url_scheme
check_url (some (scheme, c ∷ host)) =
    if text_eq scheme (codes "http") || text_eq scheme (codes "https")
    then none
    else some url_scheme

abbrev probe_url_error : UrlParser → Text → Option GroupError
probe_url_error parse [] = none
probe_url_error parse (c ∷ s) = check_url (parse (c ∷ s))

unfoldable pub validate_probe_url : UrlParser → Group → Option GroupError
validate_probe_url parse g = probe_url_error parse g.probe_url

abbrev validate_members : UrlParser → Group → List Text → Option GroupError
validate_members parse g [] = some no_members
validate_members parse g (m ∷ ms) =
    if valid g.strategy then validate_probe_url parse g else some (unknown_strategy g.strategy)

unfoldable pub validate : UrlParser → Group → Option GroupError
validate parse g = validate_members parse g g.members

-- The probe's address is left empty, or it parses as http or https with a host.
abbrev pub ProbeOk : UrlParser → Text → Type 0
ProbeOk parse url =
    (url ≡ [])
    ⊎ ((scheme : Text) × (host : Text) × (parse url ≡ some (scheme, host))
        × ((scheme ≡ codes "http") ⊎ (scheme ≡ codes "https"))
        × (host ≢ []))

check_url-ok :
    (r : Option (Text × Text))
    → check_url r ≡ none
    → (scheme : Text) × (host : Text) × (r ≡ some (scheme, host))
      × ((scheme ≡ codes "http") ⊎ (scheme ≡ codes "https"))
      × (host ≢ [])
check_url-ok none h = cc
check_url-ok (some (scheme, [])) h = absurd (ground arith)
check_url-ok (some (scheme, c ∷ host)) h = (
  scheme,
  c ∷ host,
  refl,
  ground (arith, text_eq_iff scheme (codes "http"), text_eq_iff scheme (codes "https")),
  λ e. cc,
)

ok-check_url :
    (scheme host : Text)
    → (scheme ≡ codes "http") ⊎ (scheme ≡ codes "https")
    → host ≢ []
    → check_url (some (scheme, host)) ≡ none
ok-check_url scheme [] k ne = absurd (ne refl)
ok-check_url scheme (c ∷ host) k ne =
    ground (arith, text_eq_iff scheme (codes "http"), text_eq_iff scheme (codes "https"))

probe_url_iff :
    (parse : UrlParser) (url : Text) → (probe_url_error parse url ≡ none) ↔ ProbeOk parse url
probe_url_iff parse [] = (λ h. inl refl, λ h. refl)
probe_url_iff parse (c ∷ s) = (λ h. inr (check_url-ok (parse (c ∷ s)) h), back)
  where
    back : ProbeOk parse (c ∷ s) → check_url (parse (c ∷ s)) ≡ none
    back (inl e) = cc
    back (inr (scheme, host, e, k, ne)) = rw e (ok-check_url scheme host k ne)

-- `Validate` accepts a group exactly when it has members, its strategy is one of the five, and the
-- address it probes is empty or an http or https address with a host.
pub group_validate_iff :
    (parse : UrlParser) (g : Group)
    → (validate parse g ≡ none)
      ↔ ((g.members ≢ []) × (valid g.strategy ≡ true) × ProbeOk parse g.probe_url)
unfolding validate validate_probe_url
group_validate_iff parse g = go g.members
  where
    go :
        (ms : List Text)
        → (validate_members parse g ms ≡ none)
          ↔ ((ms ≢ []) × (valid g.strategy ≡ true) × ProbeOk parse g.probe_url)
    go [] = (λ h. cc, λ h. absurd (h.0 refl))
    go (m ∷ ms) = (
      λ h. (λ e. cc, ground arith, (probe_url_iff parse g.probe_url).0 (ground arith)),
      λ h. ground (arith, (probe_url_iff parse g.probe_url).1 h.2),
    )
