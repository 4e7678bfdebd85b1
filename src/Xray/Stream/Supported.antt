-- ===== src/Xray/Stream/Supported.antt =====
-- Which servers the installed core can carry.
use mathlib.Core.Path.{subst}
use x_divine_ray.Xray.Result.{is_ok, is_ok->>=, >>=-eq-ok}
use x_divine_ray.Prelude.{
  [], arith, codes, text_eq_iff, true, ◌≡◌, ◌≢◌, ◌⊎◌, Bool-cases, Text, false, inl, inr, refl,
  text_eq, ◌∷◌, ℕ, ap, some,
}
use x_divine_ray.Model.Profile.{Profile, is_empty}
use x_divine_ray.Xray.Config.{StreamSettings, no_stream, no_sockopt}
use x_divine_ray.Xray.Words.{or_else_text, pinned_cert_hex, pinned_cert_valid}
use x_divine_ray.Xray.Result.{ok, is_ok, is_ok->>=}
use x_divine_ray.Xray.Stream.{
  Capabilities, network_of, uses_kcp_options, secure, transport, build_stream,
}

-- Over TLS a pin is blank or a digest, and the core has what the pin, or else the leave to skip the
-- verification, asks for.
abbrev pub IsTrusted : Capabilities → Profile → Type 0
IsTrusted caps p =
    p.security ≡ codes "tls"
    → (pinned_cert_valid p ≡ true)
      × (pinned_cert_hex p ≢ [] → caps.pinned_cert ≡ true)
      × (pinned_cert_hex p ≡ [] → p.allow_insecure ≡ true → caps.allow_insecure ≡ true)

-- The core has the transport, and the options of mKCP if they are used.
abbrev pub IsCarried : Capabilities → Profile → Type 0
IsCarried caps p =
    ((p.network ≡ codes "h2") ⊎ (p.network ≡ codes "http") → caps.h2_transport ≡ true)
    × ((p.network ≡ codes "kcp") ⊎ (p.network ≡ codes "mkcp")
        → uses_kcp_options p ≡ true
        → caps.kcp_header_seed ≡ true)
    × (p.network ≡ codes "quic" → caps.quic_transport ≡ true)

abbrev pub IsSupported : Capabilities → Profile → Type 0
IsSupported caps p = IsTrusted caps p × IsCarried caps p

secure-IsTrusted :
    (p : Profile) (caps : Capabilities) (ss : StreamSettings)
    → is_ok (secure p caps ss) ≡ true
    → IsTrusted caps p
unfolding secure
secure-IsTrusted p caps ss h e = ground (arith, (text_eq_iff p.security (codes "tls")).1 e)

eq_of_is_empty : (s : Text) → is_empty s ≡ true → s ≡ []
eq_of_is_empty [] h = refl
eq_of_is_empty (c ∷ s) h = cc

ne_of_is_empty : (s : Text) → is_empty s ≡ false → s ≢ []
ne_of_is_empty [] h = cc
ne_of_is_empty (c ∷ s) h = λ e. cc

IsTrusted-secure :
    (p : Profile) (caps : Capabilities) (ss : StreamSettings)
    → IsTrusted caps p
    → is_ok (secure p caps ss) ≡ true
unfolding secure
IsTrusted-secure p caps ss h = elim (Bool-cases (text_eq p.security (codes "tls"))) [
  | inl tls ↦
      let (digest, with_pin, without_pin) = h ((text_eq_iff p.security (codes "tls")).0 tls) in
      elim (Bool-cases (is_empty (pinned_cert_hex p))) [
        | inl bare ↦
            ground (arith, tls, digest, bare, without_pin (eq_of_is_empty (pinned_cert_hex p) bare))
        | inr pin ↦
            ground (arith, tls, digest, pin, with_pin (ne_of_is_empty (pinned_cert_hex p) pin))
      ]
  | inr plain ↦ ground (arith, plain)
]

module _ (p : Profile) (caps : Capabilities) (ss : StreamSettings) where
  -- What each transport that some cores lack asks of the core.
  transport_h2 :
      (is_ok (transport p caps (codes "h2") ss) ≡ true → caps.h2_transport ≡ true)
      × (is_ok (transport p caps (codes "http") ss) ≡ true → caps.h2_transport ≡ true)
  unfolding transport codes text_eq
  transport_h2 = (λ h. ground arith, λ h. ground arith)

  transport_kcp :
      (uses_kcp_options p ≡ true
        → is_ok (transport p caps (codes "kcp") ss) ≡ true
        → caps.kcp_header_seed ≡ true)
      × (uses_kcp_options p ≡ true
          → is_ok (transport p caps (codes "mkcp") ss) ≡ true
          → caps.kcp_header_seed ≡ true)
  unfolding transport codes text_eq
  transport_kcp = (λ u h. ground arith, λ u h. ground arith)

  transport_quic : is_ok (transport p caps (codes "quic") ss) ≡ true → caps.quic_transport ≡ true
  unfolding transport codes text_eq
  transport_quic h = ground arith

  -- Where the profile names a transport, that is the one that is used.
  at_named :
      (c : ℕ) (w : Text)
      → p.network ≡ c ∷ w
      → is_ok (transport p caps (network_of p) ss) ≡ true
      → is_ok (transport p caps (c ∷ w) ss) ≡ true
  unfolding or_else_text
  at_named c w e h =
      let used : network_of p ≡ c ∷ w = ap (λ (n : Text). or_else_text n (codes "tcp")) e in
      subst (λ (n : Text). is_ok (transport p caps n ss) ≡ true) used h

  transport-IsCarried : is_ok (transport p caps (network_of p) ss) ≡ true → IsCarried caps p
  unfolding codes
  transport-IsCarried h = (h2, kcp, quic)
    where
      h2 : (p.network ≡ codes "h2") ⊎ (p.network ≡ codes "http") → caps.h2_transport ≡ true
      h2 (inl e) = transport_h2.0 (at_named _ _ e h)
      h2 (inr e) = transport_h2.1 (at_named _ _ e h)

      kcp :
          (p.network ≡ codes "kcp") ⊎ (p.network ≡ codes "mkcp")
          → uses_kcp_options p ≡ true
          → caps.kcp_header_seed ≡ true
      kcp (inl e) u = transport_kcp.0 u (at_named _ _ e h)
      kcp (inr e) u = transport_kcp.1 u (at_named _ _ e h)

      quic : p.network ≡ codes "quic" → caps.quic_transport ≡ true
      quic e = transport_quic (at_named _ _ e h)

network_named :
    (n w : Text)
    → text_eq (codes "tcp") w ≡ false
    → text_eq (or_else_text n (codes "tcp")) w ≡ true
    → n ≡ w
unfolding or_else_text
network_named [] w other e = cc
network_named (c ∷ n) w other e = (text_eq_iff (c ∷ n) w).0 e

tcp_others :
    (text_eq (codes "tcp") (codes "h2") ≡ false)
    × (text_eq (codes "tcp") (codes "http") ≡ false)
    × (text_eq (codes "tcp") (codes "kcp") ≡ false)
    × (text_eq (codes "tcp") (codes "mkcp") ≡ false)
    × (text_eq (codes "tcp") (codes "quic") ≡ false)
unfolding codes text_eq
tcp_others = (refl, refl, refl, refl, refl)

IsCarried-transport :
    (p : Profile) (caps : Capabilities) (ss : StreamSettings)
    → IsCarried caps p
    → is_ok (transport p caps (network_of p) ss) ≡ true
unfolding transport
IsCarried-transport p caps ss h =
    let named : (w : Text)
        → text_eq (codes "tcp") w ≡ false
        → text_eq (network_of p) w ≡ true
        → p.network ≡ w =
      network_named p.network in
    let h2 : text_eq (network_of p) (codes "h2") ≡ true → caps.h2_transport ≡ true =
      λ e. h.0 (inl (named (codes "h2") tcp_others.0 e)) in
    let http : text_eq (network_of p) (codes "http") ≡ true → caps.h2_transport ≡ true =
      λ e. h.0 (inr (named (codes "http") tcp_others.1 e)) in
    let kcp : text_eq (network_of p) (codes "kcp") ≡ true
        → uses_kcp_options p ≡ true
        → caps.kcp_header_seed ≡ true =
      λ e. h.1 (inl (named (codes "kcp") tcp_others.2 e)) in
    let mkcp : text_eq (network_of p) (codes "mkcp") ≡ true
        → uses_kcp_options p ≡ true
        → caps.kcp_header_seed ≡ true =
      λ e. h.1 (inr (named (codes "mkcp") tcp_others.3 e)) in
    let quic : text_eq (network_of p) (codes "quic") ≡ true → caps.quic_transport ≡ true =
      λ e. h.2 (named (codes "quic") tcp_others.4 e) in
    ground arith

-- The stream settings are built exactly where the core supports the server.
abbrev bare_stream : Profile → ℕ → StreamSettings
bare_stream p mark = record no_stream {
  network = network_of p;
  sockopt = some (record no_sockopt { mark = mark });
}

pub build_stream-IsSupported :
    (p : Profile) (mark : ℕ) (caps : Capabilities) {ss : StreamSettings}
    → build_stream p mark caps ≡ ok ss
    → IsSupported caps p
unfolding build_stream
build_stream-IsSupported p mark caps h =
    let (ss, e1, e2) = >>=-eq-ok (secure p caps (bare_stream p mark)) _ h in
    (
      secure-IsTrusted p caps (bare_stream p mark) (rw e1 refl),
      transport-IsCarried p caps ss (rw e2 refl),
    )

pub IsSupported-build_stream :
    (p : Profile) (mark : ℕ) (caps : Capabilities)
    → IsSupported caps p
    → is_ok (build_stream p mark caps) ≡ true
unfolding build_stream
IsSupported-build_stream p mark caps h =
    is_ok->>= (secure p caps (bare_stream p mark)) _
      (IsTrusted-secure p caps (bare_stream p mark) h.0) (λ ss. IsCarried-transport p caps ss h.1)
