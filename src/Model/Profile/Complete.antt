-- ===== src/Model/Profile/Complete.antt =====
-- `Validate` accepts exactly the profiles that meet a list of requirements.
use x_divine_ray.Prelude.{
  ℕ, ◌≤◌, Text, Bool, true, false, ◌||◌, [], ◌≡◌, ◌≢◌, ◌⊎◌, ◌↔◌, refl, arith, none, text_eq_iff,
  codes,
}
use x_divine_ray.Model.Int.{ℤ, pos, negsuc, le, lt}
use x_divine_ray.Model.Profile.{
  Proto, vless, vmess, trojan, shadowsocks, other, Profile, network_known, security_known,
  credentials_error, verifiable_name, can_auto_pin, pin_auto_error, validate,
}

abbrev pub HasCredentials : Proto → Profile → Type 0
HasCredentials vless p = p.uuid ≢ []
HasCredentials vmess p = p.uuid ≢ []
HasCredentials trojan p = p.password ≢ []
HasCredentials shadowsocks p = (p.password ≢ []) × (p.method ≢ [])
HasCredentials (other s) p = ⊥

abbrev pub tls : Text
tls = codes "tls"

abbrev pub reality : Text
reality = codes "reality"

module _ (is_ip : Text → Bool) where
  -- There is nothing to verify a certificate against: no name, or one that was seen to fail.
  abbrev pub NothingToVerify : Profile → Type 0
  NothingToVerify p =
      (verifiable_name is_ip p ≡ []) ⊎ ((p.pinned_cert ≢ []) × (p.pin_unverifiable ≡ true))

  pub record IsComplete (p : Profile) : Type 0 where
    pub addressed : p.address ≢ []
    pub in_range : (n : ℕ) × (p.port ≡ pos n) × (1 ≤ n) × (n ≤ 65535)
    pub credentials : HasCredentials p.proto p
    pub network : network_known p.network ≡ true
    pub security : security_known p.security ≡ true
    pub keyed : p.security ≡ reality → p.public_key ≢ []
    pub pinned : p.pin_auto ≡ true → (p.security ≡ tls) × NothingToVerify p

  pub can_auto_pin_iff :
      (p : Profile) → (can_auto_pin is_ip p ≡ true) ↔ ((p.security ≡ tls) × NothingToVerify p)
  unfolding can_auto_pin
  can_auto_pin_iff p = (
    λ h. ground (arith, text_eq_iff p.security tls),
    λ h. ground (arith, text_eq_iff p.security tls),
  )

  HasCredentials-of : (q : Proto) (p : Profile) → credentials_error q p ≡ none → HasCredentials q p
  unfolding credentials_error
  HasCredentials-of vless p h = ground arith
  HasCredentials-of vmess p h = ground arith
  HasCredentials-of trojan p h = ground arith
  HasCredentials-of shadowsocks p h = ground arith
  HasCredentials-of (other s) p h = cc

  credentials_error-none :
      (q : Proto) (p : Profile) → HasCredentials q p → credentials_error q p ≡ none
  unfolding credentials_error
  credentials_error-none vless p h = ground arith
  credentials_error-none vmess p h = ground arith
  credentials_error-none trojan p h = ground arith
  credentials_error-none shadowsocks p h = ground arith
  credentials_error-none (other s) p h = absurd h

  port_range :
      (z : ℤ)
      → (le z (pos 0) || lt (pos 65535) z) ≡ false
      → (n : ℕ) × (z ≡ pos n) × (1 ≤ n) × (n ≤ 65535)
  port_range (pos n) h = (n, refl, ground arith, ground arith)
  port_range (negsuc n) h = cc

  validate-IsComplete : (p : Profile) → validate is_ip p ≡ none → IsComplete p
  unfolding validate pin_auto_error
  validate-IsComplete p h = record {
    addressed = ground arith;
    in_range = port_range p.port (ground arith);
    credentials = HasCredentials-of p.proto p (ground arith);
    network = ground arith;
    security = ground arith;
    keyed = λ e. ground (arith, text_eq_iff p.security reality);
    pinned = λ e. (can_auto_pin_iff p).0 (ground arith);
  }

  IsComplete-validate : (p : Profile) → IsComplete p → validate is_ip p ≡ none
  unfolding validate pin_auto_error
  IsComplete-validate p c = ground (
    arith,
    credentials_error-none p.proto p c.credentials,
    (can_auto_pin_iff p).1,
    text_eq_iff p.security reality,
    text_eq_iff p.security tls,
  )

  -- `Validate` returns no error exactly for a profile with an address, a port from 1 to 65535, the
  -- credentials of its protocol, a known network and security, a public key if it uses REALITY,
  -- and, if it accepts changed certificates, TLS and nothing to verify a certificate against.
  pub validate_iff : (p : Profile) → (validate is_ip p ≡ none) ↔ IsComplete p
  validate_iff p = (validate-IsComplete p, IsComplete-validate p)
