-- ===== src/Model/Profile.antt =====
-- A server (internal/model/model.go, `Profile`) and whether it is complete enough to connect to.
-- `net.ParseIP` is the parameter `is_ip`, which says whether a text is an address.
pub mod Complete
use x_divine_ray.Prelude.{
  Text, Bool, true, false, not, ◌&&◌, ◌||◌, List, [], ◌∷◌, Option, none, some, text_eq, codes,
  any_of, if◌then◌else◌,
}
use x_divine_ray.Model.Int.{ℤ, pos, le, lt}

-- A Go string with four named values; `other` holds any string that is none of them.
pub data Proto : Type 0 where
  vless vmess trojan shadowsocks : Proto
  other : Text → Proto

pub record Profile : Type 0 where
  pub id : Text
  pub name : Text
  pub proto : Proto
  pub address : Text
  pub port : ℤ
  pub uuid : Text
  pub password : Text
  pub method : Text
  pub alter_id : ℤ
  pub encryption : Text
  pub flow : Text
  pub network : Text
  pub security : Text
  pub sni : Text
  pub alpn : Text
  pub fingerprint : Text
  pub public_key : Text
  pub short_id : Text
  pub spider_x : Text
  pub allow_insecure : Bool
  pub pin_auto : Bool
  pub pin_unverifiable : Bool
  pub pinned_cert : Text
  pub path : Text
  pub host : Text
  pub service_name : Text
  pub header_type : Text
  pub seed : Text
  pub quic_sec : Text
  pub quic_key : Text
  pub mux : Bool
  pub subscription : Text
  pub remark : Text

pub data ProfileError : Type 0 where
  address_empty trojan_password shadowsocks_password shadowsocks_method : ProfileError
  invalid_port : ℤ → ProfileError
  needs_uuid : Proto → ProfileError
  unsupported_proto unsupported_network unsupported_security : Text → ProfileError
  reality_key pin_auto_not_tls : ProfileError
  pin_auto_verifiable : Text → ProfileError

-- s == ""
abbrev pub is_empty : Text → Bool
is_empty [] = true
is_empty (c ∷ s) = false

-- The `switch p.Network`, as the list of its cases.
abbrev pub networks : List Text
networks =
    []
    ∷ codes "tcp"
    ∷ codes "ws"
    ∷ codes "grpc"
    ∷ codes "h2"
    ∷ codes "http"
    ∷ codes "xhttp"
    ∷ codes "kcp"
    ∷ codes "mkcp"
    ∷ codes "quic"
    ∷ codes "httpupgrade"
    ∷ codes "splithttp"
    ∷ []

abbrev pub securities : List Text
securities = [] ∷ codes "none" ∷ codes "tls" ∷ codes "reality" ∷ []

unfoldable pub network_known : Text → Bool
network_known n = any_of (text_eq n) networks

unfoldable pub security_known : Text → Bool
security_known n = any_of (text_eq n) securities

-- The `switch p.Proto`: what the credentials lack.
unfoldable pub credentials_error : Proto → Profile → Option ProfileError
credentials_error vless p = if is_empty p.uuid then some (needs_uuid vless) else none
credentials_error vmess p = if is_empty p.uuid then some (needs_uuid vmess) else none
credentials_error trojan p = if is_empty p.password then some trojan_password else none
credentials_error shadowsocks p =
    if is_empty p.password
    then some shadowsocks_password
    else if is_empty p.method
    then some shadowsocks_method
    else none
credentials_error (other s) p = some (unsupported_proto s)

module _ (is_ip : Text → Bool) where
  -- The name that the certificate would be checked against; empty if there is none.
  unfoldable pub verifiable_name : Profile → Text
  verifiable_name p =
      let name : Text = if is_empty p.sni then p.address else p.sni in
      if is_empty name || is_ip name then [] else name

  unfoldable pub can_auto_pin : Profile → Bool
  can_auto_pin p =
      if not (text_eq p.security (codes "tls"))
      then false
      else if is_empty (verifiable_name p)
      then true
      else not (is_empty p.pinned_cert) && p.pin_unverifiable

  unfoldable pub pin_auto_error : Profile → Option ProfileError
  pin_auto_error p =
      if not (text_eq p.security (codes "tls"))
      then some pin_auto_not_tls
      else if not (can_auto_pin p)
      then some (pin_auto_verifiable (verifiable_name p))
      else none

  abbrev transport_error : Profile → Option ProfileError
  transport_error p =
      if not (network_known p.network)
      then some (unsupported_network p.network)
      else if not (security_known p.security)
      then some (unsupported_security p.security)
      else if text_eq p.security (codes "reality") && is_empty p.public_key
      then some reality_key
      else if p.pin_auto
      then pin_auto_error p
      else none

  abbrev first_error : Option ProfileError → Option ProfileError → Option ProfileError
  first_error (some e) rest = some e
  first_error none rest = rest

  unfoldable pub validate : Profile → Option ProfileError
  validate p =
      if is_empty p.address
      then some address_empty
      else if le p.port (pos 0) || lt (pos 65535) p.port
      then some (invalid_port p.port)
      else first_error (credentials_error p.proto p) (transport_error p)
