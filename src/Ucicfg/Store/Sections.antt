-- ===== src/Ucicfg/Store/Sections.antt =====
-- What the section of a profile reads as.
use x_divine_ray.Prelude.{
  Bool, Text, [], codes, text_eq, true, false, zero, suc, ◌∷◌, ◌≡◌, ◌≢◌, refl, ap, ◌∙◌,
}
use x_divine_ray.Model.Int.{ℤ, pos, negsuc}
use x_divine_ray.Model.Profile.{Profile}
use x_divine_ray.Ucicfg.Names.{proto_of, proto_text}
use x_divine_ray.Ucicfg.Syntax.{get, new_section}
use x_divine_ray.Prelude.Trim.{trim, drop_space, is_space}
use x_divine_ray.Ucicfg.Value.{or_default, to_int, to_bool, itoa}
use x_divine_ray.Ucicfg.Value.RoundTrip.{to_int-itoa}
use x_divine_ray.Ucicfg.Store.{save_profile, load_profile, profile_options, flag, unless_zero}
use x_divine_ray.Ucicfg.Store.Filled.{
  get-set_some, last_some, or_before, get-new_section, name-set_some,
}

pub or_before_nil : (v : Text) → or_before v [] ≡ v
or_before_nil [] = refl
or_before_nil (c ∷ v) = refl

pub or_default_lem : (v def : Text) → v ≢ [] → or_default v def ≡ v
unfolding or_default
or_default_lem [] def h = absurd (h refl)
or_default_lem (c ∷ v) def h = refl

to_int-unless_zero : (z : ℤ) → to_int (unless_zero z) (pos 0) ≡ z
unfolding to_int
to_int-unless_zero (pos zero) = refl
to_int-unless_zero (pos (suc n)) = to_int-itoa (pos (suc n)) (pos 0)
to_int-unless_zero (negsuc n) = to_int-itoa (negsuc n) (pos 0)

to_bool-flag : (b : Bool) → to_bool (flag b) false ≡ b
unfolding to_bool codes text_eq trim drop_space is_space
to_bool-flag true = refl
to_bool-flag false = refl

-- A profile that loading does not change: it has a network and a security, and its protocol is
-- written as it is read.
pub record IsStorable (p : Profile) : Type 0 where
  pub network : p.network ≢ []
  pub security : p.security ≢ []
  pub proto : proto_of (or_default (proto_text p.proto) (codes "vless")) ≡ p.proto

module _ (p : Profile) where
  got :
      (j v : Text)
      → last_some j (profile_options p) [] ≡ or_before v []
      → get (save_profile p) j ≡ v
  unfolding save_profile
  got j v e =
      get-set_some j (profile_options p) (new_section (codes "profile") p.id false)
      ∙ (ap (last_some j (profile_options p)) (get-new_section (codes "profile") p.id j false)
          ∙ (e ∙ or_before_nil v))

  name-save_profile : (save_profile p).name ≡ p.id
  unfolding save_profile
  name-save_profile = name-set_some (profile_options p) (new_section (codes "profile") p.id false)

  -- Loading the section that was written of a profile gives the profile.
  pub load_profile-save_profile : IsStorable p → load_profile (save_profile p) ≡ p
  unfolding load_profile codes text_eq
  load_profile-save_profile h = λ i. record {
    id = name-save_profile i;
    name = got (codes "name") p.name refl i;
    proto =
        (ap (λ t. proto_of (or_default t (codes "vless")))
              (got (codes "proto") (proto_text p.proto) refl)
            ∙ h.proto)
          i;
    address = got (codes "address") p.address refl i;
    port =
        (ap (λ t. to_int t (pos 0)) (got (codes "port") (itoa p.port) refl)
            ∙ to_int-itoa p.port (pos 0))
          i;
    uuid = got (codes "uuid") p.uuid refl i;
    password = got (codes "password") p.password refl i;
    method = got (codes "method") p.method refl i;
    alter_id =
        (ap (λ t. to_int t (pos 0)) (got (codes "alter_id") (unless_zero p.alter_id) refl)
            ∙ to_int-unless_zero p.alter_id)
          i;
    encryption = got (codes "encryption") p.encryption refl i;
    flow = got (codes "flow") p.flow refl i;
    network =
        (ap (λ t. or_default t (codes "tcp")) (got (codes "net") p.network refl)
            ∙ or_default_lem p.network (codes "tcp") h.network)
          i;
    security =
        (ap (λ t. or_default t (codes "none")) (got (codes "security") p.security refl)
            ∙ or_default_lem p.security (codes "none") h.security)
          i;
    sni = got (codes "sni") p.sni refl i;
    alpn = got (codes "alpn") p.alpn refl i;
    fingerprint = got (codes "fp") p.fingerprint refl i;
    public_key = got (codes "pbk") p.public_key refl i;
    short_id = got (codes "sid") p.short_id refl i;
    spider_x = got (codes "spx") p.spider_x refl i;
    allow_insecure =
        (ap (λ t. to_bool t false) (got (codes "allow_insecure") (flag p.allow_insecure) refl)
            ∙ to_bool-flag p.allow_insecure)
          i;
    pinned_cert = got (codes "pinned_cert") p.pinned_cert refl i;
    pin_auto =
        (ap (λ t. to_bool t false) (got (codes "pin_auto") (flag p.pin_auto) refl)
            ∙ to_bool-flag p.pin_auto)
          i;
    pin_unverifiable =
        (ap (λ t. to_bool t false) (got (codes "pin_unverifiable") (flag p.pin_unverifiable) refl)
            ∙ to_bool-flag p.pin_unverifiable)
          i;
    path = got (codes "path") p.path refl i;
    host = got (codes "host") p.host refl i;
    service_name = got (codes "service_name") p.service_name refl i;
    header_type = got (codes "header_type") p.header_type refl i;
    seed = got (codes "seed") p.seed refl i;
    quic_sec = got (codes "quic_security") p.quic_sec refl i;
    quic_key = got (codes "quic_key") p.quic_key refl i;
    mux = (ap (λ t. to_bool t false) (got (codes "mux") (flag p.mux) refl) ∙ to_bool-flag p.mux) i;
    subscription = got (codes "sub") p.subscription refl i;
    remark = got (codes "remark") p.remark refl i;
  }
