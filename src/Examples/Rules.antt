-- ===== src/Examples/Rules.antt =====
-- A port specification with a port and a range.
use x_divine_ray.Prelude.{Text, [], codes, none, text_eq, ◌≡◌, ◌↔◌, ◌⊎◌, refl, All}
use x_divine_ray.Prelude.Trim.{trim, drop_space, is_space}
use x_divine_ray.Model.Rule.Validate.{
  cut, split, all_ok, validate_port_spec, validate_port_part, validate_port_number,
}
use x_divine_ray.Model.Rule.Validate.Ports.{PartOk, validate_port_spec_iff}
use x_divine_ray.Ucicfg.Value.{atoi, digits_from, is_digit}

abbrev ports : Text
ports = codes "443, 1000-2000"

ports_accepted : validate_port_spec ports ≡ none
unfolding validate_port_spec all_ok validate_port_part validate_port_number split cut trim
    drop_space is_space codes text_eq atoi digits_from is_digit
ports_accepted = refl

validate_port_spec_iff_example :
    (validate_port_spec ports ≡ none) ↔ ((trim ports ≡ []) ⊎ All PartOk (split 44 ports))
validate_port_spec_iff_example = validate_port_spec_iff ports
