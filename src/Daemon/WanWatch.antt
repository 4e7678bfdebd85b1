-- ===== src/Daemon/WanWatch.antt =====
-- When the upstream link comes back as somewhere else (internal/daemon/wanwatch.go): the decision.
-- Carrying it out is `upstream_changed` of the engine.
use x_divine_ray.Prelude.{
  Bool, Text, [], arith, if◌then◌else◌, not, text_eq, text_eq_iff, true, ◌&&◌, ◌↔◌, ◌≡◌, ◌≢◌,
}

pub record WanPrint : Type 0 where
  pub device : Text
  pub address : Text
  pub gateway : Text

abbrev pub no_print : WanPrint
no_print = record { device = []; address = []; gateway = [] }

-- `before == after` on the Go struct: field by field.
unfoldable pub print_eq : WanPrint → WanPrint → Bool
print_eq a b =
    text_eq a.device b.device && text_eq a.address b.address && text_eq a.gateway b.gateway

pub data UpstreamAction : Type 0 where
  ignore wait rebuild : UpstreamAction

unfoldable pub upstream_verdict : Bool → WanPrint → WanPrint → UpstreamAction
upstream_verdict connected before after =
    if not connected
    then ignore
    else if print_eq before after
    then ignore
    else if text_eq after.gateway []
    then wait
    else rebuild

pub print_eq_iff : (a b : WanPrint) → (print_eq a b ≡ true) ↔ (a ≡ b)
unfolding print_eq
print_eq_iff a b = (
  λ h. ground (
    arith,
    text_eq_iff a.device b.device,
    text_eq_iff a.address b.address,
    text_eq_iff a.gateway b.gateway,
  ),
  λ h. ground (
    arith,
    text_eq_iff a.device b.device,
    text_eq_iff a.address b.address,
    text_eq_iff a.gateway b.gateway,
  ),
)

-- A rebuild is decided exactly when something is connected, the upstream is not what it was, and
-- there is a gateway to build on; a wait exactly when all but the gateway hold.
pub upstream_verdict_iff :
    (connected : Bool) (before after : WanPrint)
    → ((upstream_verdict connected before after ≡ rebuild)
        ↔ ((connected ≡ true) × (before ≢ after) × (after.gateway ≢ [])))
      × ((upstream_verdict connected before after ≡ wait)
          ↔ ((connected ≡ true) × (before ≢ after) × (after.gateway ≡ [])))
unfolding upstream_verdict
upstream_verdict_iff connected before after = (
  (
    λ h. ground (arith, print_eq_iff before after, text_eq_iff after.gateway []),
    λ h. ground (arith, print_eq_iff before after, text_eq_iff after.gateway []),
  ),
  (
    λ h. ground (arith, print_eq_iff before after, text_eq_iff after.gateway []),
    λ h. ground (arith, print_eq_iff before after, text_eq_iff after.gateway []),
  ),
)
