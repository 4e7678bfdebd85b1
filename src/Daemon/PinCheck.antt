-- ===== src/Daemon/PinCheck.antt =====
-- When a pinned certificate stops matching (internal/daemon/pincheck.go). Reading the certificate
-- is `certpin.Fetch`, a TLS handshake: what it returned is an argument.
pub mod Safe
use x_divine_ray.Prelude.{
  Bool, List, Option, Text, [], codes, false, if◌then◌else◌, none, not, some, text_eq, true, ◌&&◌,
  ◌++◌, ◌||◌, ◌∷◌,
}
use x_divine_ray.Model.Profile.{Profile, can_auto_pin, is_empty}
use x_divine_ray.Ucicfg.Data.{Data, profile, update_profile}

-- `certpin.CertInfo`, of which this code reads these fields.
pub record CertInfo : Type 0 where
  pub subject : Text
  pub issuer : Text
  pub not_before : Text
  pub not_after : Text

-- `certpin.Result`, with the note that its `Describe` gives.
pub record CertResult : Type 0 where
  pub pin : Text
  pub chain : List CertInfo
  pub note : Text

pub record PinLook : Type 0 where
  pub changed : Bool
  pub previous : Text
  pub found : CertResult

-- `fetched` is what the handshake gave, `none` for an error.
unfoldable pub inspect_pin : Option Profile → Option CertResult → Option PinLook
inspect_pin none fetched = none
inspect_pin (some p) none = none
inspect_pin (some p) (some res) =
    if is_empty p.pinned_cert || not (text_eq p.security (codes "tls"))
    then none
    else some (record {
      changed = not (text_eq res.pin p.pinned_cert);
      previous = p.pinned_cert;
      found = res;
    })

-- The loop over the chain, whose first certificate is the leaf.
describe_chain : Text → List CertInfo → Text
describe_chain label [] = []
describe_chain label (c ∷ cs) =
    label
    ++ (c.subject
        ++ (codes "\n        issued by "
            ++ (c.issuer
                ++ (codes "\n        valid "
                    ++ (c.not_before
                        ++ (codes " to "
                            ++ (c.not_after
                                ++ (codes "\n" ++ describe_chain (codes "  ca:   ") cs))))))))

abbrev note_text : Text → Text
note_text [] = []
note_text (c ∷ s) = codes "\n" ++ (c ∷ s)

unfoldable pub describe : Option PinLook → Text
unfolding describe_chain
describe none = []
describe (some l) =
    if not l.changed
    then codes
        "the certificate this server is presenting is the one pinned, so the pin is not what is wrong here."
    else codes "the certificate changed.\n  pinned:    "
      ++ (l.previous
          ++ (codes "\n  presented: "
              ++ (l.found.pin
                  ++ (codes "\n"
                      ++ (describe_chain (codes "  leaf: ") l.found.chain
                          ++ note_text l.found.note)))))

pub record PinOutcome : Type 0 where
  pub detail : Text
  pub accept : Bool

module _ (is_ip : Text → Bool) where
  abbrev may_accept : Option Profile → Bool
  may_accept none = false
  may_accept (some p) = p.pin_auto && can_auto_pin is_ip p

  unfoldable pub pin_outcome_for : Option Profile → Option PinLook → PinOutcome
  pin_outcome_for p none = record { detail = []; accept = false }
  pin_outcome_for p (some l) = record {
    detail = describe (some l);
    accept = l.changed && may_accept p;
  }

-- `store.Update` loads the file, applies the change and saves it; the flags say whether the two
-- ends worked. The result is the file as it is afterwards, and whether there was no error.
unfoldable pub accept_new_pin : Bool → Bool → Data → Option Profile → Option PinLook → Data × Bool
accept_new_pin loads saves d (some p) (some l) =
    if not l.changed then (d, true) else if not loads then (d, false) else elim (profile d p.id) [
      | none ↦ (d, false)
      | some target ↦
          if saves
          then (update_profile d p.id (λ q. record q { pinned_cert = l.found.pin }), true)
          else (d, false)
    ]
accept_new_pin loads saves d p l = (d, true)
