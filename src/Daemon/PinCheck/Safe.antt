-- ===== src/Daemon/PinCheck/Safe.antt =====
-- A pin is replaced unseen only where nothing could have been verified.
use x_divine_ray.Prelude.{
  Bool, Text, [], arith, some, text_eq_iff, true, ◌↔◌, ◌≡◌, ◌≢◌, if◌then◌else◌, refl, All, List,
  Option-cases, ap, false, inl, inr, none, ◌&&◌, ◌++◌, ◌∙◌, ◌∷◌, ◌⊎◌,
}
use x_divine_ray.Model.Profile.{Profile}
use x_divine_ray.Model.Profile.Complete.{tls, NothingToVerify, can_auto_pin_iff}
use x_divine_ray.Ucicfg.Data.{Data, profile}
use x_divine_ray.Ucicfg.Data.Lookup.{update_profile_lem}
use x_divine_ray.Daemon.PinCheck.{
  CertResult, PinLook, inspect_pin, pin_outcome_for, accept_new_pin, update_profile,
}

module _ (is_ip : Text → Bool) where
  -- A changed certificate is accepted exactly when the profile pins one and uses TLS, the pin
  -- differs from what the server presents, the operator asked for it, and there is nothing to
  -- verify a certificate against: no name, or a name that was seen not to match.
  pub accept_iff :
      (p : Profile) (res : CertResult)
      → ((pin_outcome_for is_ip (some p) (inspect_pin (some p) (some res))).accept ≡ true) ↔ (
          (p.pinned_cert ≢ [])
          × (p.security ≡ tls)
          × (res.pin ≢ p.pinned_cert)
          × (p.pin_auto ≡ true)
          × NothingToVerify is_ip p)
  unfolding pin_outcome_for inspect_pin
  accept_iff p res = (
    λ h. ground (
      arith,
      text_eq_iff p.security tls,
      text_eq_iff res.pin p.pinned_cert,
      (can_auto_pin_iff is_ip p).0,
    ),
    λ h. ground (
      arith,
      text_eq_iff p.security tls,
      text_eq_iff res.pin p.pinned_cert,
      (can_auto_pin_iff is_ip p).1,
    ),
  )

written_or_not :
    (loads saves : Bool) (d : Data) (p target : Profile) (l : PinLook)
    → l.changed ≡ true
    → profile d p.id ≡ some target
    → accept_new_pin loads saves d (some p) (some l) ≡ (
        if loads && saves
        then (update_profile d p.id (λ q. record q { pinned_cert = l.found.pin }), true)
        else (d, false))
unfolding accept_new_pin
written_or_not true true d p target l c e = rw (c, e) refl
written_or_not true false d p target l c e = rw (c, e) refl
written_or_not false saves d p target l c e = rw c refl

no_target :
    (loads saves : Bool) (d : Data) (p : Profile) (l : PinLook)
    → l.changed ≡ true
    → profile d p.id ≡ none
    → accept_new_pin loads saves d (some p) (some l) ≡ (d, false)
unfolding accept_new_pin
no_target true saves d p l c e = rw (c, e) refl
no_target false saves d p l c e = rw c refl

-- Accepting a changed pin gives the pin presented to the first profile of that id, and leaves the rest
-- of the file as it was: the other profiles and their order, all but the pin of that profile, the
-- settings, the groups, the rules and the subscriptions. Where no profile has the id, or the file can
-- not be loaded or saved, it says so and the file is as it was.
pub accept_new_pin_lem :
    (loads saves : Bool) (d : Data) (p : Profile) (l : PinLook)
    → l.changed ≡ true
    → ((profile d p.id ≡ none) × (accept_new_pin loads saves d (some p) (some l) ≡ (d, false)))
      ⊎ ((before : List Profile) × (target : Profile) × (after : List Profile) × (d.profiles
            ≡ before ++ target ∷ after)
          × All (λ q. q.id ≢ p.id) before
          × (target.id ≡ p.id)
          × (accept_new_pin loads saves d (some p) (some l) ≡ (
              if loads && saves
              then (
                record {
                  settings = d.settings;
                  profiles = before ++ record target { pinned_cert = l.found.pin } ∷ after;
                  groups = d.groups;
                  rules = d.rules;
                  subscriptions = d.subscriptions;
                },
                true,
              )
              else (d, false))))
accept_new_pin_lem loads saves d p l c = elim (Option-cases (profile d p.id)) [
  | inl gone ↦ inl (gone, no_target loads saves d p l c gone)
  | inr (target, here) ↦
      let (before, after, whole, others, same, there) =
        update_profile_lem d p.id (λ q. record q { pinned_cert = l.found.pin }) target here in
      inr (
        before,
        target,
        after,
        whole,
        others,
        same,
        written_or_not loads saves d p target l c here
            ∙ ap (λ (r : Data). if loads && saves then (r, true) else (d, false)) there,
      )
]
