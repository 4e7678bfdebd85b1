-- ===== src/Examples/Pins.antt =====
-- Pins on the sample servers.
use x_divine_ray.Prelude.{
  [], codes, refl, some, true, ◌↔◌, ◌≡◌, ◌≢◌, if◌then◌else◌, All, List, false, none, ◌&&◌, ◌++◌,
  ◌∷◌, ◌⊎◌,
}
use x_divine_ray.Model.Profile.{Profile}
use x_divine_ray.Model.Profile.Complete.{tls, NothingToVerify}
use x_divine_ray.Ucicfg.Data.{profile}
use x_divine_ray.Daemon.WanWatch.{no_print, rebuild, wait, upstream_verdict, upstream_verdict_iff}
use x_divine_ray.Daemon.PinCheck.{CertResult, PinLook, inspect_pin, pin_outcome_for, accept_new_pin}
use x_divine_ray.Daemon.PinCheck.Safe.{accept_iff, accept_new_pin_lem}
use x_divine_ray.Examples.Samples.{pinned, disk, checks}

abbrev presented : CertResult
presented = record { pin = codes "bb"; chain = []; note = [] }

abbrev changed_pin : PinLook
changed_pin = record { changed = true; previous = codes "aa"; found = presented }

accept_iff_example :
    ((pin_outcome_for checks.is_ip
        (some pinned)
        (inspect_pin (some pinned) (some presented))).accept
      ≡ true)
    ↔ ((pinned.pinned_cert ≢ [])
        × (pinned.security ≡ tls)
        × (presented.pin ≢ pinned.pinned_cert)
        × (pinned.pin_auto ≡ true)
        × NothingToVerify checks.is_ip pinned)
accept_iff_example = accept_iff checks.is_ip pinned presented

accept_new_pin_lem_example :
    ((profile disk pinned.id ≡ none)
      × (accept_new_pin true true disk (some pinned) (some changed_pin) ≡ (disk, false)))
    ⊎ ((before : List Profile) × (target : Profile) × (after : List Profile) × (disk.profiles
          ≡ before ++ target ∷ after)
        × All (λ q. q.id ≢ pinned.id) before
        × (target.id ≡ pinned.id)
        × (accept_new_pin true true disk (some pinned) (some changed_pin) ≡ (
            if true && true
            then (
              record {
                settings = disk.settings;
                profiles = before ++ record target { pinned_cert = codes "bb" } ∷ after;
                groups = disk.groups;
                rules = disk.rules;
                subscriptions = disk.subscriptions;
              },
              true,
            )
            else (disk, false))))
accept_new_pin_lem_example = accept_new_pin_lem true true disk pinned changed_pin refl

upstream_verdict_iff_example :
    ((upstream_verdict true no_print no_print ≡ rebuild)
      ↔ ((true ≡ true) × (no_print ≢ no_print) × (no_print.gateway ≢ [])))
    × ((upstream_verdict true no_print no_print ≡ wait)
        ↔ ((true ≡ true) × (no_print ≢ no_print) × (no_print.gateway ≡ [])))
upstream_verdict_iff_example = upstream_verdict_iff true no_print no_print
