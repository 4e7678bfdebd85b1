-- ===== src/Daemon/Engine/Outcome.antt =====
-- What `Connect` leaves behind: a whole connection, the previous one, or nothing at all.
use x_divine_ray.Prelude.{
  Bool, Option, Text, arith, if◌then◌else◌, none, refl, true, ◌||◌, ◌≡◌, ◌∙◌,
}
use x_divine_ray.Model.Mode
use x_divine_ray.Model.Profile.{Profile}
use x_divine_ray.Model.Settings.{Settings}
use x_divine_ray.Daemon.Engine.{World, Attempt, ◌>>◌}
use x_divine_ray.Daemon.Engine.Start.{
  prepare, start_core, start_tun, probe, capture, steer, start_locked, is_redirect, is_dnsmasq,
}
use x_divine_ray.Daemon.Engine.Covered.{>>-eq-none, prepare_pure}

abbrev pub captures : Settings → Bool
captures s = Mode.needs_firewall_capture s.mode || is_redirect s.dns_mode

-- The world after a start in which every step worked.
abbrev pub started : Settings → World → World
started s w = record w {
  engine = record w.engine {
    core = true;
    dns = true;
    tun = if Mode.needs_tun_process s.mode then true else w.engine.tun;
    firewall = if captures s then true else w.engine.firewall;
  };
  kernel = record {
    core_running = true;
    tun_up = if Mode.needs_tun_process s.mode then true else w.kernel.tun_up;
    rules_installed = if captures s then true else w.kernel.rules_installed;
    dns_steered = if is_dnsmasq s.dns_mode then true else w.kernel.dns_steered;
  };
}

module _ (s : Settings) (a : Attempt) (w : World) where
  start_core_done :
      (start_core a w).0 ≡ none
      → (start_core a w).1 ≡ record w {
        engine = record w.engine { core = true; dns = true };
        kernel = record w.kernel { core_running = true };
      }
  unfolding start_core ◌>>◌
  start_core_done h = ground arith

  start_tun_done :
      (start_tun s a w).0 ≡ none
      → (start_tun s a w).1 ≡ record w {
        engine = record w.engine {
          tun = if Mode.needs_tun_process s.mode then true else w.engine.tun;
        };
        kernel = record w.kernel {
          tun_up = if Mode.needs_tun_process s.mode then true else w.kernel.tun_up;
        };
      }
  unfolding start_tun ◌>>◌
  start_tun_done h = ground arith

  capture_done :
      (capture s a w).0 ≡ none
      → (capture s a w).1 ≡ record w {
        engine = record w.engine { firewall = if captures s then true else w.engine.firewall };
        kernel = record w.kernel {
          rules_installed = if captures s then true else w.kernel.rules_installed;
        };
      }
  unfolding capture ◌>>◌
  capture_done h = ground arith

  steer_done :
      (steer s a w).0 ≡ none
      → (steer s a w).1 ≡ record w {
        kernel = record w.kernel {
          dns_steered = if is_dnsmasq s.dns_mode then true else w.kernel.dns_steered;
        };
      }
  unfolding steer ◌>>◌
  steer_done h = ground arith

  probe_done :
      (is_ip : Text → Bool) (p : Option Profile)
      → (probe is_ip p a w).0 ≡ none
      → (probe is_ip p a w).1 ≡ w
  unfolding probe
  probe_done is_ip p h = ground arith

-- A start that returns no error has brought up the core, and exactly what the mode and the DNS mode
-- need besides: the TUN device, the capture rules, the resolver's configuration. It has changed
-- nothing else.
pub start_locked_done :
    (is_ip : Text → Bool) (p : Option Profile) (s : Settings) (a : Attempt) (w : World)
    → (start_locked is_ip p s a w).0 ≡ none
    → (start_locked is_ip p s a w).1 ≡ started s w
unfolding start_locked
start_locked_done is_ip p s a w h =
    let (_, h1, e1) = >>-eq-none (prepare s a) _ w h in
    let (c2, h2, e2) = >>-eq-none (start_core a) _ _ h1 in
    let (c3, h3, e3) = >>-eq-none (start_tun s a) _ _ h2 in
    let (c4, h4, e4) = >>-eq-none (probe is_ip p a) _ _ h3 in
    let (c5, h5, e5) = >>-eq-none (capture s a) (steer s a) _ h4 in
    e1
    ∙ e2
    ∙ e3
    ∙ e4
    ∙ e5
    ∙ steer_done s a _ h5
    ∙ rw (capture_done s a _ c5) (
        rw (probe_done s a _ is_ip p c4) (
          rw (start_tun_done s a _ c3)
            (rw (start_core_done s a _ c2) (rw (prepare_pure s a w) refl))))
