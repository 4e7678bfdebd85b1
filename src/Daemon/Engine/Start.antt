-- ===== src/Daemon/Engine/Start.antt =====
-- `startLocked`: from a checked target to a working connection, and `teardownLocked`.
use x_divine_ray.Prelude.{
  Bool, Option, Text, [], false, if◌then◌else◌, none, not, some, true, ◌&&◌, ◌||◌,
}
use x_divine_ray.Model.Mode
use x_divine_ray.Model.Profile.{Profile}
use x_divine_ray.Model.Settings.{Settings, DnsMode}
use x_divine_ray.Daemon.PinCheck.{inspect_pin, pin_outcome_for, accept_new_pin}
use x_divine_ray.Daemon.Engine.{
  World, Attempt, Torn, Code, config_rundir, config_mode_unknown, config_tproxy_missing,
  config_build, config_render, config_write, config_port_in_use, core_start, tunnel_start,
  tunnel_firewall_drops, core_no_data, fw_no_backend, fw_apply, dns_apply, Run, ◌>>◌, check, effect,
  on_engine, on_kernel,
}

abbrev verdict : Option Code → Run
verdict r w = (r, w)

-- The checks and the files before anything is started.
unfoldable pub prepare : Settings → Attempt → Run
prepare s a = do
  check a.run_dir_made config_rundir
  check (Mode.valid s.mode) config_mode_unknown
  (λ w.
      check (not (Mode.needs_tproxy s.mode && not w.engine.env.has_tproxy)) config_tproxy_missing w)
  check a.built config_build
  check a.rendered config_render
  check a.written config_write
  verdict a.core_verdict
  check a.ports_free config_port_in_use

-- The core is started and must be listening; it runs on if it does not answer in time.
unfoldable pub start_core : Attempt → Run
start_core a = do
  effect (on_engine (λ e. record e { core = true }))
  check a.core_starts core_start
  effect (on_kernel (λ k. record k { core_running = true }))
  verdict a.core_listens
  effect (on_engine (λ e. record e { dns = true }))

-- In the scope of all traffic a firewall that drops it is fatal, and a warning otherwise.
unfoldable pub start_tun : Settings → Attempt → Run
start_tun s a =
    if Mode.needs_tun_process s.mode
    then (do
      effect (on_engine (λ e. record e { tun = true }))
      effect (on_kernel (λ k. record k { tun_up = if a.tun_starts then true else a.tun_left }))
      check a.tun_starts tunnel_start
      check (not (a.zone_warning && not (Mode.marks_udp_for_tun s.mode))) tunnel_firewall_drops)
    else (λ w. (none, w))

module _ (is_ip : Text → Bool) where
  -- A changed certificate may be accepted here; the pass fails all the same, and is made again.
  unfoldable pub look_at_pin : Option Profile → Attempt → World → World
  look_at_pin p a w =
      let look = inspect_pin p a.certificate in
      if (pin_outcome_for is_ip p look).accept
      then (let (disk, done) = accept_new_pin a.pin_loads a.pin_saves w.disk p look in
          if done
          then record w { disk = disk; engine = record w.engine { pin_accepted = true } }
          else w)
      else w

  -- Data must come through before any traffic is captured.
  unfoldable pub probe : Option Profile → Attempt → Run
  probe p a w = if a.reachable then (none, w) else (some core_no_data, look_at_pin p a w)

abbrev pub is_redirect : DnsMode → Bool
is_redirect DnsMode.redirect = true
is_redirect _ = false

abbrev pub is_dnsmasq : DnsMode → Bool
is_dnsmasq DnsMode.dnsmasq = true
is_dnsmasq _ = false

unfoldable pub capture : Settings → Attempt → Run
capture s a =
    if Mode.needs_firewall_capture s.mode || is_redirect s.dns_mode
    then (do
      check a.fw_found fw_no_backend
      effect (on_engine (λ e. record e { firewall = true }))
      effect
          (on_kernel (λ k. record k { rules_installed = if a.fw_applies then true else a.fw_left }))
      check a.fw_applies fw_apply)
    else (λ w. (none, w))

-- `dns.Apply` does something in dnsmasq mode only.
unfoldable pub steer : Settings → Attempt → Run
steer s a =
    if is_dnsmasq s.dns_mode
    then (do
      effect
          (on_kernel (λ k. record k { dns_steered = if a.dns_applies then true else a.dns_left }))
      check a.dns_applies dns_apply)
    else (λ w. (none, w))

unfoldable pub start_locked : (Text → Bool) → Option Profile → Settings → Attempt → Run
start_locked is_ip p s a = do
  prepare s a
  start_core a
  start_tun s a
  probe is_ip p a
  capture s a
  steer s a

-- Only what a handle is held for is undone. A revert that fails leaves its part in the system, and
-- the handle is dropped all the same.
unfoldable pub teardown : Torn → World → World
teardown t w = record w {
  kernel = record {
    dns_steered = if w.engine.dns && t.dns_reverts then false else w.kernel.dns_steered;
    rules_installed = if w.engine.firewall && t.fw_reverts then false else w.kernel.rules_installed;
    tun_up = if w.engine.tun then false else w.kernel.tun_up;
    core_running = if w.engine.core then false else w.kernel.core_running;
  };
  engine = record w.engine {
    stats_on = false;
    dns = false;
    firewall = false;
    tun = false;
    core = false;
    connected = false;
    profile = none;
    group = none;
    members = [];
  };
}
