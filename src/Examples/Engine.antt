-- ===== src/Examples/Engine.antt =====
-- The engine on the sample router: `home` is connected and `away` does not answer.
use x_divine_ray.Prelude.{codes, none, refl, some, true, ◌≡◌, ◌≢◌, [], ◌∷◌}
use x_divine_ray.Model.Mode
use x_divine_ray.Model.Settings.{defaults}
use x_divine_ray.Daemon.Engine.{Env, on_engine, ◌>>◌}
use x_divine_ray.Daemon.Engine.Start.{
  start_locked, teardown, prepare, start_core, start_tun, probe, capture, steer,
}
use x_divine_ray.Daemon.Engine.Connect.{active_target, choose_id, connect}
use x_divine_ray.Daemon.Engine.Covered.{Covered, IsClean, teardown-IsClean, start_locked-Covered}
use x_divine_ray.Daemon.Engine.Order.{no_capture_without_data}
use x_divine_ray.Daemon.Engine.Outcome.{started, start_locked_done}
use x_divine_ray.Daemon.Engine.Total.{Undoes, Left, connect-Left}
use x_divine_ray.Daemon.Engine.Ops.{upstream_changed, poll_env}
use x_divine_ray.Daemon.Engine.Upstream.{
  announce_each, seen_last, upstream_lost_and_found, upstream_changed_after_poll,
}
use x_divine_ray.Examples.Samples.{home, env, idle, up, works, silent, reverted, checks, oracle}

undoes : Undoes oracle
undoes = record {
  target = ((refl, refl), (refl, refl));
  target_torn = (refl, refl);
  back = ((refl, refl), (refl, refl));
  back_torn = (refl, refl);
}

up-Covered : Covered up
up-Covered = record { core = λ _. refl; tun = λ _. refl; rules = λ _. refl; dns = λ _. refl }

idle-Covered : Covered idle
idle-Covered = record { core = λ h. cc; tun = λ h. cc; rules = λ h. cc; dns = λ h. cc }

-- The network has moved to another gateway.
abbrev moved : Env
moved = record env {
  print = record { device = codes "wan"; address = codes "10.0.0.2"; gateway = codes "10.0.0.1" };
}

up_on : active_target up.engine ≢ []
unfolding active_target codes
up_on h = cc

-- The line without its gateway, and then gone altogether.
abbrev lost : Env
lost = record env {
  print = record { device = codes "wan"; address = codes "10.0.0.2"; gateway = [] };
}

abbrev gone : Env
gone = record env { print = record { device = []; address = []; gateway = [] } }

moved_gateway : moved.print.gateway ≢ []
unfolding codes
moved_gateway h = cc

connect-Left_example :
    Left
      (active_target up.engine)
      (codes "away")
      (choose_id (codes "away") up.disk)
      (connect checks (codes "away") oracle up).0
      (connect checks (codes "away") oracle up).1
connect-Left_example = connect-Left checks (codes "away") oracle up undoes up-Covered

no_capture_without_data_example :
    let (r, w') = start_locked checks.is_ip (some home) idle.engine.settings silent idle in
    (r ≢ none)
    × (w'.kernel.rules_installed ≡ idle.kernel.rules_installed)
    × (w'.kernel.dns_steered ≡ idle.kernel.dns_steered)
no_capture_without_data_example =
    no_capture_without_data checks.is_ip (some home) idle.engine.settings silent idle refl

idle_starts : (start_locked checks.is_ip (some home) idle.engine.settings works idle).0 ≡ none
unfolding start_locked prepare start_core start_tun probe capture steer ◌>>◌ defaults Mode.valid
    Mode.needs_tproxy Mode.needs_tun_process Mode.needs_firewall_capture Mode.marks_udp_for_tun
idle_starts = refl

start_locked_done_example :
    (start_locked checks.is_ip (some home) idle.engine.settings works idle).1
    ≡ started idle.engine.settings idle
start_locked_done_example =
    start_locked_done checks.is_ip (some home) idle.engine.settings works idle idle_starts

teardown-IsClean_example : IsClean (teardown reverted up)
teardown-IsClean_example = teardown-IsClean reverted up (refl, refl) up-Covered

start_locked-Covered_example :
    Covered (start_locked checks.is_ip (some home) idle.engine.settings silent idle).1
start_locked-Covered_example =
    start_locked-Covered checks.is_ip (some home) idle.engine.settings silent idle idle-Covered

upstream_lost_and_found_example :
    (announce_each checks oracle (lost ∷ gone ∷ []) up
      ≡ on_engine (λ e. record e { env = seen_last lost (gone ∷ []) }) up)
    × (upstream_changed checks moved oracle (announce_each checks oracle (lost ∷ gone ∷ []) up)
        ≡ connect checks
            (active_target up.engine)
            oracle
            (on_engine (λ e. record e { env = moved }) up))
upstream_lost_and_found_example =
    upstream_lost_and_found checks oracle up lost (gone ∷ []) moved up_on (refl, (refl, tt))
      moved_gateway

upstream_changed_after_poll_example :
    upstream_changed checks moved oracle (poll_env true moved up) ≡ (none, poll_env true moved up)
upstream_changed_after_poll_example = upstream_changed_after_poll checks moved oracle up
