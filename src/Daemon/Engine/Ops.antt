-- ===== src/Daemon/Engine/Ops.antt =====
-- The engine's other operations: those that end a connection, and those that answer to a change
-- of the network or of the system's firewall.
use x_divine_ray.Prelude.{
  Bool, Text, [], false, if◌then◌else◌, none, not, some, text_eq, true, ◌&&◌, ◌||◌,
}
use x_divine_ray.Ucicfg.Data.{Data}
use x_divine_ray.Daemon.WanWatch.{ignore, wait, rebuild, UpstreamAction, upstream_verdict}
use x_divine_ray.Daemon.Engine.{Env, World, Torn, fw_reapply, Run, on_engine, on_kernel}
use x_divine_ray.Daemon.Engine.Start.{teardown}
use x_divine_ray.Daemon.Engine.Connect.{active_target, id_of, Checks, record_error, Oracle, connect}

-- e.Disconnect(); the flags are the store's load and save.
unfoldable pub disconnect : Torn → Bool → Bool → World → World
disconnect t loads saves w =
    let w' = teardown t w in
    if loads && saves
    then record w' {
      disk = record w'.disk { settings = record w'.disk.settings { enabled = false } };
    }
    else w'

-- e.FactoryReset(); `factory` is `ucicfg.Factory()`. The journal is cleared once the file is written.
unfoldable pub factory_reset : Data → Torn → Bool → World → World
factory_reset factory t saves w =
    let w' = teardown t w in
    if saves
    then record w' { disk = factory; engine = record w'.engine { last_error = none; log = [] } }
    else w'

-- e.ReapplyFirewall(): after a reload of the system's firewall has flushed the rules.
unfoldable pub reapply_firewall : Bool → Env → Bool → Bool → Run
reapply_firewall installed env applies left w =
    if not w.engine.connected || not w.engine.firewall || installed
    then (none, w)
    else (let w' =
          on_kernel (λ k. record k { rules_installed = if applies then true else left })
            (on_engine (λ e. record e { env = env }) w) in
        if applies then (none, w') else (some fw_reapply, record_error fw_reapply w'))

-- e.Reload(): the target's id is read apart from the connection flag.
unfoldable pub reload : Checks → Oracle → Run
reload k o w =
    if w.engine.connected then connect k (id_of w.engine.group w.engine.profile) o w else (none, w)

abbrev pub act_upstream : Checks → Text → Oracle → UpstreamAction → Run
act_upstream k target o ignore w = (none, w)
act_upstream k target o wait w = (none, w)
act_upstream k target o rebuild w = connect k target o w

-- e.UpstreamChanged(iface): the network is detected anew only while something is connected.
unfoldable pub upstream_changed : Checks → Env → Oracle → Run
upstream_changed k detected o w =
    let target : Text = active_target w.engine in
    let on : Bool = not (text_eq target []) in
    let w' : World = if on then on_engine (λ e. record e { env = detected }) w else w in
    act_upstream k target o (upstream_verdict on w.engine.env.print w'.engine.env.print) w'

-- e.Env(), which the API serves: the network is detected anew when the last look is too old.
unfoldable pub poll_env : Bool → Env → World → World
poll_env stale detected w = if stale then on_engine (λ e. record e { env = detected }) w else w
