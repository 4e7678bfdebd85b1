-- ===== src/Daemon/Engine.antt =====
-- The engine's state and the outside world that it changes (internal/daemon/engine.go).
--
-- What other programs, the network and the file system answer is data: an `Attempt` holds the
-- answers that one pass through `connectLockedOnce` gets, a `Torn` those of one teardown.
pub mod Start
pub mod Connect
pub mod Covered
pub mod Order
pub mod Outcome
pub mod Result
pub mod Total
pub mod Ops
pub mod Upstream
use x_divine_ray.Prelude.{Bool, List, Option, false, none, some, true}
use x_divine_ray.Model.Strategy.{Group}
use x_divine_ray.Model.Profile.{Profile}
use x_divine_ray.Model.Settings.{Settings}
use x_divine_ray.Ucicfg.Data.{Data}
use x_divine_ray.Daemon.WanWatch.{WanPrint}
use x_divine_ray.Daemon.PinCheck.{CertResult}

-- The steps' failures, by the codes of the message catalog.
pub data Code : Type 0 where
  config_read config_nothing_selected config_no_target config_group_invalid config_group_empty :
      Code
  config_profile_invalid config_rundir config_mode_unknown config_tproxy_missing config_build : Code
  config_render config_write core_cannot_run config_rejected config_port_in_use core_start : Code
  core_exited_immediately core_not_listening tunnel_start tunnel_firewall_drops core_no_data : Code
  fw_no_backend fw_apply dns_apply fw_reapply : Code

-- The part of `netenv.Env` that the engine decides by.
pub record Env : Type 0 where
  pub print : WanPrint
  pub has_tproxy : Bool

-- What the daemon leaves in the system: processes, rules and the resolver's configuration.
pub record Kernel : Type 0 where
  pub core_running : Bool
  pub tun_up : Bool
  pub rules_installed : Bool
  pub dns_steered : Bool

-- `core`, `tun`, `firewall` and `dns` say whether the pointers are not nil; `stats_on` is so for
-- `statsStop`. `log` holds the recorded failures, the newest first.
pub record Engine : Type 0 where
  pub env : Env
  pub core : Bool
  pub tun : Bool
  pub firewall : Bool
  pub dns : Bool
  pub stats_on : Bool
  pub connected : Bool
  pub profile : Option Profile
  pub group : Option Group
  pub members : List Profile
  pub settings : Settings
  pub pin_accepted : Bool
  pub last_error : Option Code
  pub log : List Code

pub record World : Type 0 where
  pub engine : Engine
  pub kernel : Kernel
  pub disk : Data

-- The answers of one pass. Those named `…_left` say what a failed call leaves installed.
pub record Attempt : Type 0 where
  pub loads : Bool
  pub env : Env
  pub run_dir_made : Bool
  pub built : Bool
  pub rendered : Bool
  pub written : Bool
  pub core_verdict : Option Code
  pub ports_free : Bool
  pub core_starts : Bool
  pub core_listens : Option Code
  pub tun_starts : Bool
  pub tun_left : Bool
  pub zone_warning : Bool
  pub reachable : Bool
  pub certificate : Option CertResult
  pub pin_loads : Bool
  pub pin_saves : Bool
  pub fw_found : Bool
  pub fw_applies : Bool
  pub fw_left : Bool
  pub dns_applies : Bool
  pub dns_left : Bool
  pub active_loads : Bool
  pub active_saves : Bool

-- Whether the reverts of one teardown worked.
pub record Torn : Type 0 where
  pub dns_reverts : Bool
  pub fw_reverts : Bool

-- A step changes the world and fails or not.
abbrev pub Run : Type 0
Run = World → Option Code × World

abbrev continue : Option Code → Run → Run
continue none n w = n w
continue (some c) n w = (some c, w)

infixl 5 ◌>>◌
unfoldable pub ◌>>◌ : Run → Run → Run
◌>>◌ m n w = let (r, w') = m w in continue r n w'

abbrev pub check : Bool → Code → Run
check true c w = (none, w)
check false c w = (some c, w)

abbrev pub effect : (World → World) → Run
effect f w = (none, f w)

abbrev pub on_engine : (Engine → Engine) → World → World
on_engine f w = record w { engine = f w.engine }

abbrev pub on_kernel : (Kernel → Kernel) → World → World
on_kernel f w = record w { kernel = f w.kernel }
