-- ===== src/Examples/Samples.antt =====
-- A router with two servers, and the answers of a network on which everything works.
use x_divine_ray.Prelude.{Text, [], codes, false, none, some, true, ◌∷◌}
use x_divine_ray.Model.Int.{pos}
use x_divine_ray.Model.Profile.{Profile, vless}
use x_divine_ray.Model.Settings.{defaults}
use x_divine_ray.Ucicfg.Data.{Data}
use x_divine_ray.Daemon.WanWatch.{no_print}
use x_divine_ray.Daemon.Engine.{Env, World, Attempt, Torn}
use x_divine_ray.Daemon.Engine.Connect.{Checks, Oracle}

abbrev pub server : Text → Profile
server id = record {
  id = id;
  name = [];
  proto = vless;
  address = codes "a.example";
  port = pos 443;
  uuid = codes "u";
  password = [];
  method = [];
  alter_id = pos 0;
  encryption = [];
  flow = [];
  network = [];
  security = codes "tls";
  sni = [];
  alpn = [];
  fingerprint = [];
  public_key = [];
  short_id = [];
  spider_x = [];
  allow_insecure = false;
  pin_auto = false;
  pin_unverifiable = false;
  pinned_cert = [];
  path = [];
  host = [];
  service_name = [];
  header_type = [];
  seed = [];
  quic_sec = [];
  quic_key = [];
  mux = false;
  subscription = [];
  remark = [];
}

abbrev pub home : Profile
home = server (codes "home")

abbrev pub away : Profile
away = server (codes "away")

-- A server behind a name that was seen not to match, with the operator's leave to follow its pin.
abbrev pub pinned : Profile
pinned = record (server (codes "pinned")) {
  pin_auto = true;
  pin_unverifiable = true;
  pinned_cert = codes "aa";
}

abbrev pub disk : Data
disk = record {
  settings = defaults;
  profiles = home ∷ away ∷ pinned ∷ [];
  groups = [];
  rules = [];
  subscriptions = [];
}

abbrev pub env : Env
env = record { print = no_print; has_tproxy = true }

abbrev pub idle : World
idle = record {
  engine = record {
    env = env;
    core = false;
    tun = false;
    firewall = false;
    dns = false;
    stats_on = false;
    connected = false;
    profile = none;
    group = none;
    members = [];
    settings = defaults;
    pin_accepted = false;
    last_error = none;
    log = [];
  };
  kernel = record {
    core_running = false;
    tun_up = false;
    rules_installed = false;
    dns_steered = false;
  };
  disk = disk;
}

-- `home` is connected.
abbrev pub up : World
up = record idle {
  engine = record idle.engine {
    core = true;
    tun = true;
    firewall = true;
    dns = true;
    stats_on = true;
    connected = true;
    profile = some home;
  };
  kernel = record {
    core_running = true;
    tun_up = true;
    rules_installed = true;
    dns_steered = true;
  };
}

abbrev pub works : Attempt
works = record {
  loads = true;
  env = env;
  run_dir_made = true;
  built = true;
  rendered = true;
  written = true;
  core_verdict = none;
  ports_free = true;
  core_starts = true;
  core_listens = none;
  tun_starts = true;
  tun_left = false;
  zone_warning = false;
  reachable = true;
  certificate = none;
  pin_loads = true;
  pin_saves = true;
  fw_found = true;
  fw_applies = true;
  fw_left = false;
  dns_applies = true;
  dns_left = false;
  active_loads = true;
  active_saves = true;
}

-- The server does not answer through the tunnel.
abbrev pub silent : Attempt
silent = record works { reachable = false }

abbrev pub reverted : Torn
reverted = record { dns_reverts = true; fw_reverts = true }

abbrev pub checks : Checks
checks = record { is_ip = λ s. false; parse_url = λ s. none }

-- The target is silent, what stood before comes up again.
abbrev pub oracle : Oracle
oracle = record {
  target = record { first = silent; first_torn = reverted; again = silent; again_torn = reverted };
  target_torn = reverted;
  back = record { first = works; first_torn = reverted; again = works; again_torn = reverted };
  back_torn = reverted;
}
