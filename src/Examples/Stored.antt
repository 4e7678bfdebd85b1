-- ===== src/Examples/Stored.antt =====
-- A configuration that is saved and loaded.
use x_divine_ray.Prelude.{
  Text, [], codes, false, true, text_eq, ◌∷◌, ◌≡◌, ◌≢◌, refl, ℕ, ◌++◌, all_of, some,
}
use x_divine_ray.Model.Int.{pos}
use x_divine_ray.Model.Profile.{Profile}
use x_divine_ray.Model.Settings.{defaults, normalize, normalize_keep_alive}
use x_divine_ray.Model.Settings.Normal.{normalize_lem}
use x_divine_ray.Model.Strategy
use x_divine_ray.Model.Strategy.{Group}
use x_divine_ray.Model.Rule
use x_divine_ray.Model.Rule.{Rule, Subscription}
use x_divine_ray.Ucicfg.Data.{Data}
use x_divine_ray.Ucicfg.Names.{proto_of}
use x_divine_ray.Ucicfg.Value.{or_default, from_bool, itoa}
use x_divine_ray.Model.Mode
use x_divine_ray.Ucicfg.Store.Whole.{save, with_ids}
use x_divine_ray.Ucicfg.Store.Whole.Kept.{IsKept}
use x_divine_ray.Ucicfg.Syntax.{set_option, insert, lookup, decimal}
use x_divine_ray.Ucicfg.Store.{
  set_all, set_some, put_list, save_profile, save_group, save_rule, save_sub,
}
use x_divine_ray.Ucicfg.Store.Main.{save_main}
use x_divine_ray.Ucicfg.Store.File.{load_file, save_file}
use x_divine_ray.Ucicfg.Store.File.Kept.{is_writable, load_file-save_file}
use x_divine_ray.Examples.Samples.{home}

abbrev server : Profile
server = record home { network = codes "ws"; port = pos 8443; mux = true }

abbrev both : Group
both = record {
  id = codes "both";
  name = codes "Both";
  strategy = Strategy.round_robin;
  members = codes "home" ∷ codes "away" ∷ [];
  probe_url = codes "https://a.example/";
  probe_interval = codes "30s";
}

abbrev bank : Rule
bank = record {
  id = codes "r1";
  name = [];
  enabled = false;
  action = Rule.direct;
  domains = codes "bank.example" ∷ [];
  ips = [];
  sources = codes "192.168.1.7" ∷ [];
  port = codes "443";
  source_port = [];
  protocols = [];
  network = [];
}

abbrev feed : Subscription
feed = record {
  id = codes "s1";
  name = codes "Feed";
  url = codes "https://a.example/sub";
  updated = [];
  count = pos 120;
}

abbrev stored : Data
stored = record {
  settings = normalize defaults;
  profiles = server ∷ [];
  groups = both ∷ [];
  rules = bank ∷ [];
  subscriptions = feed ∷ [];
}

cons-ne : (c : ℕ) (s : Text) → c ∷ s ≢ []
cons-ne c s e = cc

stored-IsKept : IsKept stored
unfolding normalize defaults codes text_eq proto_of or_default Strategy.normalize Strategy.valid
    Rule.valid
stored-IsKept = record {
  settings = (normalize_lem defaults).0;
  repo = cons-ne _ _;
  profiles =
      ((cons-ne _ _, record { network = cons-ne _ _; security = cons-ne _ _; proto = refl }), tt);
  groups = ((cons-ne _ _, refl), tt);
  rules = ((cons-ne _ _, refl), tt);
  subs = (cons-ne _ _, tt);
}

abbrev fresh : Text → ℕ → Text
fresh prefix n = prefix ++ codes "00000000"

stored-is_writable : all_of is_writable (save fresh stored).sections ≡ true
unfolding save save_main save_profile save_group save_rule save_sub set_all set_some put_list
    set_option insert lookup with_ids normalize defaults codes text_eq proto_of or_default
    Strategy.normalize Strategy.valid Rule.valid from_bool Mode.valid itoa decimal
    normalize_keep_alive
stored-is_writable = refl

load_file-save_file_example : load_file (some (save_file fresh stored)) ≡ stored
load_file-save_file_example = load_file-save_file fresh stored stored-IsKept stored-is_writable
