-- ===== src/Ucicfg/Store/Whole.antt =====
-- The whole configuration as a package and back (internal/ucicfg/store.go, load and save; uci.go,
-- Find and OfType), up to where `save` hands the package to be written and from where `load` has read
-- it. What `uci` does with the package is left out; its text is Ucicfg.Text's.
pub mod Kept
use x_divine_ray.Prelude.{
  Bool, List, Option, Text, ℕ, suc, [], codes, if◌then◌else◌, text_eq, ◌∷◌, ◌++◌, map, none, some,
  ◌+◌,
}
use x_divine_ray.Model.Profile.{Profile}
use x_divine_ray.Model.Strategy.{Group}
use x_divine_ray.Model.Rule.{Rule, Subscription}
use x_divine_ray.Model.Settings.{Settings, defaults, normalize}
use x_divine_ray.Ucicfg.Data.{Data}
use x_divine_ray.Ucicfg.Syntax.{Section, Package}
use x_divine_ray.Ucicfg.Value.{or_default}
use x_divine_ray.Ucicfg.Store.{
  save_profile, load_profile, save_group, load_group, save_rule, load_rule, save_sub, load_sub,
}
use x_divine_ray.Ucicfg.Store.Main.{save_main, load_main}

unfoldable pub find : Text → List Section → Option Section
find name [] = none
find name (s ∷ ss) =
    let rest : Option Section = find name ss in if text_eq s.name name then some s else rest

unfoldable pub of_type : Text → List Section → List Section
of_type t [] = []
of_type t (s ∷ ss) =
    let rest : List Section = of_type t ss in if text_eq s.type_name t then s ∷ rest else rest

-- The loops' `if x.ID == "" { x.ID = NewID(...) }`; the call for the n-th entry gives `new n`.
unfoldable pub with_ids {ℓ} :
    {A : Type ℓ} → (A → Text) → (Text → A → A) → (ℕ → Text) → ℕ → List A → List A
with_ids id_of set_id new n [] = []
with_ids id_of set_id new n (x ∷ xs) =
    set_id (or_default (id_of x) (new n)) x ∷ with_ids id_of set_id new (n + 1) xs

-- `new` answers for NewID: the prefix, and the number of the entry.
module _ (new : Text → ℕ → Text) where
  abbrev pub named_profiles : List Profile → List Profile
  named_profiles = with_ids (λ p. p.id) (λ t p. record p { id = t }) (new (codes "p")) 0

  abbrev pub named_groups : List Group → List Group
  named_groups = with_ids (λ g. g.id) (λ t g. record g { id = t }) (new (codes "g")) 0

  abbrev pub named_rules : List Rule → List Rule
  named_rules = with_ids (λ r. r.id) (λ t r. record r { id = t }) (new (codes "r")) 0

  abbrev pub named_subs : List Subscription → List Subscription
  named_subs = with_ids (λ u. u.id) (λ t u. record u { id = t }) (new (codes "s")) 0

  unfoldable pub save : Data → Package
  save d = record {
    name = codes "xwrt";
    sections =
        save_main d.settings
        ∷ (map save_profile (named_profiles d.profiles)
            ++ (map save_group (named_groups d.groups)
                ++ (map save_rule (named_rules d.rules)
                    ++ map save_sub (named_subs d.subscriptions))));
  }

abbrev pub load_settings : Option Section → Settings
load_settings none = normalize defaults
load_settings (some m) = load_main m

unfoldable pub load : Package → Data
load pkg = record {
  settings = load_settings (find (codes "main") pkg.sections);
  profiles = map load_profile (of_type (codes "profile") pkg.sections);
  groups = map load_group (of_type (codes "group") pkg.sections);
  rules = map load_rule (of_type (codes "rule") pkg.sections);
  subscriptions = map load_sub (of_type (codes "subscription") pkg.sections);
}
