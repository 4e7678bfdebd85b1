-- ===== src/Ucicfg/Store/Others.antt =====
-- What the sections of groups, rules and subscriptions read as.
use x_divine_ray.Prelude.{
  Bool, List, Text, [], codes, text_eq, true, false, ◌∷◌, ◌≡◌, refl, ap, ◌∙◌, if◌then◌else◌,
}
use x_divine_ray.Model.Strategy
use x_divine_ray.Model.Strategy.{Group, Strategy}
use x_divine_ray.Model.Rule
use x_divine_ray.Model.Rule.{Rule, Subscription, RuleAction}
use x_divine_ray.Ucicfg.Names.{
  strategy_of, strategy_of-strategy_text, action_text, action_of-action_text,
}
use x_divine_ray.Ucicfg.Syntax.{get, list}
use x_divine_ray.Ucicfg.Value.{or_default}
use x_divine_ray.Ucicfg.Value.RoundTrip.{to_int-itoa, to_bool-from_bool}
use x_divine_ray.Ucicfg.Store.{save_group, load_group, save_rule, load_rule, save_sub, load_sub}
use x_divine_ray.Ucicfg.Store.Filled.{
  get-set_some, get-set_all, get-put_list, list-put_list, list-set_all, list-set_some, last_some,
  last_of, or_before, or_list, get-new_section, list-new_section, name-set_some, name-set_all,
  name-put_list,
}
use x_divine_ray.Ucicfg.Store.Sections.{or_before_nil}

pub or_list_nil : (xs : List Text) → or_list xs [] ≡ xs
or_list_nil [] = refl
or_list_nil (x ∷ xs) = refl

pub ruleset filled = (
  get-set_some, get-set_all, get-put_list, list-set_all, list-set_some, get-new_section,
  list-new_section, name-set_some, name-set_all, name-put_list, or_before_nil, list-put_list,
  or_list_nil,
)

least_ping_valid : Strategy.valid Strategy.least_ping ≡ true
unfolding Strategy.valid
least_ping_valid = refl

valid-normalize : (g : Group) → Strategy.valid (Strategy.normalize g).strategy ≡ true
unfolding Strategy.normalize
valid-normalize g = go (Strategy.valid g.strategy) refl
  where
    go :
        (b : Bool)
        → Strategy.valid g.strategy ≡ b
        → Strategy.valid (if b then g.strategy else Strategy.least_ping) ≡ true
    go true e = e
    go false e = least_ping_valid

or_text_twice : (s d : Text) → Strategy.or_text (Strategy.or_text s d) d ≡ Strategy.or_text s d
or_text_twice [] [] = refl
or_text_twice [] (c ∷ d) = refl
or_text_twice (a ∷ s) d = refl

normalize_twice : (g : Group) → Strategy.normalize (Strategy.normalize g) ≡ Strategy.normalize g
unfolding Strategy.normalize codes
normalize_twice g = λ i. record {
  id = g.id;
  name = g.name;
  strategy =
      (ap (λ b. if b then (Strategy.normalize g).strategy else Strategy.least_ping)
          (valid-normalize g))
        i;
  members = g.members;
  probe_url = or_text_twice g.probe_url Strategy.default_probe_url i;
  probe_interval = or_text_twice g.probe_interval Strategy.default_probe_interval i;
}

-- Loading the section that was written of a group gives the group as Normalize leaves it.
pub load_group-save_group : (g : Group) → load_group (save_group g) ≡ Strategy.normalize g
unfolding save_group load_group codes text_eq
load_group-save_group g = ap Strategy.normalize read ∙ normalize_twice g
  where
    read :
        record {
          id = (save_group g).name;
          name = get (save_group g) (codes "name");
          strategy = strategy_of (get (save_group g) (codes "strategy"));
          members = list (save_group g) (codes "member");
          probe_url = get (save_group g) (codes "probe_url");
          probe_interval = get (save_group g) (codes "probe_interval");
        }
        ≡ Strategy.normalize g
    read =
        simp (filled, strategy_of-strategy_text (Strategy.normalize g).strategy (valid-normalize g))
          refl

or_default_action :
    (a : RuleAction)
    → Rule.valid a ≡ true
    → or_default (action_text a) (codes "direct") ≡ action_text a
unfolding or_default codes Rule.valid
or_default_action RuleAction.direct h = refl
or_default_action RuleAction.proxy h = refl
or_default_action RuleAction.block h = refl
or_default_action (RuleAction.other s) h = cc

-- Loading the section that was written of a rule with a known action gives the rule.
pub load_rule-save_rule : (r : Rule) → Rule.valid r.action ≡ true → load_rule (save_rule r) ≡ r
unfolding save_rule load_rule codes text_eq
load_rule-save_rule r h =
    simp (filled, to_bool-from_bool, or_default_action r.action h, action_of-action_text r.action h)
      refl

-- Loading the section that was written of a subscription gives the subscription.
pub load_sub-save_sub : (u : Subscription) → load_sub (save_sub u) ≡ u
unfolding save_sub load_sub codes text_eq
load_sub-save_sub u = simp (filled, to_int-itoa) refl
