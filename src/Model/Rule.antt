-- ===== src/Model/Rule.antt =====
-- The routing rules of the user and the record of a subscription (internal/model/rule.go and
-- model.go).
pub mod Validate
use x_divine_ray.Prelude.{Bool, List, Text, [], any_of, false, text_eq, true, ◌∷◌}
use x_divine_ray.Model.Int.{ℤ}

pub data RuleAction : Type 0 where
  direct proxy block : RuleAction
  other : Text → RuleAction

abbrev pub action_eq : RuleAction → RuleAction → Bool
action_eq direct direct = true
action_eq proxy proxy = true
action_eq block block = true
action_eq (other s) (other t) = text_eq s t
action_eq _ _ = false

abbrev pub rule_actions : List RuleAction
rule_actions = direct ∷ proxy ∷ block ∷ []

unfoldable pub valid : RuleAction → Bool
valid a = any_of (action_eq a) rule_actions

pub record Rule : Type 0 where
  pub id : Text
  pub name : Text
  pub enabled : Bool
  pub action : RuleAction
  pub domains : List Text
  pub ips : List Text
  pub sources : List Text
  pub port : Text
  pub source_port : Text
  pub protocols : List Text
  pub network : Text

pub record Subscription : Type 0 where
  pub id : Text
  pub name : Text
  pub url : Text
  pub updated : Text
  pub count : ℤ
