-- ===== src/Config/Bindings.antt =====
-- config.go, the bindings of change groups and change rules to resources; conf.go, how those of
-- several configurations are joined.
use kapp.Prelude.{String, Bool, List, [], ◌∷◌, ◌++◌}
use kapp.Config.Matchers.{ResourceMatchers}

pub record ChangeGroupBinding : Type 0 where
  pub name : String
  pub resource_matchers : ResourceMatchers

pub record ChangeRuleBinding : Type 0 where
  pub rules : List String
  pub ignore_if_cyclical : Bool
  pub resource_matchers : ResourceMatchers

pub record OrderConfig : Type 0 where
  pub change_group_bindings : List ChangeGroupBinding
  pub change_rule_bindings : List ChangeRuleBinding

unfoldable pub all_change_group_bindings : List OrderConfig → List ChangeGroupBinding
all_change_group_bindings [] = []
all_change_group_bindings (c ∷ cs) = c.change_group_bindings ++ all_change_group_bindings cs

unfoldable pub all_change_rule_bindings : List OrderConfig → List ChangeRuleBinding
all_change_rule_bindings [] = []
all_change_rule_bindings (c ∷ cs) = c.change_rule_bindings ++ all_change_rule_bindings cs
