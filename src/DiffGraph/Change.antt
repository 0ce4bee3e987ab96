-- ===== src/DiffGraph/Change.antt =====
-- change.go: a change, its groups and its rules. The caches `groups` and `rules` are left out: they
-- keep the results of functions of fields that never change. The annotations of a resource are
-- visited in the order of the list.
use kapp.Prelude.{
  String, ℕ, ◌+◌, List, [], ◌∷◌, ◌++◌, Bool, false, ◌||◌, str_eq, has_prefix, select, if◌then◌else◌,
  Result, ok, err, panic, ◌>>=◌, wrap_err,
}
use kapp.Resources.Resource.{Resource}
use kapp.Resources.Matchers.{any_matches}
use kapp.Config.Matchers.{ResourceMatchers, as_resource_matchers}
use kapp.Config.Bindings.{ChangeGroupBinding, ChangeRuleBinding}
use kapp.DiffGraph.Errors.{Error, unknown_change_operation, in_resource, Vendored}
use kapp.DiffGraph.Group.{ChangeGroup, new_change_group_from_ann_string}
use kapp.DiffGraph.Rule.{ChangeRule, action_upsert, action_delete, new_change_rule_from_ann_string}
use kapp.DiffGraph.GroupName.{as_string}

-- What a call of Op() gives, which may panic.
pub data ActualChangeOp : Type 0 where
  upsert delete noop : ActualChangeOp
  unknown op_panics : String → ActualChangeOp

pub record ActualChange : Type 0 where
  pub resource : Resource
  pub op : ActualChangeOp

-- Pointers to changes are numbers.
pub record Change : Type 0 where
  pub change : ActualChange
  pub waiting_for : List ℕ
  pub change_group_bindings : List ChangeGroupBinding
  pub change_rule_bindings : List ChangeRuleBinding

abbrev pub change_group_ann_key : String
change_group_ann_key = "kapp.k14s.io/change-group"

abbrev pub change_group_ann_prefix_key : String
change_group_ann_prefix_key = "kapp.k14s.io/change-group."

abbrev pub change_rule_ann_key : String
change_rule_ann_key = "kapp.k14s.io/change-rule"

abbrev pub change_rule_ann_prefix_key : String
change_rule_ann_prefix_key = "kapp.k14s.io/change-rule."

-- `AnyMatcher{rms}.Matches(res)` for the converted matchers of a binding.
binding_matches : ResourceMatchers → Resource → Result Error Bool
binding_matches ms res = as_resource_matchers ms >>= λ rms. any_matches res rms

unfoldable pub is_applicable : ActualChangeOp → ChangeRule → Bool
is_applicable upsert rule = str_eq rule.action action_upsert
is_applicable delete rule = str_eq rule.action action_delete
is_applicable _ rule = false

unfoldable pub known_op : ActualChangeOp → Result Error (Unit {0})
known_op (unknown op) = err (unknown_change_operation op)
known_op (op_panics msg) = panic msg
known_op _ = ok tt

module _ (v : Vendored) where
  -- A group or a rule from its text: the placeholders are replaced first.
  group_of : Resource → String → Result Error ChangeGroup
  group_of res text = as_string v text res >>= λ name. new_change_group_from_ann_string v name

  rule_of : Resource → String → Result Error ChangeRule
  rule_of res text = as_string v text res >>= λ rule_str.
      wrap_err (in_resource res.description) (new_change_rule_from_ann_string v rule_str)

  groups_of_annotations : Resource → List (String × String) → Result Error (List ChangeGroup)
  unfolding group_of
  groups_of_annotations res [] = ok []
  groups_of_annotations res ((k, text) ∷ anns) =
      let rest = groups_of_annotations res anns in
      if str_eq k change_group_ann_key || has_prefix k change_group_ann_prefix_key
      then (do group ← group_of res text; gs ← rest; ok (group ∷ gs))
      else rest

  groups_of_bindings : Resource → List ChangeGroupBinding → Result Error (List ChangeGroup)
  unfolding group_of binding_matches
  groups_of_bindings res [] = ok []
  groups_of_bindings res (b ∷ bs) =
      let rest = groups_of_bindings res bs in
      binding_matches b.resource_matchers res >>= λ matching.
      if matching then (do group ← group_of res b.name; gs ← rest; ok (group ∷ gs)) else rest

  unfoldable pub groups : Change → Result Error (List ChangeGroup)
  unfolding groups_of_annotations groups_of_bindings
  groups c = do
    let res = c.change.resource
    annotated ← groups_of_annotations res res.annotations
    bound ← groups_of_bindings res c.change_group_bindings
    ok (annotated ++ bound)

  rules_of_annotations : Resource → List (String × String) → Result Error (List ChangeRule)
  unfolding rule_of
  rules_of_annotations res [] = ok []
  rules_of_annotations res ((k, text) ∷ anns) =
      let rest = rules_of_annotations res anns in
      if str_eq k change_rule_ann_key || has_prefix k change_rule_ann_prefix_key
      then (do rule ← rule_of res text; rs ← rest; ok (rule ∷ rs))
      else rest

  -- The rules of one binding; `i` is its place among the bindings.
  rules_of_texts : Resource → Bool → ℕ → List String → Result Error (List ChangeRule)
  unfolding rule_of
  rules_of_texts res ignore_if_cyclical i [] = ok []
  rules_of_texts res ignore_if_cyclical i (text ∷ texts) = do
    rule ← rule_of res text
    rs ← rules_of_texts res ignore_if_cyclical i texts
    ok (record rule { ignore_if_cyclical = ignore_if_cyclical; weight = 100 + i } ∷ rs)

  rules_of_bindings : Resource → ℕ → List ChangeRuleBinding → Result Error (List ChangeRule)
  unfolding binding_matches rules_of_texts
  rules_of_bindings res i [] = ok []
  rules_of_bindings res i (b ∷ bs) =
      let rest = rules_of_bindings res (i + 1) bs in
      binding_matches b.resource_matchers res >>= λ matching.
      if matching
      then (do
        rules ← rules_of_texts res b.ignore_if_cyclical i b.rules
        rs ← rest
        ok (rules ++ rs))
      else rest

  unfoldable pub all_rules : Change → Result Error (List ChangeRule)
  unfolding rules_of_annotations rules_of_bindings
  all_rules c = do
    let res = c.change.resource
    annotated ← rules_of_annotations res res.annotations
    bound ← rules_of_bindings res 0 c.change_rule_bindings
    ok (annotated ++ bound)

  unfoldable pub applicable_rules : Change → Result Error (List ChangeRule)
  unfolding known_op all_rules is_applicable
  applicable_rules c = do
    _ ← known_op c.change.op
    rules ← all_rules c
    ok (select (is_applicable c.change.op) rules)
