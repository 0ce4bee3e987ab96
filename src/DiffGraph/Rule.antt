-- ===== src/DiffGraph/Rule.antt =====
-- change_rule.go. The three words of a rule are strings that `validate` restricts.
use kapp.Prelude.{
  String, ℕ, List, [], ◌∷◌, Bool, false, not, ◌&&◌, str_eq, split, if◌then◌else◌, Result, ok, err,
  ◌>>=◌,
}
use Prim.Native.Char.{Char}
use kapp.DiffGraph.Errors.{
  Error, bad_rule_format, unknown_rule_action, unknown_rule_order, unknown_rule_target_action,
  Vendored,
}
use kapp.DiffGraph.Group.{ChangeGroup, new_change_group_from_ann_string}

abbrev pub action_upsert : String
action_upsert = "upsert"

abbrev pub action_delete : String
action_delete = "delete"

abbrev pub order_before : String
order_before = "before"

abbrev pub order_after : String
order_after = "after"

abbrev pub target_action_upserting : String
target_action_upserting = "upserting"

abbrev pub target_action_deleting : String
target_action_deleting = "deleting"

pub record ChangeRule : Type 0 where
  pub action : String
  pub order : String
  pub target_action : String
  pub target_group : ChangeGroup
  pub ignore_if_cyclical : Bool
  pub weight : ℕ

unfoldable pub validate : ChangeRule → Result Error (Unit {0})
validate r =
    if not (str_eq r.action action_upsert) && not (str_eq r.action action_delete)
    then err unknown_rule_action
    else if not (str_eq r.order order_before) && not (str_eq r.order order_after)
    then err unknown_rule_order
    else if not (str_eq r.target_action target_action_upserting)
        && not (str_eq r.target_action target_action_deleting)
    then err unknown_rule_target_action
    else ok tt

abbrev pub space : Char
space = " "

module _ (v : Vendored) where
  unfoldable pub of_pieces : String → List String → Result Error ChangeRule
  unfolding validate
  of_pieces ann (action ∷ order ∷ target_action ∷ group ∷ []) = do
    target_group ← new_change_group_from_ann_string v group
    let rule : ChangeRule = record {
      action = action;
      order = order;
      target_action = target_action;
      target_group = target_group;
      ignore_if_cyclical = false;
      weight = 0;
    }
    validate rule >>= λ _. ok rule
  of_pieces ann _ = err (bad_rule_format ann)

  unfoldable pub new_change_rule_from_ann_string : String → Result Error ChangeRule
  unfolding of_pieces split
  new_change_rule_from_ann_string ann = of_pieces ann (split space ann)
