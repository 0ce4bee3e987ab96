-- ===== src/DiffGraph/Tests.antt =====
-- Runs of the change graph on small inputs, and the theorems about it at those inputs.
use kapp.Prelude.{
  String, suc, List, [], ◌∷◌, ◌≡◌, refl, sym, ◌∙◌, Bool, true, false, ◌⊎◌, inl, inr, elem, length,
  Result, ok, err, arith, none, some,
}
use mathlib.Core.List.Memᴰ
use kapp.Config.Matchers.{
  ResourceMatcher, resource_matcher, ResourceMatchers, nil, cons, absent, no_matcher, Leaves,
}
use kapp.DiffGraph.Errors.{Error, empty_placeholder}
use kapp.DiffGraph.Rule.{ChangeRule, new_change_rule_from_ann_string}
use kapp.DiffGraph.Group.{new_change_group_from_ann_string}
use kapp.DiffGraph.Change.{ActualChange, ActualChangeOp, Change, upsert, noop, applicable_rules}
use kapp.DiffGraph.Graph.{
  Memory, ChangeGraph, waiting_for, check_cycles, is_transitively_waiting_for,
}
use kapp.DiffGraph.Samples.{vendored, blank, changes, rule_bindings, built, start, app_rule}
use kapp.DiffGraph.GroupName.{replace}
use kapp.DiffGraph.Placeholders.{IsUnknown, replace-known}
use kapp.DiffGraph.RuleText.{
  rule_text, plain_rule, new_change_rule_from_ann_string-rule_text, IsAllowed,
  new_change_rule_from_ann_string-IsAllowed,
}
use kapp.DiffGraph.Paths.{WaitsFor, IsAcyclic, Cycle}
use kapp.DiffGraph.Build.{alloc_changes, new_change_graph}
use kapp.DiffGraph.Blocked.{Linearization, linearized}
use kapp.DiffGraph.Layers.{IsLinearized}
use kapp.DiffGraph.Cycles.{check_cycles_decides}
use kapp.DiffGraph.Search.{is_transitively_waiting_for_decides}
use kapp.DiffGraph.Linearize.{linearized_returns}
use kapp.DiffGraph.Passes.{IsOrder, required_pass, optional_pass}
use kapp.DiffGraph.Matching.{matched}
use kapp.DiffGraph.Required.{IsHonoured}
use kapp.DiffGraph.NewGraph.{
  new_change_graph-IsOrder, new_change_graph-IsHonoured, new_change_graph-succeeds,
}

-- What the build of the graph returns, and what its changes hold.
built_lem :
    (built.0 ≡ ok tt)
    × (built.1.changes ≡ 0 ∷ 1 ∷ 2 ∷ [])
    × (waiting_for built.1.memory 0 ≡ 1 ∷ [])
    × (waiting_for built.1.memory 1 ≡ [])
    × (applicable_rules vendored (built.1.memory 0)
        ≡ ok (app_rule ∷ record app_rule { ignore_if_cyclical = true; weight = 100 } ∷ []))
    × (matched vendored app_rule (built.1.memory 1) ≡ true)
    × ((required_pass vendored start.changes start.memory).0 ≡ ok tt)
    × (check_cycles (record {
      changes = start.changes;
      memory = (required_pass vendored start.changes start.memory).1;
    })
        ≡ ok tt)
    × ((optional_pass vendored start.changes start.memory
          (required_pass vendored start.changes start.memory).1).0
        ≡ ok tt)
unfolding new_change_graph kapp.DiffGraph.Build.build_edges kapp.DiffGraph.Build.collect_rules
    applicable_rules kapp.DiffGraph.GroupName.as_string new_change_rule_from_ann_string
    new_change_group_from_ann_string kapp.Config.Matchers.as_resource_matchers
    kapp.Resources.Matchers.any_matches kapp.DiffGraph.Build.add_rules
    kapp.DiffGraph.Build.sort_rules kapp.DiffGraph.Build.matches_rule kapp.DiffGraph.Change.groups
    kapp.DiffGraph.Build.add_edges kapp.DiffGraph.Build.add_after kapp.DiffGraph.Build.add_edge
    check_cycles kapp.DiffGraph.Graph.dedup kapp.DiffGraph.Build.add_before alloc_changes
    kapp.DiffGraph.Build.calculate_deps kapp.DiffGraph.Build.insert_rule
    kapp.DiffGraph.Build.match_groups kapp.DiffGraph.Build.match_op
    kapp.DiffGraph.Build.no_new_cycle kapp.DiffGraph.Change.all_rules
    kapp.DiffGraph.Change.is_applicable kapp.DiffGraph.Change.known_op
    kapp.DiffGraph.Graph.add_waiting_for kapp.DiffGraph.Graph.check_cycles_visit
    kapp.DiffGraph.Graph.check_each kapp.DiffGraph.Graph.dedup_each kapp.DiffGraph.Graph.dedup_list
    kapp.DiffGraph.Graph.is_directly_waiting_for is_transitively_waiting_for
    kapp.DiffGraph.Graph.search_each kapp.DiffGraph.Graph.search_from
    kapp.DiffGraph.Graph.visit_each kapp.DiffGraph.Group.is_equal
    kapp.DiffGraph.Group.is_qualified_name_without_len kapp.DiffGraph.Group.validate
    kapp.DiffGraph.GroupName.chars kapp.DiffGraph.GroupName.is_crd
    kapp.DiffGraph.GroupName.placeholder_err kapp.DiffGraph.GroupName.replace
    kapp.DiffGraph.GroupName.values_for kapp.DiffGraph.Rule.validate kapp.Prelude.split
built_lem = (refl, refl, refl, refl, refl, refl, refl, refl, refl)

new_change_graph-IsOrder_example : IsOrder built.1.changes built.1.memory
new_change_graph-IsOrder_example =
    new_change_graph-IsOrder vendored blank changes [] rule_bindings (built_lem.0)

new_change_graph-IsHonoured_example : IsHonoured "after" 0 1 built.1.memory
new_change_graph-IsHonoured_example =
    new_change_graph-IsHonoured vendored blank changes [] rule_bindings 0 1
      (app_rule ∷ record app_rule { ignore_if_cyclical = true; weight = 100 } ∷ []) app_rule
      built_lem.0 (rw (built_lem.1) refl) (rw (built_lem.1) refl) built_lem.4 (Memᴰ.head refl) refl
      built_lem.5

new_change_graph-succeeds_example : built.0 ≡ ok tt
new_change_graph-succeeds_example =
    new_change_graph-succeeds vendored blank changes [] rule_bindings built_lem.6 built_lem.7
      built_lem.8

built-IsOrder : IsOrder built.1.changes built.1.memory
built-IsOrder = new_change_graph-IsOrder vendored blank changes [] rule_bindings built_lem.0

check_cycles_decides_example :
    (check_cycles built.1 ≡ ok tt) × IsAcyclic (waiting_for built.1.memory) built.1.changes
    ⊎ ((e : Error) × (check_cycles built.1 ≡ err e)
        × Cycle (waiting_for built.1.memory) built.1.changes)
check_cycles_decides_example = check_cycles_decides built.1 built-IsOrder.closed

is_transitively_waiting_for_decides_example :
    (is_transitively_waiting_for (waiting_for built.1.memory) (suc (length built.1.changes)) 0 1
        ≡ ok true)
      × WaitsFor (waiting_for built.1.memory) 0 1
    ⊎ (is_transitively_waiting_for (waiting_for built.1.memory) (suc (length built.1.changes)) 0 1
        ≡ ok false)
      × ¬ WaitsFor (waiting_for built.1.memory) 0 1
is_transitively_waiting_for_decides_example =
    is_transitively_waiting_for_decides (waiting_for built.1.memory) built.1.changes 0 1
      built-IsOrder.closed (rw (built_lem.1) refl)

linearized_returns_example :
    (l : Linearization) × (linearized built.1 ≡ ok l) × IsLinearized built.1 l
linearized_returns_example = linearized_returns built.1 built-IsOrder.closed built-IsOrder.acyclic

replace-known_example : ¬ IsUnknown (replace (("{name}", "app") ∷ []) 0 "{name}-{namespcae}").1
replace-known_example = replace-known (("{name}", "app") ∷ []) 0 "{name}-{namespcae}"

-- The placeholder is not known, and the error says that it has no value.
replace-misspelt :
    replace (("{name}", "app") ∷ []) 0 "{name}-{namespcae}"
    ≡ ("app-", some (empty_placeholder "{namespcae}"))
unfolding replace kapp.DiffGraph.GroupName.placeholder_at kapp.DiffGraph.GroupName.placeholder_err
    kapp.DiffGraph.GroupName.value_of kapp.DiffGraph.GroupName.later kapp.DiffGraph.GroupName.chars
replace-misspelt = refl

db_group : new_change_group_from_ann_string vendored "app-db" ≡ ok (record { name = "app-db" })
unfolding new_change_group_from_ann_string kapp.DiffGraph.Group.validate
    kapp.DiffGraph.Group.is_qualified_name_without_len
db_group = refl

rule_text_example :
    new_change_rule_from_ann_string vendored (rule_text "upsert" "after" "upserting" "app-db")
    ≡ ok (plain_rule "upsert" "after" "upserting" (record { name = "app-db" }))
rule_text_example =
    new_change_rule_from_ann_string-rule_text vendored "upsert" "after" "upserting" "app-db"
      (record { name = "app-db" }) (inl refl) (inr refl) (inl refl) refl db_group

IsAllowed_example : IsAllowed app_rule
IsAllowed_example =
    new_change_rule_from_ann_string-IsAllowed vendored
      (rule_text "upsert" "after" "upserting" "app-db") app_rule rule_text_example
