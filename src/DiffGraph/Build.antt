-- ===== src/DiffGraph/Build.antt =====
-- change_graph.go: `NewChangeGraph`. The graph is returned beside the error, with the edges that
-- were added before it.
use kapp.Prelude.{
  ℕ, suc, ◌+◌, List, [], ◌∷◌, ◌++◌, Bool, true, false, not, ◌==◌, ltb, str_eq, if◌then◌else◌,
  select, length, Result, ok, err, panic, out_of_fuel, ◌>>=◌, wrap_err,
}
use kapp.Config.Bindings.{ChangeGroupBinding, ChangeRuleBinding}
use kapp.DiffGraph.Errors.{Error, calculating_required_deps, calculating_optional_deps, Vendored}
use kapp.DiffGraph.Group.{ChangeGroup, is_equal}
use kapp.DiffGraph.Rule.{
  ChangeRule, order_before, order_after, target_action_upserting, target_action_deleting,
}
use kapp.DiffGraph.Change.{
  ActualChange, ActualChangeOp, upsert, delete, noop, unknown, op_panics, Change, groups,
  applicable_rules,
}
use kapp.DiffGraph.Graph.{
  Memory, ChangeGraph, waiting_for, add_waiting_for, is_directly_waiting_for,
  is_transitively_waiting_for, check_cycles, dedup,
}

-- The case of `MatchesRule` for a group that is the rule's: the change, or nothing.
unfoldable pub match_op : ActualChangeOp → ChangeRule → ℕ → Result Error (List ℕ)
match_op upsert rule p =
    ok (if str_eq rule.target_action target_action_upserting then p ∷ [] else [])
match_op delete rule p =
    ok (if str_eq rule.target_action target_action_deleting then p ∷ [] else [])
match_op noop rule p = ok []
match_op (unknown op) rule p = panic "Unknown change operation"
match_op (op_panics msg) rule p = panic msg

unfoldable pub match_groups :
    ActualChangeOp → ChangeRule → ℕ → List ChangeGroup → Result Error (List ℕ)
unfolding match_op is_equal
match_groups op rule p [] = ok []
match_groups op rule p (group ∷ gs) =
    (if is_equal group rule.target_group then match_op op rule p else ok []) >>= λ found.
    match_groups op rule p gs >>= λ more. ok (found ++ more)

-- A rule with the change that it belongs to.
pub record SortedRule : Type 0 where
  pub change : ℕ
  pub rule : ChangeRule

-- `sort.SliceStable` with higher weights first.
unfoldable pub insert_rule : SortedRule → List SortedRule → List SortedRule
insert_rule sr [] = sr ∷ []
insert_rule sr (other ∷ rest) =
    let later = insert_rule sr rest in
    if ltb sr.rule.weight other.rule.weight then other ∷ later else sr ∷ other ∷ rest

unfoldable pub sort_rules : List SortedRule → List SortedRule
unfolding insert_rule
sort_rules [] = []
sort_rules (sr ∷ srs) = insert_rule sr (sort_rules srs)

abbrev pub AllowChange : Type 0
AllowChange = Memory → ℕ → ℕ → Result Error Bool

-- A result with the memory as it was left.
abbrev pub Build : Type 0
Build = Result Error (Unit {0}) × Memory

abbrev pub then_build : Build → (Memory → Build) → Build
then_build (ok _, memory) f = f memory
then_build (err e, memory) f = (err e, memory)
then_build (panic m, memory) f = (panic m, memory)
then_build (out_of_fuel, memory) f = (out_of_fuel, memory)

abbrev pub lift_build : {A : Type 0} → Result Error A → Memory → (A → Build) → Build
lift_build (ok a) memory f = f a
lift_build (err e) memory f = (err e, memory)
lift_build (panic m) memory f = (panic m, memory)
lift_build out_of_fuel memory f = (out_of_fuel, memory)

-- `if allowChange(from, to) { from.WaitingFor = append(from.WaitingFor, to) }`
unfoldable pub add_edge : AllowChange → ℕ → ℕ → Memory → Build
unfolding add_waiting_for
add_edge allow from to memory =
    lift_build (allow memory from to) memory
      λ allowed. (ok tt, if allowed then add_waiting_for from to memory else memory)

unfoldable pub add_after : AllowChange → ℕ → List ℕ → Memory → Build
add_after allow c [] memory = (ok tt, memory)
add_after allow c (m ∷ ms) memory =
    then_build (add_edge allow c m memory) (λ after. add_after allow c ms after)

unfoldable pub add_before : AllowChange → ℕ → List ℕ → Memory → Build
add_before allow c [] memory = (ok tt, memory)
add_before allow c (m ∷ ms) memory =
    then_build (add_edge allow m c memory) (λ after. add_before allow c ms after)

unfoldable pub add_edges : AllowChange → SortedRule → List ℕ → Memory → Build
add_edges allow sr matched memory =
    if str_eq sr.rule.order order_after
    then add_after allow sr.change matched memory
    else if str_eq sr.rule.order order_before
    then add_before allow sr.change matched memory
    else (panic "Unknown change rule order", memory)

abbrev pub rules_of : ℕ → List ChangeRule → List SortedRule
rules_of p [] = []
rules_of p (r ∷ rs) = record { change = p; rule = r } ∷ rules_of p rs

abbrev pub any_change : AllowChange
any_change memory from to = ok true

-- The condition on an optional dependency, its tests in order.
unfoldable pub no_new_cycle : ℕ → AllowChange
unfolding is_directly_waiting_for
no_new_cycle fuel memory from to =
    let waiting = waiting_for memory in
    if from == to
    then ok false
    else if is_directly_waiting_for waiting from to
    then ok false
    else is_transitively_waiting_for waiting fuel to from >>= λ found. ok (not found)

-- `&Change{...}`, and the memory with it.
abbrev pub fresh_change : List ChangeGroupBinding → List ChangeRuleBinding → ActualChange → Change
fresh_change group_bindings rule_bindings c = record {
  change = c;
  waiting_for = [];
  change_group_bindings = group_bindings;
  change_rule_bindings = rule_bindings;
}

abbrev pub put_change : ℕ → Change → Memory → Memory
put_change p c memory q = if q == p then c else memory q

-- The pointers are the numbers from `next` on; `memory` is what was there before.
unfoldable pub alloc_changes :
    List ChangeGroupBinding → List ChangeRuleBinding → ℕ → List ActualChange → Memory → ChangeGraph
alloc_changes group_bindings rule_bindings next [] memory = record { changes = []; memory = memory }
alloc_changes group_bindings rule_bindings next (c ∷ cs) memory =
    let rest =
      alloc_changes group_bindings rule_bindings (next + 1) cs
        (put_change next (fresh_change group_bindings rule_bindings c) memory) in
    record rest { changes = next ∷ rest.changes }

module _ (v : Vendored) where
  unfoldable pub matches_rule : Memory → ChangeRule → List ℕ → Result Error (List ℕ)
  unfolding match_groups
  matches_rule memory rule [] = ok []
  matches_rule memory rule (p ∷ ps) = do
    gs ← groups v (memory p)
    found ← match_groups (memory p).change.op rule p gs
    more ← matches_rule memory rule ps
    ok (found ++ more)

  unfoldable pub collect_rules :
      (ChangeRule → Bool) → Memory → List ℕ → Result Error (List SortedRule)
  collect_rules allow_rule memory [] = ok []
  collect_rules allow_rule memory (p ∷ ps) = do
    rules ← applicable_rules v (memory p)
    more ← collect_rules allow_rule memory ps
    ok (rules_of p (select allow_rule rules) ++ more)

  unfoldable pub add_rules : AllowChange → List ℕ → List SortedRule → Memory → Build
  add_rules allow changes [] memory = (ok tt, memory)
  add_rules allow changes (sr ∷ srs) memory =
      lift_build (matches_rule memory sr.rule changes) memory λ matched.
        then_build (add_edges allow sr matched memory) (λ after. add_rules allow changes srs after)

  unfoldable pub build_edges : (ChangeRule → Bool) → AllowChange → List ℕ → Memory → Build
  build_edges allow_rule allow changes memory =
      lift_build (collect_rules allow_rule memory changes) memory
        λ rules. add_rules allow changes (sort_rules rules) memory

  -- `NewChangeGraph` on the changes once they are allocated.
  unfoldable pub calculate_deps : List ℕ → Memory → Build
  unfolding no_new_cycle
  calculate_deps changes memory =
      let (required, m1) = build_edges (λ r. not r.ignore_if_cyclical) any_change changes memory in
      then_build (wrap_err calculating_required_deps required, m1)
        λ m2. lift_build (check_cycles (record { changes = changes; memory = m2 })) m2 λ _.
          let (optional, m3) =
            build_edges (λ r. r.ignore_if_cyclical) (no_new_cycle (suc (length changes))) changes
              m2 in
          then_build (wrap_err calculating_optional_deps optional, m3)
            λ m4.
              let g = dedup (record { changes = changes; memory = m4 }) in
              (check_cycles g, g.memory)

  unfoldable pub new_change_graph :
      Memory
      → List ActualChange
      → List ChangeGroupBinding
      → List ChangeRuleBinding
      → Result Error (Unit {0}) × ChangeGraph
  unfolding alloc_changes calculate_deps
  new_change_graph initial changes group_bindings rule_bindings =
      let g = alloc_changes group_bindings rule_bindings 0 changes initial in
      let (result, memory) = calculate_deps g.changes g.memory in
      (result, record { changes = g.changes; memory = memory })
