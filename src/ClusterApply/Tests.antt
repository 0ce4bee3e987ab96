-- ===== src/ClusterApply/Tests.antt =====
-- A run of `Apply` on a small graph, and the theorems about it at that run.
use kapp.Prelude.{
  suc, length, ℕ, List, [], ◌∷◌, ◌≡◌, ◌≤◌, refl, true, false, none, some, inl, inr, Result, ok, err,
  panic, out_of_fuel, count, arith,
}
use kapp.DiffGraph.Errors.{Error}
use kapp.DiffGraph.Samples.{blank, vendored, rule_bindings, app_change, db_change, idle_change}
use kapp.Resources.Resource.{Resource}
use kapp.DiffGraph.Passes.{IsOrder}
use kapp.DiffGraph.Graph.{Memory, ChangeGraph, waiting_for, set_waiting_for, check_cycles}
use kapp.DiffGraph.Paths.{IsAcyclic, IsClosed}
use kapp.DiffGraph.Cycles.{check_cycles_decides}
use kapp.ClusterApply.Ops.{
  ClusterChangeOpts, ClusterChange, DiffOp, change_add, change_update, change_keep, change_noop,
}
use kapp.Waiters.State.{DoneApplyState}
use kapp.ClusterApply.Needs.{Found, Needs, IsMarking}
use kapp.ClusterApply.Returns.{calculate_returns}
use kapp.DiffGraph.Change.{ActualChange}
use kapp.DiffGraph.Build.{new_change_graph}
use kapp.ClusterApply.Marking.{mark_changes_to_wait-Found}
use kapp.ClusterApply.Calculate.{
  wrap_changes, alloc_clusters, mark_changes_to_wait, Clusters, Calculated, calculate,
}
use kapp.ClusterApply.Applying.{ApplyResult, one_unsuccessful, apply_failed}
use kapp.ClusterApply.Waiting.{WaitResult}
use kapp.ClusterApply.ChangeSet.{
  ClusterChangeSetOpts, Phase, applying, waiting, returned, State, initial, to_apply, after_apply,
  apply_round, wait_round,
}
use kapp.ClusterApply.Steps.{
  Event, attempted, finished, Step, nothing_to_apply, apply, wait, Reached, start, step, IsOrderly,
  was_finished, is_inconsistency, attempts, applied_of, wait_events,
}
use kapp.ClusterApply.Promises.{Reached-IsOrderly, Reached-finished}
use kapp.ClusterApply.Ordered.{calculate-IsOrder, calculate-is_inconsistency}

-- The first change waits for the second.
abbrev g : ChangeGraph
g = record { changes = 0 ∷ 1 ∷ []; memory = set_waiting_for 0 (1 ∷ []) blank }

abbrev opts : ClusterChangeSetOpts
opts = record { exit_early_on_apply_error = true; exit_early_on_wait_error = false }

abbrev applied : ℕ → List ApplyResult
applied p = record { change = p; retryable = false; error = none } ∷ []

abbrev done_state : DoneApplyState
done_state = record { done = true; successful = true; message = ""; unblock_changes = false }

abbrev waited : ℕ → List WaitResult
waited p = record { change = p; state = done_state; error = none; resource_timed_out = false } ∷ []

abbrev s1 : State
s1 = apply_round opts g (applied 1) false [] initial

abbrev s2 : State
s2 = wait_round opts (waited 1) false s1

abbrev s3 : State
s3 = apply_round opts g (applied 0) false [] s2

abbrev s4 : State
s4 = wait_round opts (waited 0) false s3

abbrev s5 : State
s5 = after_apply g [] [] s4

abbrev trace : List Event
trace = finished 0 ∷ attempted 0 ∷ finished 1 ∷ attempted 1 ∷ []

trace-Reached : Reached g opts trace s5
unfolding apply_round wait_round after_apply to_apply wait_events kapp.ClusterApply.Steps.event_of
    kapp.ClusterApply.Waiting.wait_error kapp.ClusterApply.Applying.receive
    kapp.ClusterApply.Waiting.collect kapp.ClusterApply.ChangeSet.after_received
    kapp.ClusterApply.ChangeSet.after_collected kapp.ClusterApply.ChangeSet.complete
    kapp.ClusterApply.Applying.non_applied_changes kapp.DiffGraph.Blocked.unblocked_changes
    kapp.DiffGraph.Blocked.is_unblocked kapp.DiffGraph.Blocked.none_blocked
    kapp.DiffGraph.Blocked.is_blocked kapp.DiffGraph.Graph.all_matching
    kapp.ClusterApply.Applying.mark_applied kapp.DiffGraph.Blocked.unblock
trace-Reached =
    step
      (step
        (step
          (step (step start (apply initial (applied 1) false refl (λ e. cc) (λ p. refl)))
            (wait s1 (waited 1) false refl (λ p. refl)))
          (apply s2 (applied 0) false refl (λ e. cc) (λ p. refl)))
        (wait s3 (waited 0) false refl (λ p. refl)))
      (nothing_to_apply s4 refl refl)

s5-returned : s5.phase ≡ returned none
unfolding apply_round wait_round after_apply to_apply wait_events kapp.ClusterApply.Steps.event_of
    kapp.ClusterApply.Waiting.wait_error kapp.ClusterApply.Applying.receive
    kapp.ClusterApply.Waiting.collect kapp.ClusterApply.ChangeSet.after_received
    kapp.ClusterApply.ChangeSet.after_collected kapp.ClusterApply.ChangeSet.complete
    kapp.ClusterApply.Applying.non_applied_changes kapp.DiffGraph.Blocked.unblocked_changes
    kapp.DiffGraph.Blocked.is_unblocked kapp.DiffGraph.Blocked.none_blocked
    kapp.DiffGraph.Blocked.is_blocked kapp.DiffGraph.Graph.all_matching
    kapp.ClusterApply.Applying.mark_applied kapp.DiffGraph.Blocked.unblock
s5-returned = refl

-- The second change cannot be applied, and the run ends at once.
abbrev failed : List ApplyResult
failed = record { change = 1; retryable = false; error = some "forbidden" } ∷ []

abbrev stopped : State
stopped = apply_round opts g failed false [] initial

stopped-Reached : Reached g opts (attempted 1 ∷ []) stopped
unfolding apply_round wait_round after_apply to_apply wait_events kapp.ClusterApply.Steps.event_of
    kapp.ClusterApply.Waiting.wait_error kapp.ClusterApply.Applying.receive
    kapp.ClusterApply.Waiting.collect kapp.ClusterApply.ChangeSet.after_received
    kapp.ClusterApply.ChangeSet.after_collected kapp.ClusterApply.ChangeSet.complete
    kapp.ClusterApply.Applying.non_applied_changes kapp.DiffGraph.Blocked.unblocked_changes
    kapp.DiffGraph.Blocked.is_unblocked kapp.DiffGraph.Blocked.none_blocked
    kapp.DiffGraph.Blocked.is_blocked kapp.DiffGraph.Graph.all_matching
    kapp.ClusterApply.Applying.mark_applied kapp.DiffGraph.Blocked.unblock
stopped-Reached = step start (apply initial failed false refl (λ e. cc) (λ p. refl))

stopped-returned : stopped.phase ≡ returned (some (one_unsuccessful (apply_failed "forbidden")))
unfolding apply_round kapp.ClusterApply.Applying.receive
stopped-returned = refl

g-IsClosed : IsClosed (waiting_for g.memory) g.changes
g-IsClosed a b m w = ground arith

g-checked : check_cycles g ≡ ok tt
unfolding check_cycles kapp.DiffGraph.Graph.check_each kapp.DiffGraph.Graph.check_cycles_visit
    kapp.DiffGraph.Graph.visit_each
g-checked = refl

ok_or_err : {r : Result Error (Unit {0})} {e : Error} → r ≡ ok tt → r ≡ err e → ⊥
ok_or_err h k = cc

g-IsAcyclic : IsAcyclic (waiting_for g.memory) g.changes
g-IsAcyclic = elim (check_cycles_decides g g-IsClosed) [
  | inl h ↦ h.1
  | inr (e, h, c) ↦ absurd (ok_or_err g-checked h)
]

g-single : (p : ℕ) → count p g.changes ≤ 1
g-single p = ground arith

Reached-IsOrderly_example : IsOrderly g trace
Reached-IsOrderly_example = Reached-IsOrderly g opts trace s5 trace-Reached

Reached-finished_example : was_finished 0 trace ≡ true
Reached-finished_example = Reached-finished g opts trace s5 0 trace-Reached s5-returned refl

abbrev cluster_opts : ClusterChangeOpts
cluster_opts = record { apply_ignored = false; wait = true; wait_ignored = false }

abbrev cluster_change : DiffOp → Resource → ClusterChange
cluster_change op res = record {
  change = record {
    op = op;
    is_ignored = false;
    new_or_existing_resource = res;
    original_state = inr done_state;
  };
  opts = cluster_opts;
  marked_needs_waiting = false;
}

-- The database is updated and the app added; the third change is neither applied nor waited for.
abbrev cluster_changes : List ClusterChange
cluster_changes =
    cluster_change change_add app_change.resource
    ∷ cluster_change change_update db_change.resource
    ∷ cluster_change change_keep idle_change.resource
    ∷ []

abbrev no_clusters : Clusters
no_clusters p = cluster_change change_noop idle_change.resource

abbrev ok_or : Calculated → Result Error Calculated → Calculated
ok_or other (ok r) = r
ok_or other (err e) = other
ok_or other (panic m) = other
ok_or other out_of_fuel = other

abbrev calculated : Calculated
calculated =
    ok_or (record { cluster_changes = []; graph = g; clusters = no_clusters })
      (calculate vendored blank no_clusters [] rule_bindings cluster_changes)

abbrev wrapped : List ActualChange
wrapped = app_change ∷ db_change ∷ idle_change ∷ []

calculated-ok :
    (calculate vendored blank no_clusters [] rule_bindings cluster_changes ≡ ok calculated)
    × (calculated.graph.changes ≡ 0 ∷ 1 ∷ [])
    × Reached calculated.graph opts
        (attempted 1 ∷ [])
        (apply_round opts calculated.graph failed false [] initial)
    × ((apply_round opts calculated.graph failed false [] initial).phase
        ≡ returned (some (one_unsuccessful (apply_failed "forbidden"))))
    × (wrap_changes cluster_changes ≡ wrapped)
    × ((new_change_graph vendored blank (wrap_changes cluster_changes) [] rule_bindings).0 ≡ ok tt)
unfolding calculate kapp.ClusterApply.Calculate.mark_and_prune kapp.ClusterApply.Calculate.mark_all
    kapp.ClusterApply.Calculate.mark_changes_to_wait kapp.ClusterApply.Calculate.mark_each
    kapp.ClusterApply.Calculate.prune_idle kapp.ClusterApply.Calculate.is_idle
    kapp.ClusterApply.Calculate.wrap_changes kapp.ClusterApply.Calculate.alloc_clusters
    kapp.ClusterApply.Ops.apply_op kapp.ClusterApply.Ops.wait_op kapp.ClusterApply.Ops.wrapped_op
    kapp.ClusterApply.Ops.op_after kapp.ClusterApply.Ops.actual_op
    kapp.ClusterApply.Ops.mark_needs_waiting kapp.DiffGraph.Build.new_change_graph
    kapp.DiffGraph.Build.build_edges kapp.DiffGraph.Build.collect_rules
    kapp.DiffGraph.Change.applicable_rules kapp.DiffGraph.GroupName.as_string
    kapp.DiffGraph.Rule.new_change_rule_from_ann_string
    kapp.DiffGraph.Group.new_change_group_from_ann_string kapp.Config.Matchers.as_resource_matchers
    kapp.Resources.Matchers.any_matches kapp.DiffGraph.Build.add_rules
    kapp.DiffGraph.Build.sort_rules kapp.DiffGraph.Build.matches_rule kapp.DiffGraph.Change.groups
    kapp.DiffGraph.Build.add_edges kapp.DiffGraph.Build.add_after kapp.DiffGraph.Build.add_edge
    check_cycles kapp.DiffGraph.Graph.dedup kapp.DiffGraph.Build.add_before
    kapp.DiffGraph.Build.alloc_changes kapp.DiffGraph.Build.calculate_deps
    kapp.DiffGraph.Build.insert_rule kapp.DiffGraph.Build.match_groups kapp.DiffGraph.Build.match_op
    kapp.DiffGraph.Build.no_new_cycle kapp.DiffGraph.Change.all_rules
    kapp.DiffGraph.Change.is_applicable kapp.DiffGraph.Change.known_op
    kapp.DiffGraph.Graph.add_waiting_for kapp.DiffGraph.Graph.check_cycles_visit
    kapp.DiffGraph.Graph.check_each kapp.DiffGraph.Graph.dedup_each kapp.DiffGraph.Graph.dedup_list
    kapp.DiffGraph.Graph.is_directly_waiting_for kapp.DiffGraph.Graph.is_transitively_waiting_for
    kapp.DiffGraph.Graph.search_each kapp.DiffGraph.Graph.search_from
    kapp.DiffGraph.Graph.visit_each kapp.DiffGraph.Group.is_equal
    kapp.DiffGraph.Group.is_qualified_name_without_len kapp.DiffGraph.Group.validate
    kapp.DiffGraph.GroupName.chars kapp.DiffGraph.GroupName.is_crd
    kapp.DiffGraph.GroupName.placeholder_err kapp.DiffGraph.GroupName.replace
    kapp.DiffGraph.GroupName.values_for kapp.DiffGraph.Rule.validate kapp.Prelude.split apply_round
    to_apply kapp.ClusterApply.Applying.receive kapp.ClusterApply.Applying.non_applied_changes
    kapp.DiffGraph.Blocked.unblocked_changes kapp.DiffGraph.Blocked.is_unblocked
    kapp.DiffGraph.Blocked.none_blocked kapp.DiffGraph.Blocked.is_blocked
    kapp.DiffGraph.Graph.all_matching
calculated-ok = (
  refl,
  refl,
  step start (apply initial failed false refl (λ e. cc) (λ p. refl)),
  refl,
  refl,
  refl,
)

calculate-IsOrder_example :
    IsOrder calculated.graph.changes calculated.graph.memory
    × ((p : ℕ) → count p calculated.graph.changes ≤ 1)
calculate-IsOrder_example =
    calculate-IsOrder vendored blank no_clusters [] rule_bindings cluster_changes calculated
      calculated-ok.0

calculate-is_inconsistency_example :
    is_inconsistency (one_unsuccessful (apply_failed "forbidden")) ≡ false
calculate-is_inconsistency_example =
    calculate-is_inconsistency vendored blank no_clusters [] rule_bindings cluster_changes
      calculated opts (attempted 1 ∷ []) (apply_round opts calculated.graph failed false [] initial)
      (one_unsuccessful (apply_failed "forbidden")) calculated-ok.0 calculated-ok.2 calculated-ok.3

abbrev added : Clusters
added p = cluster_change change_add app_change.resource

mark_changes_to_wait-Found_example :
    Found
      (waiting_for g.memory)
      added
      (Needs (waiting_for g.memory) added 0)
      (mark_changes_to_wait (waiting_for g.memory) (suc (length g.changes)) 0 added)
mark_changes_to_wait-Found_example =
    mark_changes_to_wait-Found (waiting_for g.memory) added g.changes g-IsClosed g-IsAcyclic
      (λ q. tt) 0 refl

calculate_returns_example :
    (r : Calculated) × (calculate vendored blank no_clusters [] rule_bindings cluster_changes
      ≡ ok r)
    × IsMarking
        (waiting_for
          (new_change_graph vendored blank
            (wrap_changes cluster_changes)
            []
            rule_bindings).1.memory)
        (alloc_clusters 0 cluster_changes no_clusters)
        r.clusters
calculate_returns_example =
    calculate_returns vendored blank no_clusters [] rule_bindings cluster_changes (λ q. tt)
      (tt, (tt, (tt, tt))) calculated-ok.5
