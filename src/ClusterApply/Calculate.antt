-- ===== src/ClusterApply/Calculate.antt =====
-- cluster_change_set.go: `ClusterChangeSet.Calculate` and `markChangesToWait`. Each change of the
-- graph points to a cluster change, which has the same number here; `markChangesToWait` recurs on
-- fuel, one more than the changes of the graph.
use kapp.Prelude.{
  ℕ, zero, suc, ◌+◌, List, [], ◌∷◌, Bool, true, false, not, ◌==◌, length, map, if◌then◌else◌,
  Result, ok, out_of_fuel, ◌>>=◌,
}
use kapp.Config.Bindings.{ChangeGroupBinding, ChangeRuleBinding}
use kapp.DiffGraph.Errors.{Error, Vendored}
use kapp.DiffGraph.Change.{ActualChange}
use kapp.DiffGraph.Graph.{Memory, ChangeGraph, waiting_for}
use kapp.DiffGraph.Build.{new_change_graph}
use kapp.ClusterApply.Ops.{
  ApplyOp, apply_noop, WaitOp, wait_noop, ClusterChange, apply_op, wait_op, mark_needs_waiting,
  wrapped_op, apply_add, apply_delete, apply_update, apply_exists, wait_ok, wait_delete,
}

abbrev pub Clusters : Type 0
Clusters = ℕ → ClusterChange

abbrev pub put_cluster : ℕ → ClusterChange → Clusters → Clusters
put_cluster p c clusters q = if q == p then c else clusters q

-- The cluster changes by their numbers; `clusters` is what was there before.
unfoldable pub alloc_clusters : ℕ → List ClusterChange → Clusters → Clusters
alloc_clusters next [] clusters = clusters
alloc_clusters next (c ∷ cs) clusters = alloc_clusters (next + 1) cs (put_cluster next c clusters)

-- wrappedClusterChange: what the graph reads of a cluster change. An operation that panics does so
-- where the graph asks for it.
unfoldable pub wrap_changes : List ClusterChange → List ActualChange
unfolding wrapped_op
wrap_changes [] = []
wrap_changes (c ∷ cs) =
    record { resource = c.change.new_or_existing_resource; op = wrapped_op c } ∷ wrap_changes cs

abbrev pub is_wait_noop : WaitOp → Bool
is_wait_noop wait_noop = true
is_wait_noop wait_ok = false
is_wait_noop wait_delete = false

abbrev pub is_apply_noop : ApplyOp → Bool
is_apply_noop apply_noop = true
is_apply_noop apply_add = false
is_apply_noop apply_delete = false
is_apply_noop apply_update = false
is_apply_noop apply_exists = false

abbrev pub Marking : Type 0
Marking = Result Error (Bool × Clusters)

module _ (waiting : ℕ → List ℕ) where
  -- The loop over `WaitingFor`, which stops at the first change that needs waiting.
  unfoldable pub mark_each : (ℕ → Clusters → Marking) → List ℕ → Clusters → Marking
  mark_each mark [] clusters = ok (false, clusters)
  mark_each mark (p ∷ ps) clusters = mark p clusters >>= λ (needs, after).
      if needs then ok (true, after) else mark_each mark ps after

  unfoldable pub mark_changes_to_wait : ℕ → ℕ → Clusters → Marking
  unfolding mark_each
  mark_changes_to_wait zero p clusters = out_of_fuel
  mark_changes_to_wait (suc fuel) p clusters =
      mark_each (mark_changes_to_wait fuel) (waiting p) clusters >>= λ (needs, after).
      if needs
      then ok (true, put_cluster p (mark_needs_waiting (after p)) after)
      else wait_op (after p) >>= λ op. ok (not (is_wait_noop op), after)

  -- `AllMatching` with a function that marks and matches nothing.
  unfoldable pub mark_all : ℕ → List ℕ → Clusters → Result Error Clusters
  unfolding mark_changes_to_wait
  mark_all fuel [] clusters = ok clusters
  mark_all fuel (p ∷ ps) clusters =
      mark_changes_to_wait fuel p clusters >>= λ (_, after). mark_all fuel ps after

-- Neither applied nor waited for.
unfoldable pub is_idle : ClusterChange → Result Error Bool
is_idle c = apply_op c >>= λ op.
    if is_apply_noop op then (wait_op c >>= λ w. ok (is_wait_noop w)) else ok false

-- `RemoveMatching` with a test that can panic.
unfoldable pub prune_idle : Clusters → List ℕ → Result Error (List ℕ)
unfolding is_idle
prune_idle clusters [] = ok []
prune_idle clusters (p ∷ ps) = do
  idle ← is_idle (clusters p)
  rest ← prune_idle clusters ps
  ok (if idle then rest else p ∷ rest)

pub record Calculated : Type 0 where
  pub cluster_changes : List ClusterChange
  pub graph : ChangeGraph
  pub clusters : Clusters

module _ (v : Vendored) (memory : Memory) (clusters : Clusters)
    (group_bindings : List ChangeGroupBinding) (rule_bindings : List ChangeRuleBinding) where
  -- Once the graph is built without error.
  unfoldable pub mark_and_prune : List ClusterChange → ChangeGraph → Result Error Calculated
  unfolding mark_all prune_idle alloc_clusters
  mark_and_prune changes g = do
    marked ←
        mark_all (waiting_for g.memory) (suc (length g.changes)) g.changes
          (alloc_clusters 0 changes clusters)
    kept ← prune_idle marked g.changes
    ok (record {
      cluster_changes = map marked kept;
      graph = record g { changes = kept };
      clusters = marked;
    })

  -- `Calculate` of the changes that the factory made; the graph of an error is left out.
  unfoldable pub calculate : List ClusterChange → Result Error Calculated
  unfolding wrap_changes mark_and_prune
  calculate changes = do
    let (result, g) = new_change_graph v memory (wrap_changes changes) group_bindings rule_bindings
    _ ← result
    mark_and_prune changes g
