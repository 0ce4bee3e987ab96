-- ===== src/ClusterApply/Returns.antt =====
-- About cluster_change_set.go, `Calculate`, once the graph is built.
use kapp.Prelude.{
  ℕ, suc, ◌+◌, List, [], ◌∷◌, ◌≡◌, refl, sym, subst, Bool, true, false, not, ◌&&◌, elem, length,
  arith, inl, inr, Bool-cases, Result, ok, if◌then◌else◌, map, All, ◌==◌,
}
use kapp.Config.Bindings.{ChangeGroupBinding, ChangeRuleBinding}
use kapp.DiffGraph.Errors.{Error, Vendored}
use kapp.DiffGraph.Graph.{Memory, ChangeGraph, waiting_for}
use kapp.DiffGraph.Build.{new_change_graph}
use kapp.DiffGraph.Paths.{IsAcyclic, IsClosed}
use kapp.DiffGraph.PathLaws.{missing-le-length}
use kapp.DiffGraph.NewGraph.{new_change_graph-IsOrder}
use kapp.ClusterApply.Ops.{
  ApplyOp, apply_noop, change_add, change_delete, change_update, change_keep, change_exists,
  change_noop, change_unknown, DiffOp, apply_add, apply_delete, apply_update, apply_exists,
  ClusterChange, apply_op, apply_op_of, mark_needs_waiting,
}
use kapp.ClusterApply.Calculate.{
  Clusters, put_cluster, alloc_clusters, wrap_changes, is_wait_noop, is_apply_noop, mark_all,
  is_idle, prune_idle, Calculated, mark_and_prune, calculate,
}
use kapp.ClusterApply.WaitOps.{IsKnown, wait_op-known}
use kapp.ClusterApply.Needs.{IsMarking}
use kapp.ClusterApply.Marking.{mark-Found}

apply_op_of-known : (op : DiffOp) → IsKnown op → (a : ApplyOp) × (apply_op_of {E = Error} op ≡ ok a)
unfolding apply_op_of
apply_op_of-known change_add k = (apply_add, refl)
apply_op_of-known change_delete k = (apply_delete, refl)
apply_op_of-known change_update k = (apply_update, refl)
apply_op_of-known change_keep k = (apply_noop, refl)
apply_op_of-known change_exists k = (apply_exists, refl)
apply_op_of-known change_noop k = (apply_noop, refl)
apply_op_of-known (change_unknown op) k = absurd k

apply_op-known :
    (c : ClusterChange) → IsKnown c.change.op → (a : ApplyOp) × (apply_op {E = Error} c ≡ ok a)
unfolding apply_op
apply_op-known c k =
    let (a, e) = apply_op_of-known c.change.op k in
    go (not c.opts.apply_ignored && c.change.is_ignored) a e
  where
    go :
        (ignored : Bool) (a : ApplyOp)
        → apply_op_of {E = Error} c.change.op ≡ ok a
        → (b : ApplyOp) × ((if ignored then ok apply_noop else apply_op_of {E = Error} c.change.op)
            ≡ ok b)
    go true a e = (apply_noop, refl)
    go false a e = (a, e)

is_idle-known : (c : ClusterChange) → IsKnown c.change.op → (idle : Bool) × (is_idle c ≡ ok idle)
unfolding is_idle
is_idle-known c k =
    let (a, ea) = apply_op-known c k in
    let (w, ew) = wait_op-known c k in
    elim (Bool-cases (is_apply_noop a)) [
      | inl n ↦ (is_wait_noop w, rw (ea, n, ew) refl)
      | inr n ↦ (false, rw (ea, n) refl)
    ]

prune_idle-known :
    (clusters : Clusters) (ps : List ℕ)
    → ((q : ℕ) → IsKnown (clusters q).change.op)
    → (kept : List ℕ) × (prune_idle clusters ps ≡ ok kept)
unfolding prune_idle
prune_idle-known clusters [] known = ([], refl)
prune_idle-known clusters (p ∷ ps) known =
    let (idle, e) = is_idle-known (clusters p) (known p) in
    let (rest, h) = prune_idle-known clusters ps known in
    ((if idle then rest else p ∷ rest), rw (e, h) refl)

module _ (waiting : ℕ → List ℕ) (clusters : Clusters) (changes : List ℕ)
    (closed : IsClosed waiting changes) (acyclic : IsAcyclic waiting changes)
    (known : (q : ℕ) → IsKnown (clusters q).change.op) where
  mark_all_returns :
      (ps : List ℕ) (c : Clusters)
      → ((p : ℕ) → elem p ps ≡ true → elem p changes ≡ true)
      → IsMarking waiting clusters c
      → (after : Clusters) × (mark_all waiting (suc (length changes)) ps c ≡ ok after)
        × IsMarking waiting clusters after
  unfolding mark_all
  mark_all_returns [] c sub m = (c, refl, m)
  mark_all_returns (p ∷ ps) c sub m =
      let first =
        mark-Found waiting clusters changes closed acyclic known (suc (length changes)) p [] c
          (sub p (ground arith)) (λ t h. cc) (omega (arith, missing-le-length changes [])) m in
      let (after, e, n) =
        mark_all_returns ps first.after (λ q h. sub q (ground arith)) first.marking in
      (after, rw first.returns e, n)

  marked-IsKnown :
      (after : Clusters) → IsMarking waiting clusters after → (q : ℕ) → IsKnown (after q).change.op
  unfolding mark_needs_waiting
  marked-IsKnown after m q = elim (m q) [
    | inl e ↦ subst (λ (c : ClusterChange). IsKnown c.change.op) (sym e) (known q)
    | inr (e, n) ↦ subst (λ (c : ClusterChange). IsKnown c.change.op) (sym e) (known q)
  ]

alloc_clusters-IsKnown :
    (next : ℕ) (cs : List ClusterChange) (clusters : Clusters)
    → ((q : ℕ) → IsKnown (clusters q).change.op)
    → All (λ c. IsKnown c.change.op) cs
    → (q : ℕ) → IsKnown (alloc_clusters next cs clusters q).change.op
unfolding alloc_clusters
alloc_clusters-IsKnown next [] clusters k ks q = k q
alloc_clusters-IsKnown next (c ∷ cs) clusters k ks q =
    alloc_clusters-IsKnown (next + 1) cs (put_cluster next c clusters)
      (λ p. elim (Bool-cases (p == next)) [ inl e ↦ rw e (ks.0) | inr n ↦ rw n (k p) ]) ks.1 q

module _ (v : Vendored) (memory : Memory) (clusters : Clusters)
    (group_bindings : List ChangeGroupBinding) (rule_bindings : List ChangeRuleBinding)
    (changes : List ClusterChange) where
  abbrev built : Result Error (Unit {0}) × ChangeGraph
  built = new_change_graph v memory (wrap_changes changes) group_bindings rule_bindings

  -- When the operations of all cluster changes are known and `NewChangeGraph` succeeds on them,
  -- `Calculate` returns without error, and it has marked only changes that are waited for or wait,
  -- directly or through others, for one that is.
  pub calculate_returns :
      ((q : ℕ) → IsKnown (clusters q).change.op)
      → All (λ c. IsKnown c.change.op) changes
      → built.0 ≡ ok tt
      → (r : Calculated) × (calculate v memory clusters group_bindings rule_bindings changes ≡ ok r)
        × IsMarking (waiting_for built.1.memory) (alloc_clusters 0 changes clusters) r.clusters
  unfolding calculate mark_and_prune
  calculate_returns known_before known_changes h =
      let known = alloc_clusters-IsKnown 0 changes clusters known_before known_changes in
      let o =
        new_change_graph-IsOrder v memory (wrap_changes changes) group_bindings rule_bindings h in
      let start = alloc_clusters 0 changes clusters in
      let waiting = waiting_for built.1.memory in
      let (after, e, m) =
        mark_all_returns waiting start built.1.changes o.closed o.acyclic known built.1.changes
          start (λ p k. k) (λ q. inl refl) in
      let (kept, k) =
        prune_idle-known after built.1.changes
          (marked-IsKnown waiting start built.1.changes o.closed o.acyclic known after m) in
      (
        record {
          cluster_changes = map after kept;
          graph = record built.1 { changes = kept };
          clusters = after;
        },
        rw (h, e, k) refl,
        m,
      )
