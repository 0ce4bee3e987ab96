-- ===== src/ClusterApply/Ordered.antt =====
-- About cluster_change_set.go, `Calculate`, and the graph that it returns.
use kapp.Prelude.{
  ℕ, suc, ◌+◌, ◌≤◌, ◌<◌, List, [], ◌∷◌, ◌≡◌, refl, sym, ap, ◌∙◌, subst, true, false, elem,
  elem-cons, count, length, arith, inl, inr, ok, >>=-eq-ok, ok-injective, some,
}
use kapp.Config.Bindings.{ChangeGroupBinding, ChangeRuleBinding}
use kapp.DiffGraph.Errors.{Vendored}
use kapp.DiffGraph.Change.{ActualChange, Change}
use kapp.DiffGraph.Matching.{is_active}
use kapp.DiffGraph.Graph.{Memory, ChangeGraph, waiting_for}
use kapp.DiffGraph.Build.{fresh_change, put_change, alloc_changes, new_change_graph}
use kapp.DiffGraph.Passes.{IsOrder}
use kapp.DiffGraph.NewGraph.{
  alloc-below, alloc-count, new_change_graph-IsOrder, new_change_graph-change,
  new_change_graph-changes,
}
use kapp.ClusterApply.Ops.{ClusterChange, wrapped_op}
use kapp.ClusterApply.Calculate.{
  Clusters, put_cluster, alloc_clusters, wrap_changes, mark_all, prune_idle, Calculated,
  mark_and_prune, calculate,
}
use kapp.ClusterApply.Pruned.{active-applied, prune_idle-keeps, prune_idle-count, prune_idle-elem}
use kapp.ClusterApply.Marked.{mark_all-SameOps}
use kapp.ClusterApply.Applying.{ApplyError}
use kapp.ClusterApply.ChangeSet.{ClusterChangeSetOpts, State, returned}
use kapp.ClusterApply.Steps.{Event, Reached, is_inconsistency}
use kapp.ClusterApply.Complete.{Reached-is_inconsistency}

alloc_clusters-below :
    (next : ℕ) (cs : List ClusterChange) (clusters : Clusters) (p : ℕ)
    → p < next
    → alloc_clusters next cs clusters p ≡ clusters p
unfolding alloc_clusters
alloc_clusters-below next [] clusters p h = refl
alloc_clusters-below next (c ∷ cs) clusters p h =
    alloc_clusters-below (next + 1) cs (put_cluster next c clusters) p (omega arith) ∙ ground arith

module _ (group_bindings : List ChangeGroupBinding) (rule_bindings : List ChangeRuleBinding) where
  -- A change of the graph has the operation of the cluster change with its number.
  wrap_changes-op :
      (next : ℕ) (cs : List ClusterChange) (m : Memory) (clusters : Clusters) (p : ℕ)
      → elem p (alloc_changes group_bindings rule_bindings next (wrap_changes cs) m).changes ≡ true
      → wrapped_op (alloc_clusters next cs clusters p)
        ≡ ((alloc_changes group_bindings rule_bindings next (wrap_changes cs) m).memory p).change.op
  unfolding wrap_changes alloc_changes alloc_clusters
  wrap_changes-op next [] m clusters p k = cc
  wrap_changes-op next (c ∷ cs) m clusters p k =
      let first : ActualChange = record {
        resource = c.change.new_or_existing_resource;
        op = wrapped_op c;
      } in
      let m' : Memory = put_change next (fresh_change group_bindings rule_bindings first) m in
      elim (elem-cons p next
        (alloc_changes group_bindings rule_bindings (next + 1) (wrap_changes cs) m').changes k) [
          | inl e ↦
              ap (λ (d : ClusterChange). wrapped_op d)
                (alloc_clusters-below (next + 1) cs (put_cluster next c clusters) p (omega arith)
                  ∙ cluster_at next c clusters p e)
              ∙ sym (
                  ap (λ (d : Change). d.change.op)
                    (alloc-below group_bindings rule_bindings (next + 1) (wrap_changes cs) m' p
                        (omega arith)
                      ∙ change_at next first m p e))
          | inr later ↦ wrap_changes-op (next + 1) cs m' (put_cluster next c clusters) p later
        ]
    where
      cluster_at :
          (next : ℕ) (c : ClusterChange) (clusters : Clusters) (p : ℕ)
          → p ≡ next
          → put_cluster next c clusters p ≡ c
      cluster_at next c clusters p e = ground arith

      change_at :
          (next : ℕ) (first : ActualChange) (m : Memory) (p : ℕ)
          → p ≡ next
          → put_change next (fresh_change group_bindings rule_bindings first) m p
            ≡ fresh_change group_bindings rule_bindings first
      change_at next first m p e = ground arith

module _ (v : Vendored) (memory : Memory) (clusters : Clusters)
    (group_bindings : List ChangeGroupBinding) (rule_bindings : List ChangeRuleBinding)
    (changes : List ClusterChange) (r : Calculated) where
  -- What a successful `Calculate` went through; `g` is the graph that `NewChangeGraph` built.
  record Went : Type 0 where
    pub built_ok :
        (new_change_graph v memory (wrap_changes changes) group_bindings rule_bindings).0 ≡ ok tt
    pub marked_ok :
        mark_all
          (waiting_for
            (new_change_graph v memory
              (wrap_changes changes)
              group_bindings
              rule_bindings).1.memory)
          (suc (
            length
              (new_change_graph v memory
                (wrap_changes changes)
                group_bindings
                rule_bindings).1.changes))
          (new_change_graph v memory (wrap_changes changes) group_bindings rule_bindings).1.changes
          (alloc_clusters 0 changes clusters)
        ≡ ok r.clusters
    pub kept_ok :
        prune_idle r.clusters
          (new_change_graph v memory (wrap_changes changes) group_bindings rule_bindings).1.changes
        ≡ ok r.graph.changes
    pub same_memory :
        r.graph.memory
        ≡ (new_change_graph v memory (wrap_changes changes) group_bindings rule_bindings).1.memory

  calculate-Went : calculate v memory clusters group_bindings rule_bindings changes ≡ ok r → Went
  unfolding calculate mark_and_prune
  calculate-Went h =
      let built = new_change_graph v memory (wrap_changes changes) group_bindings rule_bindings in
      let (_, e2, h2) = >>=-eq-ok built.0 _ h in
      let (marked, e3, h3) =
        >>=-eq-ok
          (mark_all (waiting_for built.1.memory) (suc (length built.1.changes)) built.1.changes
            (alloc_clusters 0 changes clusters))
          _ h2 in
      let (kept, e4, h4) = >>=-eq-ok (prune_idle marked built.1.changes) _ h3 in
      let same = ok-injective h4 in
      let same_clusters : marked ≡ r.clusters = ap (λ (x : Calculated). x.clusters) same in
      record {
        built_ok = e2;
        marked_ok = e3 ∙ ap (λ (x : Clusters). ok x) same_clusters;
        kept_ok =
            ap (λ (x : Clusters). prune_idle x built.1.changes) (sym same_clusters)
            ∙ e4
            ∙ ap (λ (x : Calculated). ok x.graph.changes) same;
        same_memory = ap (λ (x : Calculated). x.graph.memory) (sym same);
      }

  module _ (w : Went) where
    abbrev built : ChangeGraph
    built = (new_change_graph v memory (wrap_changes changes) group_bindings rule_bindings).1

    built-IsOrder : IsOrder built.changes built.memory
    built-IsOrder =
        new_change_graph-IsOrder v memory (wrap_changes changes) group_bindings rule_bindings
          w.built_ok

    active-kept :
        (b : ℕ)
        → elem b built.changes ≡ true
        → is_active (built.memory b).change.op ≡ true
        → elem b r.graph.changes ≡ true
    active-kept b known active =
        let of_graph = wrap_changes-op group_bindings rule_bindings 0 changes memory clusters b (
          subst (λ l. elem b l ≡ true)
            (new_change_graph-changes v memory (wrap_changes changes) group_bindings rule_bindings)
            known) in
        let same_op =
          ap (λ (x : ActualChange). x.op)
            (new_change_graph-change v memory (wrap_changes changes) group_bindings rule_bindings b
              w.built_ok) in
        let (a, e, busy) =
          active-applied (alloc_clusters 0 changes clusters b) _ of_graph
            (subst (λ op. is_active op ≡ true) same_op active) in
        prune_idle-keeps r.clusters built.changes r.graph.changes b a w.kept_ok
          (mark_all-SameOps (waiting_for built.memory) (suc (length built.changes)) built.changes
              (alloc_clusters 0 changes clusters) r.clusters w.marked_ok b
            ∙ e)
          busy known

    kept-elem : (a : ℕ) → elem a r.graph.changes ≡ true → elem a built.changes ≡ true
    kept-elem a m = prune_idle-elem r.clusters built.changes r.graph.changes a w.kept_ok m

    kept-IsOrder : IsOrder r.graph.changes built.memory
    kept-IsOrder =
        let o = built-IsOrder in
        record {
          closed = λ a b m k.
              active-kept b (o.closed a b (kept-elem a m) k) (o.ends a b (kept-elem a m) k).1;
          acyclic = λ p m. o.acyclic p (kept-elem p m);
          ends = λ a b m. o.ends a b (kept-elem a m);
          distinct = λ a b m. o.distinct a b (kept-elem a m);
        }

  -- When `Calculate` returns without error, the graph that it leaves after taking off the changes
  -- that are neither applied nor waited for is still closed under waiting and without cycles, its
  -- changes wait only for upserts and deletions, each listed once, and it holds no change twice.
  pub calculate-IsOrder :
      calculate v memory clusters group_bindings rule_bindings changes ≡ ok r
      → IsOrder r.graph.changes r.graph.memory × ((p : ℕ) → count p r.graph.changes ≤ 1)
  calculate-IsOrder h =
      let w = calculate-Went h in
      (
        subst (IsOrder r.graph.changes) (sym w.same_memory) (kept-IsOrder w),
        λ p. omega (
          arith,
          prune_idle-count r.clusters (built w).changes r.graph.changes p w.kept_ok,
          subst (λ l. count p l ≤ 1)
              (sym (
                new_change_graph-changes v memory (wrap_changes changes) group_bindings
                  rule_bindings))
              (alloc-count group_bindings rule_bindings 0 (wrap_changes changes) memory p),
        ),
      )

  -- `Apply` never returns the error that not all changes were applied when it runs through a graph
  -- that `Calculate` returned.
  pub calculate-is_inconsistency :
      (opts : ClusterChangeSetOpts) (t : List Event) (s : State) (e : ApplyError)
      → calculate v memory clusters group_bindings rule_bindings changes ≡ ok r
      → Reached r.graph opts t s
      → s.phase ≡ returned (some e)
      → is_inconsistency e ≡ false
  calculate-is_inconsistency opts t s e h reached at_end =
      let (order, single) = calculate-IsOrder h in
      Reached-is_inconsistency r.graph order.closed order.acyclic single opts t s e reached at_end
