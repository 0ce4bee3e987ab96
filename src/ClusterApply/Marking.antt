-- ===== src/ClusterApply/Marking.antt =====
-- About cluster_change_set.go, `markChangesToWait`: its recursion along the graph.
use kapp.Prelude.{
  ℕ, zero, suc, ◌<◌, List, [], ◌∷◌, ◌≡◌, refl, sym, subst, true, false, elem, elem-cons, length,
  arith, inl, inr, Bool-cases,
}
use kapp.DiffGraph.Paths.{WaitsFor, direct, IsAcyclic, IsClosed}
use kapp.DiffGraph.PathLaws.{WaitsFor-snoc, missing, missing-cons, missing-le-length}
use kapp.ClusterApply.Ops.{mark_needs_waiting}
use kapp.ClusterApply.Calculate.{Clusters, put_cluster, mark_each, mark_changes_to_wait}
use kapp.ClusterApply.WaitOps.{IsKnown}
use kapp.ClusterApply.Needs.{
  Needs, IsMarking, Found, Any, mark_each-Found, Needs-up, put-IsMarking, own-Found,
}

module _ (waiting : ℕ → List ℕ) (clusters : Clusters) (changes : List ℕ)
    (closed : IsClosed waiting changes) (acyclic : IsAcyclic waiting changes)
    (known : (q : ℕ) → IsKnown (clusters q).change.op) where
  -- A call once its loop is done.
  looped-Found :
      (fuel p : ℕ) (c : Clusters)
      → Found waiting clusters
          (Any waiting clusters (waiting p))
          (mark_each waiting (mark_changes_to_wait waiting fuel) (waiting p) c)
      → Found waiting clusters
          (Needs waiting clusters p)
          (mark_changes_to_wait waiting (suc fuel) p c)
  unfolding mark_changes_to_wait
  looped-Found fuel p c loop = elim (Bool-cases loop.needs) [
    | inl yes_needs ↦
        let n = Needs-up waiting clusters p (loop.found yes_needs) in
        record {
          needs = true;
          after = put_cluster p (mark_needs_waiting (loop.after p)) loop.after;
          returns = rw (loop.returns, yes_needs) refl;
          marking = put-IsMarking waiting clusters p loop.after loop.marking n;
          found = λ e. n;
          missed = λ e. cc;
        }
    | inr no_needs ↦
        let own =
          own-Found waiting clusters known p loop.after loop.marking (loop.missed no_needs) in
        record {
          needs = own.needs;
          after = own.after;
          returns = rw (loop.returns, no_needs) own.returns;
          marking = own.marking;
          found = own.found;
          missed = own.missed;
        }
  ]

  pub mark-Found :
      (fuel p : ℕ) (walked : List ℕ) (c : Clusters)
      → elem p changes ≡ true
      → ((t : ℕ) → elem t walked ≡ true → WaitsFor waiting t p)
      → missing changes walked < fuel
      → IsMarking waiting clusters c
      → Found waiting clusters (Needs waiting clusters p) (mark_changes_to_wait waiting fuel p c)
  mark-Found zero p walked c k leads room m = absurd (omega arith)
  mark-Found (suc fuel) p walked c k leads room m = looped-Found fuel p c (
      mark_each-Found waiting clusters (mark_changes_to_wait waiting fuel) (waiting p) c m (λ q d e.
        mark-Found fuel q (p ∷ walked) d (closed p q k e)
          (λ t h. elim (elem-cons t p walked h) [
            | inl same ↦ direct (subst (λ x. elem q (waiting x) ≡ true) (sym same) e)
            | inr old ↦ WaitsFor-snoc (leads t old) e
          ])
          (omega (arith, missing-cons changes p walked k new_here))))
    where
      new_here : elem p walked ≡ false
      new_here = elim (Bool-cases (elem p walked)) [
        | inl again ↦ absurd (acyclic p k (leads p again))
        | inr new ↦ new
      ]

  -- On a closed graph without cycles whose changes have known operations, `markChangesToWait`
  -- returns, true exactly when the change, or one that it waits for directly or through others, is
  -- waited for; and it marks only changes of which this holds.
  pub mark_changes_to_wait-Found :
      (p : ℕ)
      → elem p changes ≡ true
      → Found waiting clusters
          (Needs waiting clusters p)
          (mark_changes_to_wait waiting (suc (length changes)) p clusters)
  mark_changes_to_wait-Found p k =
      mark-Found (suc (length changes)) p [] clusters k (λ t h. cc)
        (omega (arith, missing-le-length changes [])) (λ q. inl refl)
