-- ===== src/ClusterApply/Pruned.antt =====
-- About cluster_change_set.go, `Calculate`: the changes that `RemoveMatching` takes off the graph.
use kapp.Prelude.{
  Result, err, panic, out_of_fuel, ℕ, ◌≤◌, List, [], ◌∷◌, ◌≡◌, refl, sym, ap, ◌∙◌, subst, true,
  false, ◌==◌, elem, elem-cons, count, arith, inl, inr, ok, >>=-eq-ok, ok-injective, Bool-cases,
}
use kapp.DiffGraph.Errors.{Error}
use kapp.DiffGraph.Change.{ActualChangeOp}
use kapp.DiffGraph.Matching.{is_active}
use kapp.DiffGraph.Rounds.{elem-count}
use kapp.ClusterApply.Ops.{
  op_after, ApplyOp, apply_add, apply_delete, apply_update, apply_noop, apply_exists, ClusterChange,
  apply_op, mark_needs_waiting, actual_op, wrapped_op,
}
use kapp.ClusterApply.Calculate.{Clusters, put_cluster, is_apply_noop, is_idle, prune_idle}

-- Marking leaves what is applied as it is.
abbrev pub SameOps : Clusters → Clusters → Type 0
SameOps clusters after =
    (p : ℕ) → apply_op {E = Error} (after p) ≡ apply_op {E = Error} (clusters p)

pub SameOps-marked :
    (p : ℕ) (clusters : Clusters)
    → SameOps clusters (put_cluster p (mark_needs_waiting (clusters p)) clusters)
unfolding apply_op mark_needs_waiting
SameOps-marked p clusters q = elim (Bool-cases (q == p)) [
  | inl e ↦
      let same : q ≡ p = ground arith in
      rw e (ap (λ n. apply_op {E = Error} (clusters n)) (sym same))
  | inr n ↦ rw n refl
]

pub active-applied :
    (c : ClusterChange) (op : ActualChangeOp)
    → wrapped_op c ≡ op
    → is_active op ≡ true
    → (a : ApplyOp) × (apply_op {E = Error} c ≡ ok a) × (is_apply_noop a ≡ false)
unfolding wrapped_op op_after actual_op
active-applied c op h k = of_result (apply_op c) op refl h k
  where
    go :
        (a : ApplyOp) (op : ActualChangeOp)
        → actual_op a ≡ op
        → is_active op ≡ true
        → is_apply_noop a ≡ false
    go apply_add op e k = refl
    go apply_delete op e k = refl
    go apply_update op e k = refl
    go apply_exists op e k = refl
    go apply_noop op e k = cc

    of_result :
        (r : Result Error ApplyOp) (op : ActualChangeOp)
        → apply_op {E = Error} c ≡ r
        → op_after r ≡ op
        → is_active op ≡ true
        → (a : ApplyOp) × (apply_op {E = Error} c ≡ ok a) × (is_apply_noop a ≡ false)
    of_result (ok a) op e h k = (a, e, go a op h k)
    of_result (err x) op e h k = cc (h, k)
    of_result (panic m) op e h k = cc (h, k)
    of_result out_of_fuel op e h k = cc (h, k)

pub prune_idle-keeps :
    (clusters : Clusters) (ps kept : List ℕ) (p : ℕ) (a : ApplyOp)
    → prune_idle clusters ps ≡ ok kept
    → apply_op {E = Error} (clusters p) ≡ ok a
    → is_apply_noop a ≡ false
    → elem p ps ≡ true
    → elem p kept ≡ true
unfolding prune_idle is_idle
prune_idle-keeps clusters [] kept p a h e k m = cc
prune_idle-keeps clusters (q ∷ ps) kept p a h e k m =
    let (idle, e1, h1) = >>=-eq-ok (is_idle (clusters q)) _ h in
    let (rest, e2, h2) = >>=-eq-ok (prune_idle clusters ps) _ h1 in
    subst (λ l. elem p l ≡ true) (ok-injective h2)
      (elim (elem-cons p q ps m) [
        | inl same ↦
            let busy : idle ≡ false =
              ok-injective (
                sym e1 ∙ rw (ap (λ n. apply_op {E = Error} (clusters n)) (sym same) ∙ e, k) refl) in
            ground arith
        | inr later ↦ ground (arith, prune_idle-keeps clusters ps rest p a e2 e k later)
      ])

pub prune_idle-count :
    (clusters : Clusters) (ps kept : List ℕ) (p : ℕ)
    → prune_idle clusters ps ≡ ok kept
    → count p kept ≤ count p ps
unfolding prune_idle
prune_idle-count clusters [] kept p h = ground arith
prune_idle-count clusters (q ∷ ps) kept p h =
    let (idle, e1, h1) = >>=-eq-ok (is_idle (clusters q)) _ h in
    let (rest, e2, h2) = >>=-eq-ok (prune_idle clusters ps) _ h1 in
    subst (λ l. count p l ≤ count p (q ∷ ps)) (ok-injective h2)
      (ground (arith, prune_idle-count clusters ps rest p e2))

pub prune_idle-elem :
    (clusters : Clusters) (ps kept : List ℕ) (p : ℕ)
    → prune_idle clusters ps ≡ ok kept
    → elem p kept ≡ true
    → elem p ps ≡ true
prune_idle-elem clusters ps kept p h m =
    ground (arith, elem-count p kept, elem-count p ps, prune_idle-count clusters ps kept p h)
