-- ===== src/ClusterApply/Marked.antt =====
-- About cluster_change_set.go, `markChangesToWait`, and the operations that are applied.
use kapp.Prelude.{
  ℕ, zero, suc, List, [], ◌∷◌, ◌≡◌, refl, ap, ◌∙◌, subst, Bool, inl, inr, ok, >>=-eq-ok,
  ok-injective, Bool-cases,
}
use kapp.ClusterApply.Ops.{wait_op}
use kapp.ClusterApply.Calculate.{Clusters, Marking, mark_each, mark_changes_to_wait, mark_all}
use kapp.ClusterApply.Pruned.{SameOps, SameOps-marked}

SameOps-then : (c c1 c2 : Clusters) → SameOps c c1 → SameOps c1 c2 → SameOps c c2
SameOps-then c c1 c2 h k p = k p ∙ h p

module _ (waiting : ℕ → List ℕ) where
  mark_each-SameOps :
      (mark : ℕ → Clusters → Marking)
      → ((p : ℕ) (c after : Clusters) (needs : Bool)
          → mark p c ≡ ok (needs, after)
          → SameOps c after)
      → (ps : List ℕ) (c after : Clusters) (needs : Bool)
      → mark_each waiting mark ps c ≡ ok (needs, after)
      → SameOps c after
  unfolding mark_each
  mark_each-SameOps mark h [] c after needs e =
      subst (SameOps c) (ap (λ (r : Bool × Clusters). r.1) (ok-injective e)) (λ p. refl)
  mark_each-SameOps mark h (p ∷ ps) c after needs e =
      let ((needs1, c1), e1, h1) = >>=-eq-ok (mark p c) _ e in
      elim (Bool-cases needs1) [
        | inl yes_needs ↦
            subst (SameOps c)
              (ap (λ (r : Bool × Clusters). r.1) (ok-injective (rw yes_needs at h1)))
              (h p c c1 needs1 e1)
        | inr no_needs ↦
            SameOps-then c c1 after (h p c c1 needs1 e1)
              (mark_each-SameOps mark h ps c1 after needs (rw no_needs at h1))
      ]

  mark_changes_to_wait-SameOps :
      (fuel p : ℕ) (c after : Clusters) (needs : Bool)
      → mark_changes_to_wait waiting fuel p c ≡ ok (needs, after)
      → SameOps c after
  unfolding mark_changes_to_wait
  mark_changes_to_wait-SameOps zero p c after needs e = cc
  mark_changes_to_wait-SameOps (suc fuel) p c after needs e =
      let ((needs1, c1), e1, h1) =
        >>=-eq-ok (mark_each waiting (mark_changes_to_wait waiting fuel) (waiting p) c) _ e in
      let before =
        mark_each-SameOps (mark_changes_to_wait waiting fuel) (mark_changes_to_wait-SameOps fuel)
          (waiting p) c c1 needs1 e1 in
      elim (Bool-cases needs1) [
        | inl yes_needs ↦ SameOps-then c c1 after before (
            subst (SameOps c1)
              (ap (λ (r : Bool × Clusters). r.1) (ok-injective (rw yes_needs at h1)))
              (SameOps-marked p c1))
        | inr no_needs ↦
            let (op, e2, h2) = >>=-eq-ok (wait_op (c1 p)) _ (rw no_needs at h1) in
            subst (SameOps c) (ap (λ (r : Bool × Clusters). r.1) (ok-injective h2)) before
      ]

  pub mark_all-SameOps :
      (fuel : ℕ) (ps : List ℕ) (c after : Clusters)
      → mark_all waiting fuel ps c ≡ ok after
      → SameOps c after
  unfolding mark_all
  mark_all-SameOps fuel [] c after e = subst (SameOps c) (ok-injective e) (λ p. refl)
  mark_all-SameOps fuel (p ∷ ps) c after e =
      let ((needs, c1), e1, h1) = >>=-eq-ok (mark_changes_to_wait waiting fuel p c) _ e in
      SameOps-then c c1 after (mark_changes_to_wait-SameOps fuel p c c1 needs e1)
        (mark_all-SameOps fuel ps c1 after h1)
