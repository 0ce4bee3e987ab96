-- ===== src/Waiters/Rollout.antt =====
-- About apps_v1_deployment.go, apps_v1_stateful_set.go and apps_v1_daemon_set.go, on objects whose
-- numbers are from 0 on.
use kapp.Prelude.{
  ℕ, ℤ, pos, false, none, some, ◌≡◌, refl, ◌≤◌, ◌+◌, ◌↔◌, Bool-cases, inl, inr, arith, lt_int,
  eq_int, sub_int32, IsSmall, eq_int_iff, sub_int32-ltb, sub_int32-sub_int32-ltb, ltb, ◌⊎◌, sym,
  sub_int32-zero, ◌∙◌,
}
use kapp.Waiters.State.{IsSuccess}
use kapp.Waiters.Typed.{StatefulSet}
use kapp.Waiters.Workloads.{stateful_replicas, stateful_set_done, stateful_partition, to_update}

-- The numbers of a stateful set; no partition is the partition 0.
pub record StatefulCounts (s : StatefulSet) : Type 0 where
  pub replicas : ℕ
  pub partition : ℕ
  pub total : ℕ
  pub updated : ℕ
  pub ready : ℕ
  pub replicas_eq : s.replicas ≡ some (pos replicas)
  pub partition_eq : (s.partition ≡ some (pos partition)) ⊎ ((s.partition ≡ none) × (partition ≡ 0))
  pub total_eq : s.status_replicas ≡ pos total
  pub updated_eq : s.updated_replicas ≡ pos updated
  pub ready_eq : s.ready_replicas ≡ pos ready
  pub replicas_small : IsSmall replicas
  pub partition_small : IsSmall partition
  pub total_small : IsSmall total
  pub updated_small : IsSmall updated
  pub ready_small : IsSmall ready

-- What a rollout that is complete looks like.
pub record IsRolledOut (s : StatefulSet) (c : StatefulCounts s) : Type 0 where
  pub observed : s.generation ≡ s.observed_generation
  pub all_updated : c.replicas ≤ c.updated + c.partition
  pub all_ready : c.replicas ≤ c.ready
  pub none_left : c.total ≤ c.replicas

-- The replicas to update: all without a partition.
to_update-partition :
    (s : StatefulSet) (c : StatefulCounts s)
    → to_update (pos c.replicas) (stateful_partition s)
      ≡ sub_int32 (pos c.replicas) (pos c.partition)
unfolding stateful_partition to_update
to_update-partition s c = elim c.partition_eq [
  | inr (e, z) ↦ rw (e, z) (sym (sub_int32-zero c.replicas c.replicas_small))
  | inl e ↦ elim (Bool-cases (ltb 0 c.partition)) [
    | inl p ↦ rw (e, stateful_partition, p) refl
    | inr p ↦
        let z : c.partition ≡ 0 = ground arith in
        rw (e, stateful_partition, p, z) (sym (sub_int32-zero c.replicas c.replicas_small))
  ]
]

stateful_replicas-IsSuccess :
    (s : StatefulSet) (r : ℤ)
    → IsSuccess (stateful_replicas s r) ↔ (
        (lt_int (pos 0) (sub_int32 (to_update r (stateful_partition s)) s.updated_replicas) ≡ false)
        × (lt_int (pos 0) (sub_int32 r s.ready_replicas) ≡ false)
        × (lt_int (pos 0) (sub_int32 s.status_replicas r) ≡ false))
unfolding stateful_replicas
stateful_replicas-IsSuccess s r = ground arith

-- The three tests of the waiter, in the numbers of the set.
module _ (s : StatefulSet) (c : StatefulCounts s) where
  updated_test :
      lt_int
        (pos 0)
        (sub_int32 (to_update (pos c.replicas) (stateful_partition s)) s.updated_replicas)
      ≡ ltb (c.updated + c.partition) c.replicas
  updated_test =
      rw (to_update-partition s c, c.updated_eq)
        (sub_int32-sub_int32-ltb c.replicas c.updated c.partition c.replicas_small c.updated_small
          c.partition_small)

  ready_test : lt_int (pos 0) (sub_int32 (pos c.replicas) s.ready_replicas) ≡ ltb c.ready c.replicas
  ready_test = rw c.ready_eq (sub_int32-ltb c.replicas c.ready c.replicas_small c.ready_small)

  total_test :
      lt_int (pos 0) (sub_int32 s.status_replicas (pos c.replicas)) ≡ ltb c.replicas c.total
  total_test = rw c.total_eq (sub_int32-ltb c.total c.replicas c.total_small c.replicas_small)

  stateful_replicas-ltb : IsSuccess (stateful_replicas s (pos c.replicas)) ↔ (
      (ltb (c.updated + c.partition) c.replicas ≡ false)
      × (ltb c.ready c.replicas ≡ false)
      × (ltb c.replicas c.total ≡ false))
  stateful_replicas-ltb =
      let k = stateful_replicas-IsSuccess s (pos c.replicas) in
      (
        λ h.
            let (u, r, t) = k.0 h in (sym updated_test ∙ u, sym ready_test ∙ r, sym total_test ∙ t),
        λ (u, r, t). k.1 (updated_test ∙ u, ready_test ∙ r, total_test ∙ t),
      )

-- A stateful set whose numbers are from 0 on and below 2^30 is reported as a success exactly when its
-- generation is observed, all replicas but those of the partition are updated, all are ready, and
-- there are no more than are wanted.
pub stateful_set_done_decides :
    (s : StatefulSet) (c : StatefulCounts s) → IsSuccess (stateful_set_done s) ↔ IsRolledOut s c
unfolding stateful_set_done
stateful_set_done_decides s c = elim (Bool-cases (eq_int s.generation s.observed_generation)) [
  | inr e ↦
      rw (e, stateful_set_done)
        (λ h. cc, λ r. cc (e, (eq_int_iff s.generation s.observed_generation).1 r.observed))
  | inl e ↦
      let l = stateful_replicas-ltb s c in
      rw (e, stateful_set_done, c.replicas_eq)
        (
          λ h.
              let (u, r, t) = l.0 h in
              record {
                observed = (eq_int_iff s.generation s.observed_generation).0 e;
                all_updated = ground arith;
                all_ready = ground arith;
                none_left = ground arith;
              },
          λ o. l.1 (
            ground (arith, o.all_updated),
            ground (arith, o.all_ready),
            ground (arith, o.none_left),
          ),
        )
]
