-- ===== src/Waiters/Deployed.antt =====
-- About apps_v1_deployment.go: what its success means, and the number that its annotation asks for.
use kapp.Prelude.{
  String, ℕ, ℤ, pos, negsuc, zero, suc, Bool, true, false, not, ◌&&◌, List, [], ◌∷◌, none, some,
  ◌≡◌, refl, ◌≤◌, ◌<◌, ◌↔◌, Bool-cases, Option-cases, inl, inr, arith, lt_int, eq_int, All,
  eq_int_iff, str_eq, div_100, mul_int64, if◌then◌else◌, ltb, str_eq_iff, ◌⊎◌, some-injective, sym,
  ◌∙◌,
}
use kapp.Resources.Resource.{Resource}
use kapp.Waiters.State.{DoneApplyState}
use kapp.Waiters.Typed.{Condition, Deployment, ReplicaSet}
use kapp.Waiters.State.{IsSuccess}
use kapp.Waiters.Workloads.{
  required_available, deployment_problem, all_replicas_ready, min_available_ann, deployment_done,
}

clamped :
    (total : ℕ) (w : ℤ)
    → 0 < total
    → (m : ℕ) × ((if lt_int (pos 0) (pos total)
            && not (lt_int (pos 0) (if lt_int (pos total) w then pos total else w))
          then pos 1
          else (if lt_int (pos total) w then pos total else w))
        ≡ pos m)
      × (1 ≤ m)
      × (m ≤ total)
clamped total (negsuc n) h = (1, ground arith, omega arith, omega arith)
clamped total (pos zero) h = (1, ground arith, omega arith, omega arith)
clamped total (pos (suc n)) h = elim (Bool-cases (ltb total (suc n))) [
  | inl e ↦ (total, ground arith, omega arith, omega arith)
  | inr e ↦ (suc n, ground arith, omega arith, ground arith)
]

-- Where a deployment wants replicas, the annotation asks for one at least and for no more than there
-- are to be, whatever number it holds, also a negative one, and as a share or not.
pub required_available_bounds :
    (total : ℕ) (is_percent : Bool) (n : ℤ)
    → 0 < total
    → (m : ℕ) × (required_available (pos total) is_percent n ≡ pos m) × (1 ≤ m) × (m ≤ total)
unfolding required_available
required_available_bounds total true n h = clamped total (div_100 (mul_int64 (pos total) n)) h
required_available_bounds total false n h = clamped total n h

-- A condition that holds a rollout up.
abbrev pub IsHarmless : Condition → Type 0
IsHarmless c =
    ((str_eq c.cond_type "Progressing" && str_eq c.status "False") ≡ false)
    × ((str_eq c.cond_type "ReplicaFailure" && str_eq c.status "True") ≡ false)

pub record IsDeployed (dep : Deployment) : Type 0 where
  pub observed : dep.generation ≡ dep.observed_generation
  pub harmless : All IsHarmless dep.conditions
  pub none_unavailable : lt_int (pos 0) dep.unavailable_replicas ≡ false
  pub all_ready : (r : ℤ) → dep.replicas ≡ some r → lt_int dep.ready_replicas r ≡ false

deployment_problem-unsuccessful :
    (cs : List Condition) (s : DoneApplyState) → deployment_problem cs ≡ some s → IsSuccess s → ⊥
unfolding deployment_problem
deployment_problem-unsuccessful [] s h g = cc
deployment_problem-unsuccessful (c ∷ cs) s h g =
    ground (arith, deployment_problem-unsuccessful cs s)

-- One condition is of one type only.
one_type :
    (c : Condition)
    → str_eq c.cond_type "Progressing" ≡ true
    → str_eq c.cond_type "ReplicaFailure" ≡ false
one_type c h = rw ((str_eq_iff c.cond_type "Progressing").0 h) refl

deployment_problem-IsHarmless :
    (cs : List Condition) → deployment_problem cs ≡ none → All IsHarmless cs
unfolding deployment_problem
deployment_problem-IsHarmless [] h = tt
deployment_problem-IsHarmless (c ∷ cs) h = (
  (ground (arith, one_type c), ground (arith, one_type c)),
  deployment_problem-IsHarmless cs (ground arith),
)

deployment_problem-none : (cs : List Condition) → All IsHarmless cs → deployment_problem cs ≡ none
unfolding deployment_problem
deployment_problem-none [] h = refl
deployment_problem-none (c ∷ cs) ((p, q), ks) =
    let rest = deployment_problem-none cs ks in ground (arith, rest)

all_replicas_ready-IsSuccess :
    (dep : Deployment)
    → IsSuccess (all_replicas_ready dep) ↔ (
        (lt_int (pos 0) dep.unavailable_replicas ≡ false)
        × ((r : ℤ) → dep.replicas ≡ some r → lt_int dep.ready_replicas r ≡ false))
unfolding all_replicas_ready
all_replicas_ready-IsSuccess dep = elim (Option-cases dep.replicas) [
  | inl n ↦ (λ h. (ground arith, λ r e. cc), λ (p, q). ground arith)
  | inr (r, e) ↦ (
    λ h. (
      ground arith,
      λ r' e'.
          let same : r ≡ r' = some-injective (sym e ∙ e') in
          let ready : lt_int dep.ready_replicas r ≡ false = ground arith in rw (← same) ready,
    ),
    λ (p, q). let ready = q r e in ground arith,
  )
]

-- A deployment for which the annotation is not read is reported as a success exactly when its
-- generation is observed, no condition says that it does not progress or that a replica failed, no
-- replica is unavailable, and as many are ready as are wanted, where it says how many.
pub deployment_done_decides :
    (as_replica_set : Resource → String ⊎ ReplicaSet) (res : Resource) (rs : List Resource)
    (dep : Deployment)
    → min_available_ann res rs ≡ none
    → IsSuccess (deployment_done as_replica_set res rs dep) ↔ IsDeployed dep
unfolding deployment_done
deployment_done_decides as_replica_set res rs dep a =
    let ready = all_replicas_ready-IsSuccess dep in
    let problem = Option-cases (deployment_problem dep.conditions) in
    (
      λ h. elim (Bool-cases (eq_int dep.generation dep.observed_generation)) [
        | inr e ↦ absurd (ground arith)
        | inl e ↦ elim problem [
          | inr (s, p) ↦ absurd (deployment_problem-unsuccessful dep.conditions s p (ground arith))
          | inl p ↦
              let g : IsSuccess (all_replicas_ready dep) = ground arith in
              record {
                observed = (eq_int_iff dep.generation dep.observed_generation).0 e;
                harmless = deployment_problem-IsHarmless dep.conditions p;
                none_unavailable = (ready.0 g).0;
                all_ready = (ready.0 g).1;
              }
        ]
      ],
      λ d.
          let e = (eq_int_iff dep.generation dep.observed_generation).1 d.observed in
          let p = deployment_problem-none dep.conditions d.harmless in
          let g = ready.1 (d.none_unavailable, d.all_ready) in ground arith,
    )
