-- ===== src/Waiters/Workloads.antt =====
-- apps_v1_deployment.go, ext_and_apps_vx_replica_set.go, apps_v1_replica_set.go,
-- apps_v1_stateful_set.go, apps_v1_daemon_set.go: what each waiter decides on the converted object.
use kapp.Prelude.{
  String, ℤ, pos, Bool, not, ◌&&◌, List, [], ◌∷◌, Option, none, some, ◌⊎◌, inl, inr, str_eq, lookup,
  lt_int, eq_int, sub_int32, sub_int64, mul_int64, div_100, show_int, has_suffix, trim_suffix, atoi,
  if◌then◌else◌,
}
use Prim.Native.String.{◌++◌}
use kapp.Resources.Resource.{Resource}
use kapp.Waiters.Which.{is_vx_replica_set}
use kapp.Waiters.State.{DoneApplyState, in_progress, failed, succeeded}
use kapp.Waiters.Typed.{
  Condition, Deployment, ReplicaSet, StatefulSet, DaemonSet, converted, waiting_for_generation,
}

abbrev pub zero_int : ℤ
zero_int = pos 0

-- The loop over the conditions: the state that it returns early.
unfoldable pub deployment_problem : List Condition → Option DoneApplyState
deployment_problem [] = none
deployment_problem (c ∷ cs) =
    let rest = deployment_problem cs in
    if str_eq c.cond_type "Progressing"
    then (if str_eq c.status "False"
        then some
            (failed ("Deployment is not progressing: " ++ c.reason ++ ", message: " ++ c.message))
        else rest)
    else if str_eq c.cond_type "ReplicaFailure"
    then (if str_eq c.status "True"
        then some (
            in_progress (
              "Deployment has encountered replica failure: " ++ c.reason ++ ", message: "
              ++ c.message))
        else rest)
    else rest

-- IsDoneApplyingWithMinimum, on the converted replica set.
unfoldable pub is_done_applying_with_minimum : ℤ → ReplicaSet → DoneApplyState
is_done_applying_with_minimum minimum rs =
    if not (eq_int rs.generation rs.observed_generation)
    then waiting_for_generation rs.generation
    else if lt_int rs.available_replicas minimum
    then in_progress (
        "Waiting for at least "
        ++ show_int (sub_int64 minimum rs.available_replicas)
        ++ " available replicas (currently "
        ++ show_int rs.available_replicas
        ++ " available)")
    else succeeded ""

-- The number of replicas that the annotation asks for: a share where the text ends with a percent
-- sign, at most the total, and at least one where there is to be any.
unfoldable pub required_available : ℤ → Bool → ℤ → ℤ
required_available total is_percent n =
    let wanted = if is_percent then div_100 (mul_int64 total n) else n in
    let capped = if lt_int total wanted then total else wanted in
    if lt_int zero_int total && not (lt_int zero_int capped) then pos 1 else capped

abbrev deployment_rev_ann_key : String
deployment_rev_ann_key = "deployment.kubernetes.io/revision"

abbrev min_available_ann_key : String
min_available_ann_key = "kapp.k14s.io/apps-v1-deployment-wait-minimum-replicas-available"

-- m[k] of Go for texts: the empty text where the key is missing.
abbrev text_at : String → List (String × String) → String
text_at k m = elim (lookup k m) [ none ↦ "" | some v ↦ v ]

replica_set_of : String → List Resource → String ⊎ Resource
unfolding is_vx_replica_set
replica_set_of rev [] =
    inl ("Expected to find replica set (rev " ++ rev ++ ") in associated resources but did not")
replica_set_of rev (res ∷ rs) =
    let rest = replica_set_of rev rs in
    if is_vx_replica_set res && str_eq (text_at deployment_rev_ann_key res.annotations) rev
    then inr res
    else rest

find_latest_replica_set : Deployment → List Resource → String ⊎ Resource
unfolding replica_set_of
find_latest_replica_set dep rs = elim (lookup deployment_rev_ann_key dep.annotations) [
  | none ↦ inl ("Expected to find '" ++ deployment_rev_ann_key ++ "' but did not")
  | some rev ↦ replica_set_of rev rs
]

-- The annotation, which is read only where there are associated resources.
unfoldable pub min_available_ann : Resource → List Resource → Option String
min_available_ann res [] = none
min_available_ann res (r ∷ rs) = lookup min_available_ann_key res.annotations

-- What decides without the annotation.
unfoldable pub all_replicas_ready : Deployment → DoneApplyState
all_replicas_ready dep =
    if lt_int zero_int dep.unavailable_replicas
    then in_progress
        ("Waiting for " ++ show_int dep.unavailable_replicas ++ " unavailable replicas")
    else elim dep.replicas [
      | none ↦ succeeded ""
      | some replicas ↦
          if lt_int dep.ready_replicas replicas
          then in_progress (
              "Waiting for "
              ++ show_int (sub_int32 replicas dep.ready_replicas)
              ++ "/"
              ++ show_int replicas
              ++ " replicas to be ready")
          else succeeded ""
    ]

module _ (as_replica_set : Resource → String ⊎ ReplicaSet) where
  -- The rest of isMinReplicasAvailable, once the replica set is found.
  min_available_in : ℤ → String ⊎ Resource → DoneApplyState
  unfolding is_done_applying_with_minimum
  min_available_in minimum (inl e) = failed ("Error: Failed to find latest replicaset: " ++ e)
  min_available_in minimum (inr res) =
      converted (as_replica_set res) (is_done_applying_with_minimum minimum)

  min_available_of : Deployment → List Resource → Bool → String ⊎ ℤ → DoneApplyState
  unfolding min_available_in find_latest_replica_set required_available
  min_available_of dep rs is_percent (inl e) =
      failed ("Error: Failed to parse " ++ min_available_ann_key ++ ": " ++ e)
  min_available_of dep rs is_percent (inr n) = elim dep.replicas [
    | none ↦ failed "Error: Failed to find spec.replicas"
    | some total ↦
        min_available_in (required_available total is_percent n) (find_latest_replica_set dep rs)
  ]

  unfoldable pub is_min_replicas_available : Deployment → List Resource → String → DoneApplyState
  unfolding min_available_of atoi
  is_min_replicas_available dep rs text =
      min_available_of dep rs (has_suffix text "%") (atoi (trim_suffix text "%"))

  unfoldable pub deployment_done : Resource → List Resource → Deployment → DoneApplyState
  unfolding deployment_problem is_min_replicas_available all_replicas_ready min_available_ann
  deployment_done res rs dep =
      if not (eq_int dep.generation dep.observed_generation)
      then waiting_for_generation dep.generation
      else elim (deployment_problem dep.conditions) [
        | some state ↦ state
        | none ↦ elim (min_available_ann res rs) [
          | some text ↦ is_min_replicas_available dep rs text
          | none ↦ all_replicas_ready dep
        ]
      ]

unfoldable pub replica_set_done : ReplicaSet → DoneApplyState
replica_set_done rs =
    if not (eq_int rs.generation rs.observed_generation)
    then waiting_for_generation rs.generation
    else if not (eq_int rs.status_replicas rs.available_replicas)
    then in_progress (
        "Waiting for "
        ++ show_int (sub_int32 rs.status_replicas rs.available_replicas)
        ++ " unavailable replicas")
    else succeeded ""

unfoldable pub daemon_set_done : DaemonSet → DoneApplyState
daemon_set_done d =
    let not_ready = sub_int32 d.desired_number_scheduled d.updated_number_scheduled in
    if not (eq_int d.generation d.observed_generation)
    then waiting_for_generation d.generation
    else if lt_int zero_int not_ready
    then in_progress ("Waiting for " ++ show_int not_ready ++ " updated pods to be scheduled")
    else if lt_int zero_int d.number_unavailable
    then in_progress ("Waiting for " ++ show_int d.number_unavailable ++ " unavailable pods")
    else succeeded ""

-- AppsV1StatefulSet.partition, with the value that it tests.
unfoldable pub stateful_partition : StatefulSet → Option ℤ
stateful_partition s = elim s.partition [
  | none ↦ none
  | some p ↦ if lt_int zero_int p then some p else none
]

unfoldable pub to_update : ℤ → Option ℤ → ℤ
to_update replicas none = replicas
to_update replicas (some p) = sub_int32 replicas p

clarification : ℤ → ℤ → Option ℤ → String
clarification wanted replicas none = ""
clarification wanted replicas (some p) =
    " (updating only " ++ show_int wanted ++ " of " ++ show_int replicas ++ " total)"

unfoldable pub stateful_replicas : StatefulSet → ℤ → DoneApplyState
unfolding clarification
stateful_replicas s replicas =
    let wanted = to_update replicas (stateful_partition s) in
    let not_updated = sub_int32 wanted s.updated_replicas in
    let not_ready = sub_int32 replicas s.ready_replicas in
    let not_deleted = sub_int32 s.status_replicas replicas in
    if lt_int zero_int not_updated
    then in_progress (
        "Waiting for "
        ++ show_int not_updated
        ++ " replicas to be updated"
        ++ clarification wanted replicas (stateful_partition s))
    else if lt_int zero_int not_ready
    then in_progress ("Waiting for " ++ show_int not_ready ++ " replicas to be ready")
    else if lt_int zero_int not_deleted
    then in_progress ("Waiting for " ++ show_int not_deleted ++ " replicas to be deleted")
    else succeeded ""

unfoldable pub stateful_set_done : StatefulSet → DoneApplyState
unfolding stateful_replicas
stateful_set_done s =
    if not (eq_int s.generation s.observed_generation)
    then waiting_for_generation s.generation
    else elim s.replicas [
      | none ↦ failed "Error: Failed to find spec.replicas"
      | some replicas ↦ stateful_replicas s replicas
    ]
