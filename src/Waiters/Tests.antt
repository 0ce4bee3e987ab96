-- ===== src/Waiters/Tests.antt =====
-- The theorems about waiting applied to concrete resources.
use kapp.Prelude.{
  String, ℕ, pos, true, false, [], ◌∷◌, none, some, ◌⊎◌, inl, inr, ◌≡◌, refl, ◌≤◌, ◌↔◌, arith, ok,
}
use kapp.Resources.Json.{end}
use kapp.Resources.Resource.{Resource}
use kapp.Config.Matchers.{nil}
use kapp.Waiters.State.{DoneApplyState, in_progress, IsSuccess}
use kapp.Waiters.Typed.{Deployment, StatefulSet, ReplicaSet}
use kapp.Waiters.Workloads.{
  required_available, deployment_done, stateful_set_done, min_available_ann,
}
use kapp.Waiters.Rollout.{StatefulCounts, IsRolledOut, stateful_set_done_decides}
use kapp.Waiters.Deployed.{IsDeployed, required_available_bounds, deployment_done_decides}
use kapp.Waiters.Custom.{
  CustomEnv, CustomObj, CustomCondition, ConditionMatcher, WaitRule, Timeouts, expiry_time,
  by_conditions, matches_condition, is_stale,
}
use kapp.Waiters.Fresh.{by_conditions_decides, has_success, is_held_up}
use kapp.Waiters.Shadowed.{by_conditions-shadowed}

abbrev pub deployment_res : Resource
deployment_res = record {
  kind = "Deployment";
  api_version = "apps/v1";
  api_group = "apps";
  namespace = "default";
  name = "web";
  description = "deployment/web (apps/v1) namespace: default";
  annotations = [];
  labels = [];
  finalizers = [];
  is_deleting = false;
  uid = "1";
  transient = false;
  origin = "";
  object = end;
}

abbrev web : Deployment
web = record {
  generation = pos 2;
  observed_generation = pos 2;
  annotations = [];
  conditions =
      record {
        cond_type = "Progressing";
        status = "True";
        reason = "NewReplicaSetAvailable";
        message = "";
      }
      ∷ [];
  replicas = some (pos 3);
  unavailable_replicas = pos 0;
  ready_replicas = pos 3;
}

abbrev no_replica_set : Resource → String ⊎ ReplicaSet
no_replica_set res = inl "no replica set"

deployment_done_decides_example :
    IsSuccess (deployment_done no_replica_set deployment_res [] web) ↔ IsDeployed web
unfolding min_available_ann
deployment_done_decides_example = deployment_done_decides no_replica_set deployment_res [] web refl

-- Ten percent of three replicas is none, and is raised to one.
required_available_bounds_example :
    (m : ℕ) × (required_available (pos 3) true (pos 10) ≡ pos m) × (1 ≤ m) × (m ≤ 3)
required_available_bounds_example = required_available_bounds 3 true (pos 10) (omega arith)

-- Three replicas, the last of which is to be updated and is.
abbrev db : StatefulSet
db = record {
  generation = pos 1;
  observed_generation = pos 1;
  replicas = some (pos 3);
  partition = some (pos 2);
  status_replicas = pos 3;
  updated_replicas = pos 1;
  ready_replicas = pos 3;
}

abbrev db_counts : StatefulCounts db
db_counts = record {
  replicas = 3;
  partition = 2;
  total = 3;
  updated = 1;
  ready = 3;
  replicas_eq = refl;
  partition_eq = inl refl;
  total_eq = refl;
  updated_eq = refl;
  ready_eq = refl;
  replicas_small = omega arith;
  partition_small = omega arith;
  total_small = omega arith;
  updated_small = omega arith;
  ready_small = omega arith;
}

stateful_set_done_decides_example : IsSuccess (stateful_set_done db) ↔ IsRolledOut db db_counts
stateful_set_done_decides_example = stateful_set_done_decides db db_counts

-- A rule with two failures that have a timeout, of which the second is present.
abbrev timed : String → ConditionMatcher
timed cond_type = record {
  cond_type = cond_type;
  status = "True";
  failure = false;
  success = false;
  supports_observed_generation = false;
  unblock_changes = false;
  timeout = "10s";
}

abbrev timed_rule : WaitRule
timed_rule = record {
  supports_observed_generation = false;
  condition_matchers = timed "Stalled" ∷ timed "Failing" ∷ [];
  resource_matchers = nil;
  ytt = none;
}

abbrev pub failing : CustomCondition
failing = record {
  cond_type = "Failing";
  status = "True";
  reason = "Crash";
  message = "exit 1";
  observed_generation = pos 0;
}

abbrev pub failing_obj : CustomObj
failing_obj = record { generation = pos 1; observed_generation = pos 1; conditions = failing ∷ [] }

-- A clock that stands long after the timer in the map.
abbrev pub late : CustomEnv
late = record {
  now = 5000000000000;
  parse_duration = λ s. some (pos 10000000000);
  eval_ytt = λ s start now res. inl "no ytt";
  custom_obj = λ res. inr failing_obj;
}

abbrev old_timer : Timeouts
old_timer = (deployment_res.description, expiry_time (pos 1000)) ∷ []

by_conditions-shadowed_example :
    (end : DoneApplyState × Timeouts) × (by_conditions {E = String} late deployment_res timed_rule
        failing_obj old_timer
      ≡ ok end)
    × (end.0.done ≡ false)
unfolding matches_condition is_stale
by_conditions-shadowed_example =
    by_conditions-shadowed late deployment_res timed_rule failing_obj (timed "Stalled")
      (timed "Failing") [] failing old_timer refl refl refl refl refl refl refl

-- A rule with a success that is present.
abbrev ready_rule : WaitRule
ready_rule = record timed_rule {
  condition_matchers = record (timed "Failing") { success = true; timeout = "" } ∷ [];
}

abbrev ready_state : DoneApplyState
ready_state =
    record (in_progress
      "Encountered successful condition Failing == True: Crash (message: exit 1)") {
        done = true;
        successful = true;
      }

ready_run :
    by_conditions {E = String} late deployment_res ready_rule failing_obj [] ≡ ok (ready_state, [])
unfolding by_conditions
ready_run = refl

by_conditions_decides_example : IsSuccess ready_state ↔ (
    (is_held_up ready_rule.condition_matchers (pos 1) (failing ∷ []) ≡ false)
    × (has_success ready_rule.condition_matchers (pos 1) (failing ∷ []) ≡ true))
by_conditions_decides_example =
    by_conditions_decides {E = String} late deployment_res ready_rule failing_obj []
      (ready_state, []) ready_run
