-- ===== src/Waiters/Typed.antt =====
-- What the waiters read of the objects of Kubernetes and of kapp-controller, after AsTypedObj, which
-- gives an error where the conversion fails. The numbers are int32, generations int64.
use kapp.Prelude.{String, ℕ, ℤ, List, Option, ◌⊎◌, inl, inr, show_int}
use Prim.Native.String.{◌++◌}
use kapp.Resources.Resource.{Resource}
use kapp.Waiters.State.{DoneApplyState, failed, in_progress}

pub record Condition : Type 0 where
  pub cond_type : String
  pub status : String
  pub reason : String
  pub message : String

pub record Deployment : Type 0 where
  pub generation : ℤ
  pub observed_generation : ℤ
  pub annotations : List (String × String)
  pub conditions : List Condition
  pub replicas : Option ℤ
  pub unavailable_replicas : ℤ
  pub ready_replicas : ℤ

pub record ReplicaSet : Type 0 where
  pub generation : ℤ
  pub observed_generation : ℤ
  pub status_replicas : ℤ
  pub available_replicas : ℤ

-- `partition` is the pointer behind the pointer `RollingUpdate`.
pub record StatefulSet : Type 0 where
  pub generation : ℤ
  pub observed_generation : ℤ
  pub replicas : Option ℤ
  pub partition : Option ℤ
  pub status_replicas : ℤ
  pub updated_replicas : ℤ
  pub ready_replicas : ℤ

pub record DaemonSet : Type 0 where
  pub generation : ℤ
  pub observed_generation : ℤ
  pub desired_number_scheduled : ℤ
  pub updated_number_scheduled : ℤ
  pub number_unavailable : ℤ

pub record Job : Type 0 where
  pub conditions : List Condition
  pub active : ℤ
  pub jobs_failed : ℤ
  pub jobs_succeeded : ℤ

pub record ContainerWaiting : Type 0 where
  pub reason : String
  pub message : String

-- The statuses of containers are the pointers State.Waiting.
pub record Pod : Type 0 where
  pub phase : String
  pub init_containers : List (Option ContainerWaiting)
  pub containers : List (Option ContainerWaiting)
  pub conditions : List Condition

pub record Service : Type 0 where
  pub service_type : String
  pub cluster_ip : String
  pub ingress_count : ℕ

-- App, PackageInstall and PackageRepository.
pub record Reconciled : Type 0 where
  pub generation : ℤ
  pub observed_generation : ℤ
  pub conditions : List Condition
  pub useful_error_message : String

pub record TypedObjs : Type 0 where
  pub deployment : Resource → String ⊎ Deployment
  pub replica_set : Resource → String ⊎ ReplicaSet
  pub unchecked_replica_set : Resource → String ⊎ ReplicaSet
  pub stateful_set : Resource → String ⊎ StatefulSet
  pub daemon_set : Resource → String ⊎ DaemonSet
  pub job : Resource → String ⊎ Job
  pub pod : Resource → String ⊎ Pod
  pub service : Resource → String ⊎ Service
  pub app : Resource → String ⊎ Reconciled
  pub package_install : Resource → String ⊎ Reconciled
  pub package_repository : Resource → String ⊎ Reconciled

-- The case of an error is that of a failed conversion in each waiter.
abbrev pub converted : {A : Type 0} → String ⊎ A → (A → DoneApplyState) → DoneApplyState
converted (inl e) f = failed ("Error: Failed obj conversion: " ++ e)
converted (inr obj) f = f obj

abbrev pub waiting_for_generation : ℤ → DoneApplyState
waiting_for_generation g =
    in_progress ("Waiting for generation " ++ show_int g ++ " to be observed")
