-- ===== src/ClusterApply/Factories.antt =====
-- converged_resource_factory.go: the waiters in the order in which they are tried, with the `New`
-- function of each, which tests the kind of the resource. The group and version of kapp-controller's
-- resources are names of its packages.
use kapp.Prelude.{
  String, Bool, List, [], ◌∷◌, ◌++◌, Option, none, some, ◌⊎◌, if◌then◌else◌, ok, ◌>>=◌,
}
use kapp.Resources.Resource.{Resource}
use kapp.Waiters.State.{DoneApplyState, succeeded}
use kapp.Waiters.Status.{deleting}
use kapp.Waiters.Typed.{TypedObjs, converted}
use kapp.Waiters.Workloads.{deployment_done, stateful_set_done, daemon_set_done}
use kapp.Waiters.Kinds.{
  pod_done, service_done, job_done, crd_done, api_service_done, reconciled_done,
}
use kapp.Waiters.Custom.{CustomEnv, WaitRule, custom_done, rule_for}
use kapp.ClusterApply.Converged.{
  ResourceRef, SpecificResource, SpecificResFactory, ConvergedResource,
}
use kapp.Waiters.Which.{
  is_api_extensions_vx_crd, is_kappctrl_app, is_package_install, is_api_registration_v1_api_service,
  is_api_registration_v1beta1_api_service, is_package_repository, is_core_v1_pod,
  is_core_v1_service, is_apps_v1_deployment, is_apps_v1_daemon_set, is_batch_v1_job,
  is_batch_vx_cron_job, is_apps_v1_stateful_set,
}

pub record ConvergedResourceFactory : Type 0 where
  pub wait_rules : List WaitRule
  pub ignore_failing_api_services : Bool

-- What comes from outside: the conversions, the clock and the ytt rules, and two names.
pub record WaitingEnv : Type 0 where
  pub custom : CustomEnv
  pub typed : TypedObjs
  pub app_version : String
  pub package_version : String

abbrev ref : String → String → ResourceRef
ref group resource = record { group = group; resource = resource }

module _ {E : Type 0} where
  abbrev stateless : DoneApplyState → SpecificResource E
  stateless state timers = ok (state, timers)

  -- A waiter for the resources that pass a test.
  unfoldable pub simple :
      List ResourceRef
      → (Resource → Bool)
      → (Resource → List Resource → DoneApplyState)
      → SpecificResFactory E
  simple refs test waiter = record {
    make = λ res rs. ok (if test res then some (stateless (waiter res rs)) else none);
    refs = refs;
  }

  unfoldable pub custom_factory : CustomEnv → List WaitRule → SpecificResFactory E
  unfolding rule_for custom_done
  custom_factory env rules = record {
    make = λ res rs. rule_for res rules >>= λ found. elim found [
      | none ↦ ok none
      | some rule ↦ ok (some (custom_done env res rule))
    ];
    refs = [];
  }

  unfoldable pub of_deleting : Option DoneApplyState → Option (SpecificResource E)
  of_deleting none = none
  of_deleting (some state) = some (stateless state)

  unfoldable pub deleting_factory : SpecificResFactory E
  unfolding of_deleting deleting
  deleting_factory = record { make = λ res rs. ok (of_deleting (deleting res)); refs = [] }

module _ {E : Type 0} (env : WaitingEnv) where
  -- The three waiters of kapp-controller, which deal with deletion themselves.
  unfoldable pub reconciled_factories : List (SpecificResFactory E)
  unfolding simple is_kappctrl_app is_package_install is_package_repository reconciled_done
  reconciled_factories =
      simple [] (is_kappctrl_app env.app_version)
        (λ res rs. converted (env.typed.app res) (reconciled_done res))
      ∷ simple [] (is_package_install env.package_version)
          (λ res rs. converted (env.typed.package_install res) (reconciled_done res))
      ∷ simple [] (is_package_repository env.package_version)
          (λ res rs. converted (env.typed.package_repository res) (reconciled_done res))
      ∷ []

  -- The waiters after the one for deletion.
  kind_factories : Bool → List (SpecificResFactory E)
  unfolding simple is_api_extensions_vx_crd is_api_registration_v1_api_service
      is_api_registration_v1beta1_api_service is_core_v1_pod is_core_v1_service
      is_apps_v1_deployment is_apps_v1_daemon_set is_batch_v1_job is_batch_vx_cron_job
      is_apps_v1_stateful_set crd_done api_service_done pod_done service_done deployment_done
      daemon_set_done job_done stateful_set_done
  kind_factories ignore_failing =
      simple [] is_api_extensions_vx_crd (λ res rs. crd_done res)
      ∷ simple [] is_api_registration_v1_api_service (λ res rs. api_service_done ignore_failing res)
      ∷ simple [] is_api_registration_v1beta1_api_service
          (λ res rs. api_service_done ignore_failing res)
      ∷ simple [] is_core_v1_pod (λ res rs. converted (env.typed.pod res) (pod_done res))
      ∷ simple [] is_core_v1_service (λ res rs. converted (env.typed.service res) service_done)
      ∷ simple (ref "apps" "replicasets" ∷ ref "" "pods" ∷ []) is_apps_v1_deployment (λ res rs.
        converted (env.typed.deployment res)
          (deployment_done env.typed.unchecked_replica_set res rs))
      ∷ simple (ref "apps" "replicasets" ∷ ref "" "pods" ∷ []) is_apps_v1_daemon_set
          (λ res rs. converted (env.typed.daemon_set res) daemon_set_done)
      ∷ simple (ref "batch" "jobs" ∷ ref "" "pods" ∷ []) is_batch_v1_job
          (λ res rs. converted (env.typed.job res) job_done)
      ∷ simple [] is_batch_vx_cron_job (λ res rs. succeeded "")
      ∷ simple (ref "" "persistentvolumeclaims" ∷ ref "" "pods" ∷ []) is_apps_v1_stateful_set
          (λ res rs. converted (env.typed.stateful_set res) stateful_set_done)
      ∷ []

  unfoldable pub specific_res_factories : ConvergedResourceFactory → List (SpecificResFactory E)
  unfolding custom_factory reconciled_factories deleting_factory kind_factories
  specific_res_factories f =
      custom_factory env.custom f.wait_rules ∷ reconciled_factories
      ++ deleting_factory ∷ kind_factories f.ignore_failing_api_services

  -- ConvergedResourceFactory.New
  unfoldable pub new_converged_resource :
      ConvergedResourceFactory
      → Resource
      → Option (Resource → List ResourceRef → String ⊎ List Resource)
      → ConvergedResource E
  unfolding specific_res_factories
  new_converged_resource f res func = record {
    res = res;
    associated_rs_func = func;
    factories = specific_res_factories f;
  }
