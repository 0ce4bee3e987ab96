-- ===== src/Waiters/Which.antt =====
-- The `New` functions of resourcesmisc: which resources a waiter is for. A function that returns nil
-- for the others is the test that it makes.
use kapp.Prelude.{String, Bool, ◌&&◌, ◌||◌, str_eq}
use kapp.Resources.Resource.{Resource}

-- APIVersionKindMatcher and APIGroupKindMatcher.
is_version_kind : String → String → Resource → Bool
is_version_kind version kind res = str_eq res.api_version version && str_eq res.kind kind

is_group_kind : String → String → Resource → Bool
is_group_kind group kind res = str_eq res.api_group group && str_eq res.kind kind

unfoldable pub is_apps_v1_deployment : Resource → Bool
unfolding is_version_kind
is_apps_v1_deployment = is_version_kind "apps/v1" "Deployment"

unfoldable pub is_apps_v1_replica_set : Resource → Bool
unfolding is_version_kind
is_apps_v1_replica_set = is_version_kind "apps/v1" "ReplicaSet"

unfoldable pub is_vx_replica_set : Resource → Bool
unfolding is_group_kind
is_vx_replica_set res =
    is_group_kind "extensions" "ReplicaSet" res || is_group_kind "apps" "ReplicaSet" res

unfoldable pub is_apps_v1_stateful_set : Resource → Bool
unfolding is_version_kind
is_apps_v1_stateful_set = is_version_kind "apps/v1" "StatefulSet"

unfoldable pub is_apps_v1_daemon_set : Resource → Bool
unfolding is_version_kind
is_apps_v1_daemon_set = is_version_kind "apps/v1" "DaemonSet"

unfoldable pub is_batch_v1_job : Resource → Bool
unfolding is_version_kind
is_batch_v1_job = is_version_kind "batch/v1" "Job"

unfoldable pub is_batch_vx_cron_job : Resource → Bool
unfolding is_group_kind
is_batch_vx_cron_job = is_group_kind "batch" "CronJob"

unfoldable pub is_core_v1_pod : Resource → Bool
unfolding is_version_kind
is_core_v1_pod = is_version_kind "v1" "Pod"

unfoldable pub is_core_v1_service : Resource → Bool
unfolding is_version_kind
is_core_v1_service = is_version_kind "v1" "Service"

unfoldable pub is_api_extensions_vx_crd : Resource → Bool
unfolding is_group_kind
is_api_extensions_vx_crd = is_group_kind "apiextensions.k8s.io" "CustomResourceDefinition"

unfoldable pub is_api_registration_v1_api_service : Resource → Bool
unfolding is_version_kind
is_api_registration_v1_api_service = is_version_kind "apiregistration.k8s.io/v1" "APIService"

unfoldable pub is_api_registration_v1beta1_api_service : Resource → Bool
unfolding is_version_kind
is_api_registration_v1beta1_api_service =
    is_version_kind "apiregistration.k8s.io/v1beta1" "APIService"

-- The versions of kapp-controller's resources are names of its packages.
unfoldable pub is_kappctrl_app : String → Resource → Bool
unfolding is_version_kind
is_kappctrl_app version = is_version_kind version "App"

unfoldable pub is_package_install : String → Resource → Bool
unfolding is_version_kind
is_package_install version = is_version_kind version "PackageInstall"

unfoldable pub is_package_repository : String → Resource → Bool
unfolding is_version_kind
is_package_repository version = is_version_kind version "PackageRepository"
