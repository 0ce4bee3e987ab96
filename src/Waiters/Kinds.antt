-- ===== src/Waiters/Kinds.antt =====
-- core_v1_pod.go, core_v1_service.go, batch_v1_job.go, api_extensions_vx_crd.go, the two files for
-- API services, and the three files for the resources of kapp-controller: what each waiter decides.
use kapp.Prelude.{
  String, Bool, not, ◌&&◌, ◌==◌, List, [], ◌∷◌, ◌++◌ as append, Option, none, some, str_eq, eq_int,
  show_int, is_empty, if◌then◌else◌,
}
use Prim.Native.String.{◌++◌}
use kapp.Resources.Resource.{Resource}
use kapp.Waiters.State.{DoneApplyState, in_progress, failed, succeeded, all_or_waiting}
use kapp.Waiters.Status.{is_selected_true, deleting}
use kapp.Waiters.Typed.{
  Condition, Job, Pod, ContainerWaiting, Service, Reconciled, waiting_for_generation,
}

-- A reason, and the message where there is one.
with_message : String → String → String
with_message reason message =
    if is_empty message then reason else reason ++ ", message: " ++ message

unschedulable_reason : List Condition → String
unfolding with_message
unschedulable_reason [] = ""
unschedulable_reason (c ∷ cs) =
    let rest = unschedulable_reason cs in
    if str_eq c.cond_type "PodScheduled" && str_eq c.reason "Unschedulable"
    then with_message c.reason c.message
    else rest

waiting_reason : List Condition → List (Option ContainerWaiting) → String
unfolding with_message unschedulable_reason
waiting_reason conds [] = unschedulable_reason conds
waiting_reason conds (some w ∷ ws) = with_message w.reason w.message
waiting_reason conds (none ∷ ws) = waiting_reason conds ws

pending_details_reason : Pod → String
unfolding waiting_reason
pending_details_reason pod =
    waiting_reason pod.conditions (append pod.init_containers pod.containers)

detailed_msg : String → String → String
detailed_msg state msg = if is_empty msg then state else state ++ ": " ++ msg

unfoldable pub pod_done : Resource → Pod → DoneApplyState
unfolding pending_details_reason detailed_msg is_selected_true
pod_done res pod =
    if str_eq pod.phase "Pending"
    then in_progress (detailed_msg "Pending" (pending_details_reason pod))
    else if str_eq pod.phase "Running"
    then all_or_waiting (is_selected_true res ("Initialized" ∷ "Ready" ∷ "PodScheduled" ∷ []))
    else if str_eq pod.phase "Succeeded"
    then succeeded ""
    else if str_eq pod.phase "Failed"
    then failed "Phase is failed"
    else if str_eq pod.phase "Unknown"
    then failed "Phase is unknown"
    else in_progress "Undetermined phase"

-- `ClusterIPNone` is the text None, so an empty text is not it.
unfoldable pub service_done : Service → DoneApplyState
service_done svc =
    if str_eq svc.service_type "ExternalName"
    then succeeded "External service"
    else if not (str_eq svc.cluster_ip "None") && is_empty svc.cluster_ip
    then in_progress "ClusterIP is empty"
    else if str_eq svc.service_type "LoadBalancer" && svc.ingress_count == 0
    then in_progress "Load balancer ingress is empty"
    else succeeded ""

job_conditions : Job → List Condition → DoneApplyState
job_conditions job [] = in_progress (
    "Waiting to complete ("
    ++ show_int job.active
    ++ " active, "
    ++ show_int job.jobs_failed
    ++ " failed, "
    ++ show_int job.jobs_succeeded
    ++ " succeeded)")
job_conditions job (c ∷ cs) =
    let rest = job_conditions job cs in
    if str_eq c.cond_type "Complete" && str_eq c.status "True"
    then succeeded "Completed"
    else if str_eq c.cond_type "Failed" && str_eq c.status "True"
    then failed ("Failed with reason " ++ c.reason ++ ": " ++ c.message)
    else rest

unfoldable pub job_done : Job → DoneApplyState
unfolding job_conditions
job_done job = job_conditions job job.conditions

unfoldable pub crd_done : Resource → DoneApplyState
unfolding is_selected_true
crd_done res = all_or_waiting (is_selected_true res ("Established" ∷ "NamesAccepted" ∷ []))

ignoring : Bool → Bool × String → DoneApplyState
ignoring ignore_failing (all_true, msg) =
    if not all_true && ignore_failing
    then succeeded ("Ignoring (" ++ msg ++ ")")
    else all_or_waiting (all_true, msg)

unfoldable pub api_service_done : Bool → Resource → DoneApplyState
unfolding ignoring is_selected_true
api_service_done ignore_failing res =
    ignoring ignore_failing (is_selected_true res ("Available" ∷ []))

-- The message of the app, or else that of the condition.
error_msg : Reconciled → Condition → String
error_msg app c = if is_empty app.useful_error_message then c.message else app.useful_error_message

unfoldable pub reconciled_problem : Reconciled → List Condition → Option DoneApplyState
unfolding error_msg
reconciled_problem app [] = none
reconciled_problem app (c ∷ cs) =
    let rest = reconciled_problem app cs in
    if str_eq c.cond_type "Reconciling" && str_eq c.status "True"
    then some (in_progress "Reconciling")
    else if str_eq c.cond_type "ReconcileFailed" && str_eq c.status "True"
    then some (failed ("Reconcile failed: message: " ++ error_msg app c))
    else if str_eq c.cond_type "DeleteFailed" && str_eq c.status "True"
    then some (failed ("Delete failed: message: " ++ error_msg app c))
    else rest

unfoldable pub or_succeeded : Option DoneApplyState → DoneApplyState
or_succeeded none = succeeded ""
or_succeeded (some state) = state

unfoldable pub reconciled_done : Resource → Reconciled → DoneApplyState
unfolding reconciled_problem or_succeeded deleting
reconciled_done res app =
    if not (eq_int app.generation app.observed_generation)
    then waiting_for_generation app.generation
    else elim (reconciled_problem app app.conditions) [
      | some state ↦ state
      | none ↦ or_succeeded (deleting res)
    ]
