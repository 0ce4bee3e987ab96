-- ===== src/ClusterApply/DeleteWait.antt =====
-- delete_change.go: IsDoneApplying. `prefix` is uiWaitMsgPrefix.
use kapp.Prelude.{String, true, false, List, [], ◌∷◌, Option, none, some, if◌then◌else◌, str_eq}
use Prim.Native.String.{◌++◌}
use kapp.Resources.Resource.{Resource}
use kapp.Waiters.State.{DoneApplyState, succeeded, in_progress}
use kapp.Waiters.Status.{deleting_state}
use kapp.ClusterApply.Calls.{ApiError, Cluster, Run, ◌>>=◌, return, exists, ExistsReply}
use kapp.ClusterApply.Strategies.{is_inoperable_resource, annotation_or, delete_strategy_ann_key}

-- The three results.
pub record WaitReply : Type 0 where
  pub state : DoneApplyState
  pub desc_msgs : List String
  pub error : Option ApiError

abbrev pub orphaned_reply : WaitReply
orphaned_reply = record { state = succeeded "Resource orphaned"; desc_msgs = []; error = none }

-- The state of a resource that is still there.
abbrev still_there : DoneApplyState
still_there = record { done = false; successful = true; message = ""; unblock_changes = false }

-- descMessage
desc_message : String → Resource → List String
unfolding deleting_state
desc_message prefix res =
    if res.is_deleting then (prefix ++ (deleting_state res.finalizers).message) ∷ [] else []

exists_reply : String → ExistsReply → WaitReply
unfolding desc_message
exists_reply prefix reply = elim reply.error [
  | some e ↦ record { state = in_progress ""; desc_msgs = []; error = some e }
  | none ↦
      if reply.exists
      then record { state = still_there; desc_msgs = desc_message prefix reply.found; error = none }
      else record { state = succeeded ""; desc_msgs = []; error = none }
]

unfoldable pub delete_done : String → Cluster → Resource → Run WaitReply
unfolding exists_reply is_inoperable_resource
delete_done prefix cluster res =
    if is_inoperable_resource res
    then return orphaned_reply
    else if str_eq (annotation_or "" delete_strategy_ann_key res) "orphan"
    then return orphaned_reply
    else (exists cluster true res >>= λ reply. return (exists_reply prefix reply))
