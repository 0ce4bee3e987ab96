-- ===== src/ClusterApply/Ops.antt =====
-- cluster_change.go: what is applied and what is waited for. The difference that a change is made
-- of is a record of what its methods return; whether the resource that it keeps has converged is
-- what `ConvergedResource.IsDoneApplying` returned for it. With it the wrapper of
-- cluster_change_set.go.
use kapp.Prelude.{
  ◌⊎◌, inl, inr, String, Bool, true, false, not, ◌&&◌, none, some, lookup, if◌then◌else◌, Result,
  ok, err, panic, out_of_fuel,
}
use kapp.Resources.Resource.{Resource}
use kapp.Waiters.State.{DoneApplyState}
use kapp.DiffGraph.Change.{ActualChangeOp, upsert, delete, noop, op_panics}
use kapp.DiffGraph.Errors.{Error}

-- The operation of a difference; the source keeps its name.
pub data DiffOp : Type 0 where
  change_add change_delete change_update change_keep change_exists change_noop : DiffOp
  change_unknown : String → DiffOp

pub record DiffChange : Type 0 where
  pub op : DiffOp
  pub is_ignored : Bool
  pub new_or_existing_resource : Resource
  pub original_state : String ⊎ DoneApplyState

pub data ApplyOp : Type 0 where
  apply_add apply_delete apply_update apply_noop apply_exists : ApplyOp

pub data WaitOp : Type 0 where
  wait_ok wait_delete wait_noop : WaitOp

pub record ClusterChangeOpts : Type 0 where
  pub apply_ignored : Bool
  pub wait : Bool
  pub wait_ignored : Bool

pub record ClusterChange : Type 0 where
  pub change : DiffChange
  pub opts : ClusterChangeOpts
  pub marked_needs_waiting : Bool

unfoldable pub apply_op_of : {E : Type 0} → DiffOp → Result E ApplyOp
apply_op_of change_add = ok apply_add
apply_op_of change_delete = ok apply_delete
apply_op_of change_update = ok apply_update
apply_op_of change_keep = ok apply_noop
apply_op_of change_exists = ok apply_exists
apply_op_of change_noop = ok apply_noop
apply_op_of (change_unknown op) = panic "Unknown change apply op"

-- ApplyOp
unfoldable pub apply_op : {E : Type 0} → ClusterChange → Result E ApplyOp
unfolding apply_op_of
apply_op c =
    if not c.opts.apply_ignored && c.change.is_ignored
    then ok apply_noop
    else apply_op_of c.change.op

abbrev pub disable_wait_ann_key : String
disable_wait_ann_key = "kapp.k14s.io/disable-wait"

-- The case of a change that keeps its resource: waited for when marked, or not converged yet.
unfoldable pub wait_for_kept : {E : Type 0} → Bool → String ⊎ DoneApplyState → Result E WaitOp
wait_for_kept true state = ok wait_ok
wait_for_kept false (inr state) = ok (if state.done && state.successful then wait_noop else wait_ok)
wait_for_kept false (inl e) = ok wait_ok

unfoldable pub wait_op_of : {E : Type 0} → Bool → DiffChange → DiffOp → Result E WaitOp
unfolding wait_for_kept
wait_op_of marked change change_add = ok wait_ok
wait_op_of marked change change_update = ok wait_ok
wait_op_of marked change change_delete = ok wait_delete
wait_op_of marked change change_keep = wait_for_kept marked change.original_state
wait_op_of marked change change_exists = ok wait_ok
wait_op_of marked change change_noop = ok wait_noop
wait_op_of marked change (change_unknown op) = panic "Unknown change wait op"

unfoldable pub has_annotation : String → Resource → Bool
has_annotation key res = elim (lookup key res.annotations) [ none ↦ false | some _ ↦ true ]

-- WaitOp
unfoldable pub wait_op : {E : Type 0} → ClusterChange → Result E WaitOp
unfolding wait_op_of has_annotation
wait_op c =
    if not c.opts.wait
    then ok wait_noop
    else if not c.opts.wait_ignored && c.change.is_ignored
    then ok wait_noop
    else if has_annotation disable_wait_ann_key c.change.new_or_existing_resource
    then ok wait_noop
    else wait_op_of c.marked_needs_waiting c.change c.change.op

unfoldable pub mark_needs_waiting : ClusterChange → ClusterChange
mark_needs_waiting c = record c { marked_needs_waiting = true }

-- wrappedClusterChange.Op
unfoldable pub actual_op : ApplyOp → ActualChangeOp
actual_op apply_add = upsert
actual_op apply_update = upsert
actual_op apply_delete = delete
actual_op apply_noop = noop
actual_op apply_exists = upsert

-- What the call gives with what ApplyOp did, which returns or panics.
unfoldable pub op_after : Result Error ApplyOp → ActualChangeOp
unfolding actual_op
op_after (ok op) = actual_op op
op_after (panic msg) = op_panics msg
op_after (err e) = op_panics ""
op_after out_of_fuel = op_panics ""

unfoldable pub wrapped_op : ClusterChange → ActualChangeOp
unfolding op_after apply_op
wrapped_op c = op_after (apply_op c)
