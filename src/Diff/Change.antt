-- ===== src/Diff/Change.antt =====
-- change.go. `NewChange` panics where both resources are nil, so a change has one of them or both.
-- `has_changes` is what the textual difference of two resources says: `HasChanges` of
-- `ConfigurableTextDiff().Full()`. The memory of the operation is left out, since its parts never
-- change.
use kapp.Prelude.{String, Bool, false, Option, none, some, if◌then◌else◌, Result, ok, panic}
use kapp.Resources.Resource.{Resource}
use kapp.ClusterApply.Ops.{
  DiffOp, change_add, change_delete, change_update, change_keep, change_exists, change_noop,
  has_annotation,
}

pub data ChangeImpl : Type 0 where
  only_new : Resource → ChangeImpl
  only_existing : Resource → ChangeImpl
  both : Resource → Resource → ChangeImpl

-- NewChange, of an existing and a new resource.
unfoldable pub new_change : {E : Type 0} → Option Resource → Option Resource → Result E ChangeImpl
new_change none none = panic "Expected either existingRes or newRes be non-nil"
new_change none (some new) = ok (only_new new)
new_change (some existing) none = ok (only_existing existing)
new_change (some existing) (some new) = ok (both existing new)

unfoldable pub existing_resource : ChangeImpl → Option Resource
existing_resource (only_new new) = none
existing_resource (only_existing existing) = some existing
existing_resource (both existing new) = some existing

unfoldable pub new_or_existing_resource : ChangeImpl → Resource
new_or_existing_resource (only_new new) = new
new_or_existing_resource (only_existing existing) = existing
new_or_existing_resource (both existing new) = new

abbrev pub noop_ann_key : String
noop_ann_key = "kapp.k14s.io/noop"

abbrev pub exists_ann_key : String
exists_ann_key = "kapp.k14s.io/exists"

-- op
unfoldable pub change_op : (Resource → Resource → Bool) → ChangeImpl → DiffOp
unfolding has_annotation
change_op has_changes (only_new new) =
    if has_annotation noop_ann_key new
    then change_noop
    else if has_annotation exists_ann_key new
    then change_exists
    else change_add
change_op has_changes (only_existing existing) = change_delete
change_op has_changes (both existing new) =
    if has_annotation noop_ann_key new
    then change_noop
    else if has_changes existing new
    then (if has_annotation exists_ann_key new then change_keep else change_update)
    else change_keep

-- IsIgnored
unfoldable pub is_ignored_transient : ChangeImpl → Bool
is_ignored_transient (only_existing existing) = existing.transient
is_ignored_transient _ = false
