-- ===== src/ClusterApply/StrategyTests.antt =====
-- The theorems about strategies applied to a concrete cluster, which refuses the first update.
use kapp.Prelude.{true, false, List, [], ◌∷◌, none, inl, inr, ok, ◌≡◌, refl, Holds, ◌⊎◌}
use kapp.Resources.Resource.{Resource}
use kapp.Resources.Json.{end}
use kapp.ClusterApply.Ops.{
  change_noop, ClusterChange, DiffChange, change_update, change_delete, apply_op,
}
use kapp.ClusterApply.Calls.{
  ApiError, Diff, Cluster, Differ, Call, create_call, update_call, get_call, delete_call,
  orphan_call, exists_call, ExistsReply,
}
use kapp.ClusterApply.Strategies.{
  add_or_fallback_on_update_or_noop, Strategy, update_plain, update_or_fallback_on_replace,
  is_inoperable_resource,
}
use kapp.ClusterApply.Runs.{run_strategy}
use kapp.ClusterApply.Made.{Made}
use kapp.ClusterApply.Deletions.{Deletion, run_strategy-deletions}
use kapp.ClusterApply.Updates.{Update, run_strategy-updates}
use kapp.ClusterApply.Done.{IsDone, run_strategy-IsDone, IsDone}
use kapp.ClusterApply.Ended.{run_strategy-ends}
use kapp.ClusterApply.Apply.{Texts, apply}
use kapp.ClusterApply.DeleteWait.{delete_done, orphaned_reply}
use kapp.ClusterApply.Orphaned.{apply-orphaned}

abbrev config_map : Resource
config_map = record {
  kind = "ConfigMap";
  api_version = "v1";
  api_group = "";
  namespace = "default";
  name = "settings";
  description = "configmap/settings (v1) namespace: default";
  annotations = [];
  labels = [];
  finalizers = [];
  is_deleting = false;
  uid = "1";
  transient = false;
  origin = "";
  object = end;
}

abbrev newer : Resource
newer = record config_map { uid = "2" }

abbrev change : DiffChange
change = record {
  op = change_update;
  is_ignored = false;
  new_or_existing_resource = newer;
  original_state = inl "not asked";
}

abbrev diff : Diff
diff = record {
  change = change;
  new_resource = newer;
  existing_resource = config_map;
  applied_resource = newer;
  minimal_md5 = "d41d8c";
  masked_text_diff = none;
}

abbrev refusal : ApiError
refusal = record {
  text = "the object is not as expected";
  is_conflict = false;
  is_already_exists = false;
  is_invalid = true;
}

abbrev conflict : ApiError
conflict = record refusal { is_conflict = true; is_invalid = false }

abbrev first_update : ApiError → List Call → Resource → ApiError ⊎ Resource
first_update e [] res = inl e
first_update e (call ∷ calls) res = inr res

abbrev gone : ExistsReply
gone = record { found = config_map; exists = false; error = none }

abbrev refusing : ApiError → Cluster
refusing e = record {
  on_create = λ calls res. inr res;
  on_update = first_update e;
  on_get = λ calls res. inr res;
  on_delete = λ calls res. none;
  on_orphan = λ calls res. none;
  on_exists = λ calls b res. gone;
}

-- Nothing is recorded, and every recalculated change is the same.
abbrev differ : Differ
differ = record {
  calculate = λ existing wanted. inr (diff ∷ []);
  allows_recording_last_applied = λ res. false;
  calculate_change = λ saved applied. inr diff;
  record_last_applied_resource = λ res d. inr (res, false);
}

abbrev replacing : Strategy
replacing = update_or_fallback_on_replace newer

run_strategy-deletions_example : Made (Deletion (refusing refusal) diff replacing) [] (
    create_call newer
    ∷ exists_call false config_map
    ∷ delete_call config_map
    ∷ update_call newer
    ∷ [])
unfolding run_strategy
run_strategy-deletions_example =
    run_strategy-deletions (refusing refusal) differ 1 diff 1 replacing []

run_strategy-updates_example :
    Made
      (Update (refusing conflict) differ diff [] (update_plain newer))
      []
      (update_call newer ∷ get_call config_map ∷ update_call newer ∷ [])
unfolding run_strategy
run_strategy-updates_example =
    run_strategy-updates (refusing conflict) differ 1 diff 0 (update_plain newer) []

-- The resource is there already, and the annotation says to do nothing.
abbrev taken : Cluster
taken = record (refusing refusal) {
  on_create = λ calls res. inl (record refusal { is_already_exists = true });
}

abbrev idle : Diff
idle = record diff { change = record change { op = change_noop } }

abbrev idling : Differ
idling = record differ { calculate = λ existing wanted. inr (idle ∷ []) }

run_strategy-IsDone_example :
    IsDone taken idling 1 diff
      (add_or_fallback_on_update_or_noop newer)
      (get_call newer ∷ create_call newer ∷ [])
unfolding run_strategy
run_strategy-IsDone_example =
    run_strategy-IsDone taken idling 1 diff 0 (add_or_fallback_on_update_or_noop newer) refl

run_strategy-ends_example :
    Holds (λ _. Unit) (λ _. Unit) (run_strategy (refusing refusal) differ 1 diff 1 replacing []).0
run_strategy-ends_example =
    run_strategy-ends (refusing refusal) differ 1 diff 1 (λ calls. inl refl) replacing []

abbrev default_namespace : Resource
default_namespace = record config_map { kind = "Namespace"; namespace = ""; name = "default" }

abbrev removal : Diff
removal = record diff { existing_resource = default_namespace }

abbrev removing : ClusterChange
removing = record {
  change = record change { op = change_delete; new_or_existing_resource = default_namespace };
  opts = record { apply_ignored = false; wait = true; wait_ignored = false };
  marked_needs_waiting = false;
}

abbrev texts : Texts
texts = record {
  conversion_webhook_failed = λ msg. false;
  semi_structured = λ msg. msg;
  ui_wait_msg_prefix = " ^ ";
  hintable_errs = [];
}

apply-orphaned_example :
    ((apply texts (refusing refusal) differ 1 0 "" removal removing []).1
      ≡ orphan_call default_namespace ∷ [])
    × (delete_done "" (refusing refusal) default_namespace [] ≡ (ok orphaned_reply, []))
unfolding apply_op is_inoperable_resource
apply-orphaned_example =
    apply-orphaned texts (refusing refusal) differ 1 0 "" removal removing "" [] refl refl
