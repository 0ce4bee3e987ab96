-- ===== src/ClusterApply/Runs.antt =====
-- The runs of the strategies of add_or_update_change.go, delete_change.go and exists_change.go. The loop
-- of `replace` that polls until the resource is gone has no end of its own and takes fuel.
use kapp.Prelude.{
  String, ℕ, zero, suc, Bool, true, false, not, List, [], ◌∷◌, Option, none, some, ◌⊎◌, inl, inr,
  if◌then◌else◌, out_of_fuel, str_eq,
}
use kapp.Resources.Resource.{Resource}
use kapp.ClusterApply.Ops.{DiffOp, change_update, change_noop}
use kapp.ClusterApply.Strategies.{
  Strategy, add_plain, add_or_fallback_on_update, add_or_fallback_on_update_or_noop, update_plain,
  update_or_fallback_on_replace, update_always_replace, update_skip, noop_strategy, delete_plain,
  delete_orphan, exists_strategy,
}
use kapp.ClusterApply.Calls.{
  ApiError, Diff, Cluster, Differ, api, calculation, Run, ◌>>=◌, return, fail, or_fail, create,
  update, get, delete, orphan, exists, ExistsReply, Attempt, over, again, retry, change_after_save,
  recording_last_applied, saving_record, not_one_change, not_an_update, not_an_update_or_noop,
  noop_not_allowed, no_longer_matches, update_tried, after_create_tried, does_not_exist,
}

abbrev pub is_update : DiffOp → Bool
is_update change_update = true
is_update _ = false

module _ (cluster : Cluster) (differ : Differ) (polls : ℕ) (d : Diff) where
  unfoldable pub latest_copy : Resource → Option Resource → Run (ApiError ⊎ Resource)
  latest_copy saved none = get cluster saved
  latest_copy saved (some res) = return (inr res)

  unfoldable pub after_record : ApiError ⊎ Resource → Run (Attempt (Option Resource))
  after_record (inl e) = return (again (saving_record e) none)
  after_record (inr _) = return (over none)

  unfoldable pub save_record : String ⊎ (Resource × Bool) → Run (Attempt (Option Resource))
  unfolding after_record
  save_record (inl e) = return (over (some (recording_last_applied e)))
  save_record (inr (res, false)) = return (over none)
  save_record (inr (res, true)) = update cluster res >>= after_record

  unfoldable pub record_on : Diff → ApiError ⊎ Resource → Run (Attempt (Option Resource))
  unfolding save_record
  record_on change (inl e) = return (again (api e) none)
  record_on change (inr latest) = save_record (differ.record_last_applied_resource latest change)

  -- The function that recordAppliedResource retries, with the copy that it has, if any.
  unfoldable pub record_attempt :
      Resource → Diff → Option Resource → Run (Attempt (Option Resource))
  unfolding latest_copy record_on
  record_attempt saved change copy = latest_copy saved copy >>= record_on change

  unfoldable pub record_change : Resource → String ⊎ Diff → Run Unit
  unfolding record_attempt retry
  record_change saved (inl e) = fail (change_after_save e)
  record_change saved (inr change) = retry polls (record_attempt saved change) (some saved)

  -- recordAppliedResource
  unfoldable pub record_applied_resource : Resource → Run Unit
  unfolding record_change
  record_applied_resource saved =
      if differ.allows_recording_last_applied saved
      then record_change saved (differ.calculate_change saved d.applied_resource)
      else return tt

  -- What follows a create or an update whose error is returned as it is.
  unfoldable pub saved_or_fail : ApiError ⊎ Resource → Run Unit
  unfolding record_applied_resource
  saved_or_fail (inl e) = fail (api e)
  saved_or_fail (inr saved) = record_applied_resource saved

  unfoldable pub polled : Run Unit → Option ApiError → Bool → Run Unit
  polled next (some e) there = fail (api e)
  polled next none true = next
  polled next none false = return tt

  unfoldable pub poll_again : Run Unit → ExistsReply → Run Unit
  unfolding polled
  poll_again next reply = polled next reply.error reply.exists

  -- The loop of replace.
  unfoldable pub wait_deleted : ℕ → Run Unit
  unfolding poll_again
  wait_deleted zero = λ calls. (out_of_fuel, calls)
  wait_deleted (suc fuel) =
      exists cluster false d.existing_resource >>= poll_again (wait_deleted fuel)

  -- AddOrUpdateChange.replace
  unfoldable pub replace : ℕ → Run Unit
  unfolding wait_deleted saved_or_fail
  replace fuel = delete cluster d.existing_resource >>= λ answer. or_fail answer >>= λ _.
      wait_deleted fuel >>= λ _. create cluster d.applied_resource >>= saved_or_fail

  unfoldable pub only_change : String ⊎ List Diff → Run Diff
  only_change (inl e) = fail (calculation e)
  only_change (inr []) = fail not_one_change
  only_change (inr (recalculated ∷ [])) = return recalculated
  only_change (inr (_ ∷ _ ∷ _)) = fail not_one_change

  unfoldable pub calculate_with : ApiError ⊎ Resource → Run Diff
  unfolding only_change
  calculate_with (inl e) = fail (api e)
  calculate_with (inr latest) = only_change (differ.calculate latest d.applied_resource)

  -- The change to the latest copy of the resource.
  unfoldable pub recalculate : Resource → Run Diff
  unfolding calculate_with
  recalculate res = get cluster res >>= calculate_with

  unfoldable pub unless_conflict :
      (ApiError → Run Unit) → (ApiError → Run Unit) → ApiError ⊎ Resource → Run Unit
  unfolding record_applied_resource
  unless_conflict next fallback (inr saved) = record_applied_resource saved
  unless_conflict next fallback (inl e) = if e.is_conflict then next e else fallback e

  unfoldable pub update_approved : ApiError → (ApiError → Run Unit) → Run Unit → Diff → Run Unit
  unfolding unless_conflict
  update_approved orig fallback next recalculated =
      if not (is_update recalculated.change.op)
      then fail not_an_update
      else if not (str_eq recalculated.minimal_md5 d.minimal_md5)
      then fail (no_longer_matches orig recalculated.masked_text_diff)
      else (update cluster recalculated.new_resource >>= unless_conflict (λ _. next) fallback)

  -- The loop of tryToResolveUpdateConflict.
  unfoldable pub resolve_update_conflict : ℕ → ApiError → (ApiError → Run Unit) → Run Unit
  unfolding recalculate update_approved
  resolve_update_conflict zero orig fallback = fail (update_tried orig)
  resolve_update_conflict (suc tries) orig fallback =
      recalculate d.existing_resource
      >>= update_approved orig fallback (resolve_update_conflict tries orig fallback)

  unfoldable pub update_created : Bool → (ApiError → Run Unit) → Diff → DiffOp → Run Unit
  unfolding unless_conflict
  update_created allow_noop next recalculated change_noop =
      if allow_noop then return tt else fail noop_not_allowed
  update_created allow_noop next recalculated change_update =
      update cluster recalculated.new_resource >>= unless_conflict next (λ e. fail (api e))
  update_created allow_noop next recalculated _ = fail not_an_update_or_noop

  -- The loop of tryToUpdateAfterCreateConflict, with the last error of an update.
  unfoldable pub update_after_create_conflict : ℕ → Bool → Option ApiError → Run Unit
  unfolding recalculate update_created
  update_after_create_conflict zero allow_noop last = fail (after_create_tried last)
  update_after_create_conflict (suc tries) allow_noop last =
      recalculate d.new_resource >>= λ recalculated.
      update_created allow_noop (λ e. update_after_create_conflict tries allow_noop (some e))
        recalculated recalculated.change.op

  unfoldable pub after_create : Bool → ApiError ⊎ Resource → Run Unit
  unfolding update_after_create_conflict record_applied_resource
  after_create allow_noop (inr saved) = record_applied_resource saved
  after_create allow_noop (inl e) =
      if e.is_already_exists then update_after_create_conflict 10 allow_noop none else fail (api e)

  unfoldable pub update_or : (ApiError → Run Unit) → Resource → Run Unit
  unfolding resolve_update_conflict unless_conflict
  update_or fallback res =
      update cluster res >>= unless_conflict (λ e. resolve_update_conflict 10 e fallback) fallback

  unfoldable pub replace_if_is_invalid_err : ℕ → ApiError → Run Unit
  unfolding replace
  replace_if_is_invalid_err fuel e = if e.is_invalid then replace fuel else fail (api e)

  unfoldable pub missing : Option ApiError → Run Unit
  missing (some e) = fail (api e)
  missing none = fail does_not_exist

  -- ExistsStrategy.Apply: an error beside a resource that exists is passed over.
  unfoldable pub must_exist : ExistsReply → Run Unit
  unfolding missing
  must_exist reply = if reply.exists then return tt else missing reply.error

  -- Apply() of the strategies.
  unfoldable pub run_strategy : ℕ → Strategy → Run Unit
  unfolding saved_or_fail after_create update_or replace_if_is_invalid_err replace must_exist
  run_strategy fuel (add_plain res) = create cluster res >>= saved_or_fail
  run_strategy fuel (add_or_fallback_on_update res) = create cluster res >>= after_create false
  run_strategy fuel (add_or_fallback_on_update_or_noop res) =
      create cluster res >>= after_create true
  run_strategy fuel (update_plain res) = update_or (λ e. fail (api e)) res
  run_strategy fuel (update_or_fallback_on_replace res) =
      update_or (replace_if_is_invalid_err fuel) res
  run_strategy fuel update_always_replace = replace fuel
  run_strategy fuel update_skip = return tt
  run_strategy fuel noop_strategy = return tt
  run_strategy fuel (delete_plain res) = delete cluster res >>= or_fail
  run_strategy fuel (delete_orphan res) = orphan cluster res >>= or_fail
  run_strategy fuel (exists_strategy res) = exists cluster false res >>= must_exist
