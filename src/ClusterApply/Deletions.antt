-- ===== src/ClusterApply/Deletions.antt =====
-- About the calls of the strategies of Runs.antt that delete a resource.
use kapp.Prelude.{ℕ, true, List, ◌∷◌, ◌≡◌, refl, inl, false}
use kapp.Resources.Resource.{Resource}
use kapp.ClusterApply.Calls.{
  ApiError, Diff, Cluster, Differ, Call, create_call, update_call, get_call, delete_call,
  orphan_call, exists_call,
}
use kapp.ClusterApply.Strategies.{
  Strategy, add_plain, add_or_fallback_on_update, add_or_fallback_on_update_or_noop, update_plain,
  update_or_fallback_on_replace, update_always_replace, update_skip, noop_strategy, delete_plain,
  delete_orphan, exists_strategy,
}
use kapp.ClusterApply.Runs.{run_strategy}
use kapp.ClusterApply.Made.{Makes-or_fail, Made, no_more, Made-one, Made-trans, Made-if}
use kapp.ClusterApply.Making.{Permits, Makes-saved_or_fail, Makes-replace, Makes-must_exist}
use kapp.ClusterApply.Recalculating.{Makes-after_create, Makes-update_or}

module _ (cluster : Cluster) (d : Diff) where
  -- The call before was an update that the cluster refused as invalid.
  unfoldable pub JustRefused : List Call → Type 0
  JustRefused (update_call res ∷ calls) =
      (e : ApiError) × (cluster.on_update calls res ≡ inl e) × (e.is_invalid ≡ true)
  JustRefused calls = ⊥

  unfoldable pub MayDelete : Strategy → List Call → Resource → Type 0
  unfolding JustRefused
  MayDelete (delete_plain wanted) calls res = res ≡ wanted
  MayDelete update_always_replace calls res = res ≡ d.existing_resource
  MayDelete (update_or_fallback_on_replace wanted) calls res =
      (res ≡ d.existing_resource) × JustRefused calls
  MayDelete s calls res = ⊥

  unfoldable pub Deletion : Strategy → List Call → Call → Type 0
  unfolding MayDelete
  Deletion s calls (delete_call res) = MayDelete s calls res
  Deletion s calls (create_call res) = Unit
  Deletion s calls (update_call res) = Unit
  Deletion s calls (get_call res) = Unit
  Deletion s calls (orphan_call res) = Unit
  Deletion s calls (exists_call b res) = Unit

module _ (cluster : Cluster) (differ : Differ) (polls : ℕ) (d : Diff) where
  Deletion-permits : (s : Strategy) → Permits cluster differ d (Deletion cluster d s)
  unfolding Deletion
  Deletion-permits s = record {
    gets = λ calls res. tt;
    asks = λ calls b res. tt;
    creates = λ calls res. tt;
    records = λ calls latest res change h. tt;
  }

  -- A strategy deletes nothing but the resource that it was made to delete, or the existing resource of
  -- its change where it always replaces, or where it replaces as a fallback and the call right before
  -- was an update that the cluster refused as invalid.
  pub run_strategy-deletions :
      (fuel : ℕ) (s : Strategy) (calls : List Call)
      → Made (Deletion cluster d s) calls (run_strategy cluster differ polls d fuel s calls).1
  unfolding run_strategy Deletion
  run_strategy-deletions fuel (add_plain res) calls =
      Made-trans _ _ _ _ (Made-one _ (create_call res) calls tt) (
        Makes-saved_or_fail cluster differ d polls _ (Deletion-permits (add_plain res))
          (cluster.on_create calls res) _)
  run_strategy-deletions fuel (add_or_fallback_on_update res) calls =
      Made-trans _ _ _ _ (Made-one _ (create_call res) calls tt) (
        Makes-after_create cluster differ d polls _
          (Deletion-permits (add_or_fallback_on_update res)) (λ calls c r. tt) false
          (cluster.on_create calls res) _)
  run_strategy-deletions fuel (add_or_fallback_on_update_or_noop res) calls =
      Made-trans _ _ _ _ (Made-one _ (create_call res) calls tt) (
        Makes-after_create cluster differ d polls _
          (Deletion-permits (add_or_fallback_on_update_or_noop res)) (λ calls c r. tt) true
          (cluster.on_create calls res) _)
  run_strategy-deletions fuel (update_plain res) calls =
      Makes-update_or cluster differ d polls _ (Deletion-permits (update_plain res))
        (λ calls c r u m. tt) _ res calls tt (λ e r cs q. no_more)
  run_strategy-deletions fuel (update_or_fallback_on_replace res) calls =
      Makes-update_or cluster differ d polls _
        (Deletion-permits (update_or_fallback_on_replace res)) (λ calls c r u m. tt) _ res calls tt
        (λ e r cs q.
          Made-if _ e.is_invalid _ _ _
            (λ i.
              Makes-replace cluster differ d polls _
                (Deletion-permits (update_or_fallback_on_replace res)) fuel _ (refl, (e, q, i)))
            (λ _. no_more))
  run_strategy-deletions fuel update_always_replace calls =
      Makes-replace cluster differ d polls _ (Deletion-permits update_always_replace) fuel calls
        refl
  run_strategy-deletions fuel update_skip calls = no_more
  run_strategy-deletions fuel noop_strategy calls = no_more
  run_strategy-deletions fuel (delete_plain res) calls =
      Made-trans _ _ _ _ (Made-one _ (delete_call res) calls refl) (Makes-or_fail _ _ _)
  run_strategy-deletions fuel (delete_orphan res) calls =
      Made-trans _ _ _ _ (Made-one _ (orphan_call res) calls tt) (Makes-or_fail _ _ _)
  run_strategy-deletions fuel (exists_strategy res) calls =
      Made-trans _ _ _ _ (Made-one _ (exists_call false res) calls tt)
        (Makes-must_exist cluster differ d polls _ (cluster.on_exists calls false res) _)
