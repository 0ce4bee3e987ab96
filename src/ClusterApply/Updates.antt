-- ===== src/ClusterApply/Updates.antt =====
-- About the calls of the strategies of Runs.antt that update a resource.
use kapp.Prelude.{str_eq, ◌⊎◌, ℕ, true, List, ◌∷◌, ◌≡◌, refl, inl, false, inr}
use kapp.Resources.Resource.{Resource}
use kapp.ClusterApply.Calls.{
  Diff, Cluster, Differ, Call, create_call, update_call, get_call, delete_call, orphan_call,
  exists_call,
}
use kapp.ClusterApply.Strategies.{
  Strategy, add_plain, add_or_fallback_on_update, add_or_fallback_on_update_or_noop, update_plain,
  update_or_fallback_on_replace, update_always_replace, update_skip, noop_strategy, delete_plain,
  delete_orphan, exists_strategy,
}
use kapp.ClusterApply.Runs.{is_update, run_strategy}
use kapp.ClusterApply.Made.{Makes-or_fail, Made, no_more, Made-one, Made-trans, Made-if}
use kapp.ClusterApply.Making.{
  Recalculated, Permits, Makes-saved_or_fail, Makes-replace, Makes-must_exist,
}
use kapp.ClusterApply.Recalculating.{Makes-after_create, Makes-update_or}

module _ (cluster : Cluster) (differ : Differ) (d : Diff) where
  -- The resource with the record of what was last applied to it.
  abbrev pub IsRecorded : Resource → Type 0
  IsRecorded res =
      (latest : Resource) × (change : Diff) × (differ.record_last_applied_resource latest change
        ≡ inr (res, true))

  -- The new resource of the change that the latest copy, which was just read, gives with what is
  -- applied: an update with the same difference as the approved one.
  unfoldable pub IsApproved : List Call → Resource → Type 0
  IsApproved (get_call read ∷ calls) res =
      (c : Diff) × Recalculated cluster differ d d.existing_resource calls c
      × (read ≡ d.existing_resource)
      × (is_update c.change.op ≡ true)
      × (str_eq c.minimal_md5 d.minimal_md5 ≡ true)
      × (res ≡ c.new_resource)
  IsApproved calls res = ⊥

  unfoldable pub IsAdopted : List Call → Resource → Type 0
  IsAdopted (get_call read ∷ calls) res =
      (c : Diff) × Recalculated cluster differ d d.new_resource calls c
      × (read ≡ d.new_resource)
      × (res ≡ c.new_resource)
  IsAdopted calls res = ⊥

  unfoldable pub MayUpdate : List Call → Strategy → List Call → Resource → Type 0
  unfolding IsApproved IsAdopted
  MayUpdate start (add_plain wanted) calls res = IsRecorded res
  MayUpdate start (add_or_fallback_on_update wanted) calls res =
      IsRecorded res ⊎ IsAdopted calls res
  MayUpdate start (add_or_fallback_on_update_or_noop wanted) calls res =
      IsRecorded res ⊎ IsAdopted calls res
  MayUpdate start (update_plain wanted) calls res =
      IsRecorded res ⊎ (((calls ≡ start) × (res ≡ wanted)) ⊎ IsApproved calls res)
  MayUpdate start (update_or_fallback_on_replace wanted) calls res =
      IsRecorded res ⊎ (((calls ≡ start) × (res ≡ wanted)) ⊎ IsApproved calls res)
  MayUpdate start update_always_replace calls res = IsRecorded res
  MayUpdate start s calls res = ⊥

  unfoldable pub Update : List Call → Strategy → List Call → Call → Type 0
  unfolding MayUpdate
  Update start s calls (update_call res) = MayUpdate start s calls res
  Update start s calls (create_call res) = Unit
  Update start s calls (delete_call res) = Unit
  Update start s calls (get_call res) = Unit
  Update start s calls (orphan_call res) = Unit
  Update start s calls (exists_call b res) = Unit

module _ (cluster : Cluster) (differ : Differ) (polls : ℕ) (d : Diff) where
  Update-permits :
      (start : List Call) (s : Strategy)
      → ((calls : List Call) (res : Resource)
          → IsRecorded cluster differ d res
          → MayUpdate cluster differ d start s calls res)
      → Permits cluster differ d (Update cluster differ d start s)
  unfolding Update
  Update-permits start s record_ok = record {
    gets = λ calls res. tt;
    asks = λ calls b res. tt;
    creates = λ calls res. tt;
    records = λ calls latest res change h. record_ok calls res (latest, change, h);
  }

  -- A strategy updates the resource that it was made to update as its first call, and afterwards only
  -- to the new resource of a change that it recalculated with the copy of the resource that it just
  -- read: one with the difference that was approved, where it was made to update. Besides it only
  -- saves the record of what was last applied. A strategy that skips, deletes, orphans or only looks
  -- whether a resource exists updates nothing.
  pub run_strategy-updates :
      (fuel : ℕ) (s : Strategy) (calls : List Call)
      → Made
          (Update cluster differ d calls s)
          calls
          (run_strategy cluster differ polls d fuel s calls).1
  unfolding run_strategy Update MayUpdate IsApproved IsAdopted
  run_strategy-updates fuel (add_plain res) calls =
      Made-trans _ _ _ _ (Made-one _ (create_call res) calls tt) (
        Makes-saved_or_fail cluster differ d polls _
          (Update-permits calls (add_plain res) (λ cs r h. h)) (cluster.on_create calls res) _)
  run_strategy-updates fuel (add_or_fallback_on_update res) calls =
      Made-trans _ _ _ _ (Made-one _ (create_call res) calls tt) (
        Makes-after_create cluster differ d polls _
          (Update-permits calls (add_or_fallback_on_update res) (λ cs r h. inl h))
          (λ cs c r. inr (c, r, refl, refl)) false (cluster.on_create calls res) _)
  run_strategy-updates fuel (add_or_fallback_on_update_or_noop res) calls =
      Made-trans _ _ _ _ (Made-one _ (create_call res) calls tt) (
        Makes-after_create cluster differ d polls _
          (Update-permits calls (add_or_fallback_on_update_or_noop res) (λ cs r h. inl h))
          (λ cs c r. inr (c, r, refl, refl)) true (cluster.on_create calls res) _)
  run_strategy-updates fuel (update_plain res) calls =
      Makes-update_or cluster differ d polls _
        (Update-permits calls (update_plain res) (λ cs r h. inl h))
        (λ cs c r u m. inr (inr (c, r, refl, u, m, refl))) _ res calls (inr (inl (refl, refl)))
        (λ e r cs q. no_more)
  run_strategy-updates fuel (update_or_fallback_on_replace res) calls =
      Makes-update_or cluster differ d polls _
        (Update-permits calls (update_or_fallback_on_replace res) (λ cs r h. inl h))
        (λ cs c r u m. inr (inr (c, r, refl, u, m, refl))) _ res calls (inr (inl (refl, refl)))
        (λ e r cs q.
          Made-if _ e.is_invalid _ _ _
            (λ i.
              Makes-replace cluster differ d polls _
                (Update-permits calls (update_or_fallback_on_replace res) (λ cs r h. inl h)) fuel _
                tt)
            (λ _. no_more))
  run_strategy-updates fuel update_always_replace calls =
      Makes-replace cluster differ d polls _
        (Update-permits calls update_always_replace (λ cs r h. h)) fuel calls tt
  run_strategy-updates fuel update_skip calls = no_more
  run_strategy-updates fuel noop_strategy calls = no_more
  run_strategy-updates fuel (delete_plain res) calls =
      Made-trans _ _ _ _ (Made-one _ (delete_call res) calls tt) (Makes-or_fail _ _ _)
  run_strategy-updates fuel (delete_orphan res) calls =
      Made-trans _ _ _ _ (Made-one _ (orphan_call res) calls tt) (Makes-or_fail _ _ _)
  run_strategy-updates fuel (exists_strategy res) calls =
      Made-trans _ _ _ _ (Made-one _ (exists_call false res) calls tt)
        (Makes-must_exist cluster differ d polls _ (cluster.on_exists calls false res) _)
