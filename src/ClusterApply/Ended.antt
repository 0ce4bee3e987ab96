-- ===== src/ClusterApply/Ended.antt =====
-- About the ends of the strategies.
use kapp.Prelude.{
  ◌≢◌, ℕ, zero, suc, Bool, true, false, not, List, ◌∷◌, ◌≡◌, refl, ◌⊎◌, inl, inr, Option, none,
  some, str_eq, Holds,
}
use kapp.Resources.Resource.{Resource}
use kapp.ClusterApply.Ops.{
  DiffOp, change_add, change_update, change_noop, change_delete, change_keep, change_exists,
  change_unknown,
}
use kapp.ClusterApply.Calls.{
  ApiError, Diff, Cluster, Differ, Call, delete_call, exists_call, or_fail, Run, ◌>>=◌, fail, api,
  create, ExistsReply,
}
use kapp.ClusterApply.Strategies.{
  Strategy, add_plain, add_or_fallback_on_update, add_or_fallback_on_update_or_noop, update_plain,
  update_or_fallback_on_replace, update_always_replace, update_skip, noop_strategy, delete_plain,
  delete_orphan, exists_strategy,
}
use kapp.ClusterApply.Runs.{
  polled, run_strategy, is_update, saved_or_fail, wait_deleted, replace, poll_again, must_exist,
  missing, recalculate, resolve_update_conflict, update_after_create_conflict, update_approved,
  update_created, after_create, update_or, replace_if_is_invalid_err,
}
use kapp.ClusterApply.Ends.{
  Ends, Ends->>=, Ends-if, Ends-or_fail, GoneWithin, Ends-recalculate, Ends-saved_or_fail,
  Ends-unless_conflict, Ends-record_applied_resource,
}

module _ (cluster : Cluster) (differ : Differ) (polls : ℕ) (d : Diff) where
  Ends-polled :
      (next : Run Unit) (calls : List Call) (o : Option ApiError) (there : Bool)
      → (there ≡ false) ⊎ ((o ≢ none) ⊎ Holds (λ _. Unit) (λ _. Unit) (next calls).0)
      → Holds (λ _. Unit) (λ _. Unit) (polled cluster differ polls d next o there calls).0
  unfolding polled
  Ends-polled next calls (some e) there h = tt
  Ends-polled next calls none false h = tt
  Ends-polled next calls none true (inl h) = cc
  Ends-polled next calls none true (inr (inl h)) = absurd (h refl)
  Ends-polled next calls none true (inr (inr h)) = h

  wait_deleted-ends :
      (fuel : ℕ) (calls : List Call)
      → GoneWithin cluster d fuel calls
      → Holds (λ _. Unit) (λ _. Unit) (wait_deleted cluster differ polls d fuel calls).0
  unfolding wait_deleted poll_again
  wait_deleted-ends zero calls h = absurd h
  wait_deleted-ends (suc fuel) calls h =
      Ends-polled (wait_deleted cluster differ polls d fuel)
        (exists_call false d.existing_resource ∷ calls) reply.error reply.exists
        (then_ends (wait_deleted-ends fuel _) h)
    where
      reply : ExistsReply
      reply = cluster.on_exists calls false d.existing_resource

      then_ends :
          {H G : Type 0}
          → (G → H)
          → (reply.exists ≡ false) ⊎ ((reply.error ≢ none) ⊎ G)
          → (reply.exists ≡ false) ⊎ ((reply.error ≢ none) ⊎ H)
      then_ends f (inl e) = inl e
      then_ends f (inr (inl e)) = inr (inl e)
      then_ends f (inr (inr g)) = inr (inr (f g))

  Ends-missing : (o : Option ApiError) → Ends (missing cluster differ polls d o)
  unfolding missing
  Ends-missing none calls = tt
  Ends-missing (some e) calls = tt

  Ends-resolve_update_conflict :
      (tries : ℕ) (orig : ApiError) (fallback : ApiError → Run Unit)
      → ((e : ApiError) → Ends (fallback e))
      → Ends (resolve_update_conflict cluster differ polls d tries orig fallback)
  unfolding resolve_update_conflict update_approved
  Ends-resolve_update_conflict zero orig fallback f calls = tt
  Ends-resolve_update_conflict (suc tries) orig fallback f calls =
      Ends->>= (recalculate cluster differ polls d d.existing_resource)
        (update_approved cluster differ polls d orig fallback
          (resolve_update_conflict cluster differ polls d tries orig fallback))
        (Ends-recalculate cluster differ polls d d.existing_resource)
        (λ c.
          Ends-if (not (is_update c.change.op)) _ _ (λ calls. tt)
            (Ends-if (not (str_eq c.minimal_md5 d.minimal_md5)) _ _ (λ calls. tt)
              (λ calls.
                Ends-unless_conflict cluster differ polls d _ fallback
                  (λ e. Ends-resolve_update_conflict tries orig fallback f) f
                  (cluster.on_update calls c.new_resource) _)))
        calls

  Ends-update_created :
      (allow_noop : Bool) (next : ApiError → Run Unit) (c : Diff) (op : DiffOp)
      → ((e : ApiError) → Ends (next e))
      → Ends (update_created cluster differ polls d allow_noop next c op)
  unfolding update_created
  Ends-update_created allow_noop next c change_noop n calls =
      Ends-if allow_noop _ _ (λ calls. tt) (λ calls. tt) calls
  Ends-update_created allow_noop next c change_update n calls =
      Ends-unless_conflict cluster differ polls d next (λ e. fail (api e)) n (λ e calls. tt)
        (cluster.on_update calls c.new_resource) _
  Ends-update_created allow_noop next c change_add n calls = tt
  Ends-update_created allow_noop next c change_delete n calls = tt
  Ends-update_created allow_noop next c change_keep n calls = tt
  Ends-update_created allow_noop next c change_exists n calls = tt
  Ends-update_created allow_noop next c (change_unknown op) n calls = tt

  Ends-update_after_create_conflict :
      (tries : ℕ) (allow_noop : Bool) (last : Option ApiError)
      → Ends (update_after_create_conflict cluster differ polls d tries allow_noop last)
  unfolding update_after_create_conflict
  Ends-update_after_create_conflict zero allow_noop last calls = tt
  Ends-update_after_create_conflict (suc tries) allow_noop last calls =
      Ends->>= (recalculate cluster differ polls d d.new_resource)
        (λ c.
          update_created cluster differ polls d allow_noop
            (λ e. update_after_create_conflict cluster differ polls d tries allow_noop (some e)) c
            c.change.op)
        (Ends-recalculate cluster differ polls d d.new_resource)
        (λ c.
          Ends-update_created allow_noop _ c c.change.op
            (λ e. Ends-update_after_create_conflict tries allow_noop (some e)))
        calls

  Ends-after_create :
      (allow_noop : Bool) (a : ApiError ⊎ Resource)
      → Ends (after_create cluster differ polls d allow_noop a)
  unfolding after_create
  Ends-after_create allow_noop (inr saved) calls =
      Ends-record_applied_resource cluster differ polls d saved calls
  Ends-after_create allow_noop (inl e) calls =
      Ends-if e.is_already_exists _ _ (Ends-update_after_create_conflict 10 allow_noop none)
        (λ calls. tt) calls

  Ends-update_or :
      (fallback : ApiError → Run Unit) (res : Resource)
      → ((e : ApiError) → Ends (fallback e))
      → Ends (update_or cluster differ polls d fallback res)
  unfolding update_or
  Ends-update_or fallback res f calls =
      Ends-unless_conflict cluster differ polls d _ fallback
        (λ e. Ends-resolve_update_conflict 10 e fallback f) f (cluster.on_update calls res) _

  module _ (fuel : ℕ) (gone : (calls : List Call) → GoneWithin cluster d fuel calls) where
    Ends-replace : Ends (replace cluster differ polls d fuel)
    unfolding replace
    Ends-replace calls =
        Ends->>= (or_fail (cluster.on_delete calls d.existing_resource))
          (λ _. wait_deleted cluster differ polls d fuel >>= λ _.
            create cluster d.applied_resource >>= saved_or_fail cluster differ polls d)
          (Ends-or_fail _)
          (λ _.
            Ends->>= (wait_deleted cluster differ polls d fuel)
              (λ _. create cluster d.applied_resource >>= saved_or_fail cluster differ polls d)
              (λ cs. wait_deleted-ends fuel cs (gone cs))
              (λ _ cs.
                Ends-saved_or_fail cluster differ polls d (cluster.on_create cs d.applied_resource)
                  _))
          (delete_call d.existing_resource ∷ calls)

    -- Where, after whatever calls, the cluster says within as many polls as there is fuel that the
    -- resource to be replaced is gone, or fails to say, every strategy ends, with or without an error.
    pub run_strategy-ends :
        (s : Strategy) (calls : List Call)
        → Holds (λ _. Unit) (λ _. Unit) (run_strategy cluster differ polls d fuel s calls).0
    unfolding run_strategy replace_if_is_invalid_err must_exist
    run_strategy-ends (add_plain res) calls =
        Ends-saved_or_fail cluster differ polls d (cluster.on_create calls res) _
    run_strategy-ends (add_or_fallback_on_update res) calls =
        Ends-after_create false (cluster.on_create calls res) _
    run_strategy-ends (add_or_fallback_on_update_or_noop res) calls =
        Ends-after_create true (cluster.on_create calls res) _
    run_strategy-ends (update_plain res) calls = Ends-update_or _ res (λ e cs. tt) calls
    run_strategy-ends (update_or_fallback_on_replace res) calls =
        Ends-update_or _ res (λ e. Ends-if e.is_invalid _ _ Ends-replace (λ cs. tt)) calls
    run_strategy-ends update_always_replace calls = Ends-replace calls
    run_strategy-ends update_skip calls = tt
    run_strategy-ends noop_strategy calls = tt
    run_strategy-ends (delete_plain res) calls = Ends-or_fail (cluster.on_delete calls res) _
    run_strategy-ends (delete_orphan res) calls = Ends-or_fail (cluster.on_orphan calls res) _
    run_strategy-ends (exists_strategy res) calls =
        let reply = cluster.on_exists calls false res in
        Ends-if reply.exists _ _ (λ cs. tt) (Ends-missing reply.error) _
