-- ===== src/ClusterApply/Making.antt =====
-- The calls of the parts of Runs.antt, for any P that permits those that the strategies share.
use kapp.Prelude.{
  String, ℕ, zero, suc, Bool, true, false, List, [], ◌∷◌, Option, none, some, ◌≡◌, refl, ◌⊎◌, inl,
  inr, str_eq,
}
use kapp.Resources.Resource.{Resource}
use kapp.ClusterApply.Calls.{
  ApiError, Diff, Cluster, Differ, Call, create_call, update_call, get_call, delete_call,
  exists_call, Run, or_fail, create, exists, ExistsReply, update,
}
use kapp.ClusterApply.Runs.{
  polled, is_update, record_attempt, record_applied_resource, saved_or_fail, wait_deleted, replace,
  poll_again, record_on, record_change, after_record, save_record, latest_copy, must_exist, missing,
}
use kapp.ClusterApply.Made.{
  Made, no_more, Makes, Made-trans, Made-one, Makes->>=, Makes-if, Makes-retry, Makes-or_fail,
}

module _ (cluster : Cluster) (differ : Differ) (d : Diff) where
  -- What is known of a change that is recalculated after a get.
  pub record Recalculated (res : Resource) (calls : List Call) (c : Diff) : Type 0 where
    pub latest : Resource
    pub got : cluster.on_get calls res ≡ inr latest
    pub only : differ.calculate latest d.applied_resource ≡ inr (c ∷ [])

  -- The calls that may be made anywhere, and the updates with a condition of their own.
  pub record Permits (P : List Call → Call → Type 0) : Type 0 where
    pub gets : (calls : List Call) (res : Resource) → P calls (get_call res)
    pub asks : (calls : List Call) (b : Bool) (res : Resource) → P calls (exists_call b res)
    pub creates : (calls : List Call) (res : Resource) → P calls (create_call res)
    pub records :
        (calls : List Call) (latest res : Resource) (change : Diff)
        → differ.record_last_applied_resource latest change ≡ inr (res, true)
        → P calls (update_call res)

  -- The updates to a recalculated change, where it is approved already, and where the resource was to
  -- be created.
  abbrev pub Approves : (List Call → Call → Type 0) → Type 0
  Approves P =
      (calls : List Call) (c : Diff)
      → Recalculated d.existing_resource calls c
      → is_update c.change.op ≡ true
      → str_eq c.minimal_md5 d.minimal_md5 ≡ true
      → P (get_call d.existing_resource ∷ calls) (update_call c.new_resource)

  abbrev pub Adopts : (List Call → Call → Type 0) → Type 0
  Adopts P =
      (calls : List Call) (c : Diff)
      → Recalculated d.new_resource calls c
      → P (get_call d.new_resource ∷ calls) (update_call c.new_resource)

  module _ (polls : ℕ) (P : List Call → Call → Type 0) where
    Makes-missing : (o : Option ApiError) → Makes P (missing cluster differ polls d o)
    unfolding missing
    Makes-missing none calls = no_more
    Makes-missing (some e) calls = no_more

    pub Makes-must_exist : (reply : ExistsReply) → Makes P (must_exist cluster differ polls d reply)
    unfolding must_exist
    Makes-must_exist reply =
        Makes-if P reply.exists _ _ (λ _ calls. no_more) (λ _. Makes-missing reply.error)

  module _ (polls : ℕ) (P : List Call → Call → Type 0) (p : Permits P) where
    Makes-after_record : (a : ApiError ⊎ Resource) → Makes P (after_record cluster differ polls d a)
    unfolding after_record
    Makes-after_record (inl e) calls = no_more
    Makes-after_record (inr r) calls = no_more

    Makes-save_record :
        (latest : Resource) (change : Diff) (x : String ⊎ (Resource × Bool))
        → differ.record_last_applied_resource latest change ≡ x
        → Makes P (save_record cluster differ polls d x)
    unfolding save_record
    Makes-save_record latest change (inl e) h calls = no_more
    Makes-save_record latest change (inr (res, false)) h calls = no_more
    Makes-save_record latest change (inr (res, true)) h calls =
        Makes->>= P (update cluster res) (after_record cluster differ polls d)
          (λ calls. Made-one P (update_call res) calls (p.records calls latest res change h))
          Makes-after_record calls

    Makes-record_on :
        (change : Diff) (a : ApiError ⊎ Resource)
        → Makes P (record_on cluster differ polls d change a)
    unfolding record_on
    Makes-record_on change (inl e) calls = no_more
    Makes-record_on change (inr latest) calls = Makes-save_record latest change _ refl calls

    Makes-latest_copy :
        (saved : Resource) (copy : Option Resource)
        → Makes P (latest_copy cluster differ polls d saved copy)
    unfolding latest_copy
    Makes-latest_copy saved none calls = Made-one P (get_call saved) calls (p.gets calls saved)
    Makes-latest_copy saved (some res) calls = no_more

    Makes-record_change :
        (saved : Resource) (x : String ⊎ Diff)
        → Makes P (record_change cluster differ polls d saved x)
    unfolding record_change record_attempt
    Makes-record_change saved (inl e) calls = no_more
    Makes-record_change saved (inr change) calls =
        Makes-retry P (record_attempt cluster differ polls d saved change)
          (λ copy.
            Makes->>= P (latest_copy cluster differ polls d saved copy) _
              (Makes-latest_copy saved copy) (Makes-record_on change))
          polls (some saved) calls

    pub Makes-record_applied_resource :
        (saved : Resource) → Makes P (record_applied_resource cluster differ polls d saved)
    unfolding record_applied_resource
    Makes-record_applied_resource saved =
        Makes-if P (differ.allows_recording_last_applied saved) _ _
          (λ _. Makes-record_change saved _) (λ _ calls. no_more)

    pub Makes-saved_or_fail :
        (a : ApiError ⊎ Resource) → Makes P (saved_or_fail cluster differ polls d a)
    unfolding saved_or_fail
    Makes-saved_or_fail (inl e) calls = no_more
    Makes-saved_or_fail (inr saved) calls = Makes-record_applied_resource saved calls

    Makes-polled :
        (next : Run Unit)
        → Makes P next
        → (o : Option ApiError) (there : Bool)
        → Makes P (polled cluster differ polls d next o there)
    unfolding polled
    Makes-polled next h (some e) there calls = no_more
    Makes-polled next h none true calls = h calls
    Makes-polled next h none false calls = no_more

    Makes-poll_again :
        (next : Run Unit)
        → Makes P next
        → (reply : ExistsReply) → Makes P (poll_again cluster differ polls d next reply)
    unfolding poll_again
    Makes-poll_again next h reply = Makes-polled next h reply.error reply.exists

    Makes-wait_deleted : (fuel : ℕ) → Makes P (wait_deleted cluster differ polls d fuel)
    unfolding wait_deleted
    Makes-wait_deleted zero calls = no_more
    Makes-wait_deleted (suc fuel) calls =
        Makes->>= P (exists cluster false d.existing_resource)
          (poll_again cluster differ polls d (wait_deleted cluster differ polls d fuel))
          (λ calls.
            Made-one P (exists_call false d.existing_resource) calls
              (p.asks calls false d.existing_resource))
          (Makes-poll_again _ (Makes-wait_deleted fuel)) calls

    -- Where the deletion at the start may be made.
    pub Makes-replace :
        (fuel : ℕ) (calls : List Call)
        → P calls (delete_call d.existing_resource)
        → Made P calls (replace cluster differ polls d fuel calls).1
    unfolding replace
    Makes-replace fuel calls h =
        Made-trans P calls (delete_call d.existing_resource ∷ calls) _ (Made-one P _ calls h) (
          Makes->>= P (or_fail _) _ (Makes-or_fail P _)
            (λ _.
              Makes->>= P (wait_deleted cluster differ polls d fuel) _ (Makes-wait_deleted fuel)
                (λ _.
                  Makes->>= P (create cluster d.applied_resource)
                    (saved_or_fail cluster differ polls d)
                    (λ calls. Made-one P _ calls (p.creates calls d.applied_resource))
                    Makes-saved_or_fail))
            (delete_call d.existing_resource ∷ calls))
