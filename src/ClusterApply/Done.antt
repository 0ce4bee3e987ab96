-- ===== src/ClusterApply/Done.antt =====
-- About what a strategy that ends without an error has saved.
use kapp.ClusterApply.Ops.{
  DiffOp, change_add, change_update, change_noop, change_delete, change_keep, change_exists,
  change_unknown,
}
use kapp.Prelude.{
  ℕ, zero, suc, Bool, true, false, List, [], ◌∷◌, ◌≡◌, refl, ◌⊎◌, inl, inr, ok, if◌then◌else◌, none,
  Option, some, String,
}
use kapp.Resources.Resource.{Resource}
use kapp.ClusterApply.Calls.{
  delete_call, orphan_call, exists_call, ExistsReply, return, or_fail, ApiError, Diff, Cluster,
  Differ, Call, create_call, delete_call, or_fail, Run, ◌>>=◌, api, get_call,
}
use kapp.ClusterApply.Runs.{
  must_exist, missing, recalculate, run_strategy, update_after_create_conflict, only_change,
  update_created, calculate_with, after_create,
}
use kapp.ClusterApply.Saved.{
  Saves, Saves-fail, Saves-if, Saves-create, Saves-replace, Saves-update, Saves-update_or,
  Saves-record_applied_resource, SomeAccepted, IsAccepted,
}
use kapp.ClusterApply.Making.{Recalculated}
use kapp.ClusterApply.Strategies.{
  Strategy, add_plain, add_or_fallback_on_update, add_or_fallback_on_update_or_noop, update_plain,
  update_or_fallback_on_replace, update_always_replace, update_skip, noop_strategy, delete_plain,
  delete_orphan, exists_strategy,
}

module _ (cluster : Cluster) (differ : Differ) (polls : ℕ) (d : Diff) where
  -- The last call read a copy of the resource, and the operation of the change that is recalculated
  -- with it is noop.
  unfoldable pub NoopRead : List Call → Type 0
  NoopRead (get_call read ∷ calls) =
      (c : Diff) × Recalculated cluster differ d d.new_resource calls c
      × (read ≡ d.new_resource)
      × (c.change.op ≡ change_noop)
  NoopRead calls = ⊥

  -- What a strategy leaves where it ends without an error.
  unfoldable pub IsDone : Strategy → List Call → Type 0
  unfolding NoopRead
  IsDone (add_plain res) calls = SomeAccepted cluster calls
  IsDone (add_or_fallback_on_update res) calls = SomeAccepted cluster calls
  IsDone (add_or_fallback_on_update_or_noop res) calls = SomeAccepted cluster calls ⊎ NoopRead calls
  IsDone (update_plain res) calls = SomeAccepted cluster calls
  IsDone (update_or_fallback_on_replace res) calls = SomeAccepted cluster calls
  IsDone update_always_replace calls = SomeAccepted cluster calls
  IsDone (delete_plain res) calls =
      (calls ≡ delete_call res ∷ []) × (cluster.on_delete [] res ≡ none)
  IsDone (delete_orphan res) calls =
      (calls ≡ orphan_call res ∷ []) × (cluster.on_orphan [] res ≡ none)
  IsDone (exists_strategy res) calls =
      (calls ≡ exists_call false res ∷ []) × ((cluster.on_exists [] false res).exists ≡ true)
  IsDone update_skip calls = calls ≡ []
  IsDone noop_strategy calls = calls ≡ []

  module _ (N : List Call → Type 0) (allow_noop : Bool)
      (noop_ok : allow_noop ≡ true
        → (calls : List Call) (c : Diff) → Recalculated cluster differ d d.new_resource calls c
        → c.change.op ≡ change_noop
        → N (get_call d.new_resource ∷ calls)) where
    Saves-only_change :
        (latest : Resource) (calls : List Call) (f : Diff → Run Unit) (x : String ⊎ List Diff)
        → cluster.on_get calls d.new_resource ≡ inr latest
        → differ.calculate latest d.applied_resource ≡ x
        → ((c : Diff)
            → Recalculated cluster differ d d.new_resource calls c
            → Saves cluster differ polls d N (f c) (get_call d.new_resource ∷ calls))
        → Saves cluster differ polls d N
            (only_change cluster differ polls d x >>= f)
            (get_call d.new_resource ∷ calls)
    unfolding only_change
    Saves-only_change latest calls f (inl e) g q h k = cc
    Saves-only_change latest calls f (inr []) g q h k = cc
    Saves-only_change latest calls f (inr (c ∷ [])) g q h k =
        h c (record { latest = latest; got = g; only = q }) k
    Saves-only_change latest calls f (inr (c ∷ c' ∷ cs)) g q h k = cc

    Saves-calculate_with :
        (calls : List Call) (f : Diff → Run Unit) (a : ApiError ⊎ Resource)
        → cluster.on_get calls d.new_resource ≡ a
        → ((c : Diff)
            → Recalculated cluster differ d d.new_resource calls c
            → Saves cluster differ polls d N (f c) (get_call d.new_resource ∷ calls))
        → Saves cluster differ polls d N
            (calculate_with cluster differ polls d a >>= f)
            (get_call d.new_resource ∷ calls)
    unfolding calculate_with
    Saves-calculate_with calls f (inl e) g h k = cc
    Saves-calculate_with calls f (inr latest) g h k = Saves-only_change latest calls f _ g refl h k

    Saves-update_created :
        (next : ApiError → Run Unit) (calls : List Call) (c : Diff) (op : DiffOp)
        → c.change.op ≡ op
        → Recalculated cluster differ d d.new_resource calls c
        → ((e : ApiError) (cs : List Call) → Saves cluster differ polls d N (next e) cs)
        → Saves cluster differ polls d N
            (update_created cluster differ polls d allow_noop next c op)
            (get_call d.new_resource ∷ calls)
    unfolding update_created
    Saves-update_created next calls c change_noop q r n k =
        Saves-if cluster differ polls d N allow_noop _ _ _ (λ b _. inr (noop_ok b calls c r q))
          (λ _ h. cc) k
    Saves-update_created next calls c change_update q r n k =
        Saves-update cluster differ polls d N next _ c.new_resource _ n
          (λ e cs. Saves-fail cluster differ polls d N (api e) cs) k
    Saves-update_created next calls c change_add q r n k = cc
    Saves-update_created next calls c change_delete q r n k = cc
    Saves-update_created next calls c change_keep q r n k = cc
    Saves-update_created next calls c change_exists q r n k = cc
    Saves-update_created next calls c (change_unknown op) q r n k = cc

    Saves-update_after_create_conflict :
        (tries : ℕ) (last : Option ApiError) (calls : List Call)
        → Saves cluster differ polls d N
            (update_after_create_conflict cluster differ polls d tries allow_noop last)
            calls
    unfolding update_after_create_conflict recalculate
    Saves-update_after_create_conflict zero last calls k = cc
    Saves-update_after_create_conflict (suc tries) last calls k =
        Saves-calculate_with calls _ _ refl
          (λ c r.
            Saves-update_created _ calls c c.change.op refl r
              (λ e cs. Saves-update_after_create_conflict tries (some e) cs))
          k

    Saves-after_create :
        (a : ApiError ⊎ Resource) (calls : List Call)
        → ((saved : Resource) → a ≡ inr saved → SomeAccepted cluster calls)
        → Saves cluster differ polls d N (after_create cluster differ polls d allow_noop a) calls
    unfolding after_create
    Saves-after_create (inr saved) calls h k =
        Saves-record_applied_resource cluster differ polls d N saved calls (h saved refl) k
    Saves-after_create (inl e) calls h k =
        Saves-if cluster differ polls d N e.is_already_exists _ _ calls
          (λ _. Saves-update_after_create_conflict 10 none calls)
          (λ _. Saves-fail cluster differ polls d N (api e) calls) k

  only_accepted : {A : Type 0} → A ⊎ ⊥ → A
  only_accepted (inl a) = a
  only_accepted (inr e) = absurd e

  or_fail-ok :
      (o : Option ApiError) (calls : List Call)
      → (or_fail o calls).0 ≡ ok tt
      → ((or_fail o calls).1 ≡ calls) × (o ≡ none)
  or_fail-ok none calls h = (refl, refl)
  or_fail-ok (some e) calls h = cc

  must_exist-ok :
      (reply : ExistsReply) (calls : List Call)
      → (must_exist cluster differ polls d reply calls).0 ≡ ok tt
      → ((must_exist cluster differ polls d reply calls).1 ≡ calls) × (reply.exists ≡ true)
  unfolding must_exist missing
  must_exist-ok reply calls h = of_test reply.exists reply.error h
    where
      of_test :
          (b : Bool) (o : Option ApiError)
          → ((if b then return tt else missing cluster differ polls d o) calls).0 ≡ ok tt
          → (((if b then return tt else missing cluster differ polls d o) calls).1 ≡ calls)
            × (b ≡ true)
      of_test true o k = (refl, refl)
      of_test false none k = cc
      of_test false (some e) k = cc

  -- A strategy that adds, updates or replaces a resource and ends without an error has made a create or
  -- an update that the cluster accepted, or, where it falls back on an update or on nothing, its last
  -- call read a copy of the resource, and the operation of the change recalculated with that copy is
  -- noop. One that deletes or orphans has made this one call without an error, one that looks for a
  -- resource has found it by its one call, and all others have made no call.
  pub run_strategy-IsDone :
      (fuel : ℕ) (s : Strategy)
      → (run_strategy cluster differ polls d fuel s []).0 ≡ ok tt
      → IsDone s (run_strategy cluster differ polls d fuel s []).1
  unfolding run_strategy IsDone SomeAccepted IsAccepted NoopRead
  run_strategy-IsDone fuel (add_plain res) h =
      only_accepted (Saves-create cluster differ polls d (λ _. ⊥) res [] h)
  run_strategy-IsDone fuel (add_or_fallback_on_update res) h = only_accepted (
      Saves-after_create (λ _. ⊥) false (λ b calls c r q. cc) (cluster.on_create [] res)
        (create_call res ∷ []) (λ saved e. inl (saved, e)) h)
  run_strategy-IsDone fuel (add_or_fallback_on_update_or_noop res) h =
      Saves-after_create NoopRead true (λ b calls c r q. (c, r, refl, q)) (cluster.on_create [] res)
        (create_call res ∷ []) (λ saved e. inl (saved, e)) h
  run_strategy-IsDone fuel (update_plain res) h = only_accepted (
      Saves-update_or cluster differ polls d (λ _. ⊥) _ res []
        (λ e cs. Saves-fail cluster differ polls d (λ _. ⊥) (api e) cs) h)
  run_strategy-IsDone fuel (update_or_fallback_on_replace res) h = only_accepted (
      Saves-update_or cluster differ polls d (λ _. ⊥) _ res []
        (λ e cs.
          Saves-if cluster differ polls d (λ _. ⊥) e.is_invalid _ _ cs
            (λ _. Saves-replace cluster differ polls d (λ _. ⊥) fuel cs)
            (λ _. Saves-fail cluster differ polls d (λ _. ⊥) (api e) cs))
        h)
  run_strategy-IsDone fuel update_always_replace h =
      only_accepted (Saves-replace cluster differ polls d (λ _. ⊥) fuel [] h)
  run_strategy-IsDone fuel update_skip h = refl
  run_strategy-IsDone fuel noop_strategy h = refl
  run_strategy-IsDone fuel (delete_plain res) h = or_fail-ok _ _ h
  run_strategy-IsDone fuel (delete_orphan res) h = or_fail-ok _ _ h
  run_strategy-IsDone fuel (exists_strategy res) h =
      must_exist-ok (cluster.on_exists [] false res) _ h
