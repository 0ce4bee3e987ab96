-- ===== src/ClusterApply/Saved.antt =====
-- About what the runs of Runs.antt that end without an error have saved.
use kapp.Prelude.{
  ℕ, zero, suc, Bool, true, false, not, List, [], ◌∷◌, ◌≡◌, refl, ◌⊎◌, inl, inr, Result, ok, err,
  panic, out_of_fuel, str_eq, if◌then◌else◌,
}
use kapp.Resources.Resource.{Resource}
use kapp.ClusterApply.Calls.{
  ApiError, StrategyError, Diff, Cluster, Differ, Call, create_call, update_call, delete_call,
  or_fail, Run, ◌>>=◌, resume, fail, create, update,
}
use kapp.ClusterApply.Runs.{
  is_update, record_applied_resource, saved_or_fail, wait_deleted, replace, recalculate,
  resolve_update_conflict, unless_conflict, update_approved, update_or,
}
use kapp.ClusterApply.Made.{Made, no_more, one_more}
use kapp.ClusterApply.Making.{Permits, Makes-record_applied_resource}

module _ (cluster : Cluster) where
  -- A create or an update that the cluster accepted.
  unfoldable pub IsAccepted : List Call → Call → Type 0
  IsAccepted calls (create_call res) =
      (saved : Resource) × (cluster.on_create calls res ≡ inr saved)
  IsAccepted calls (update_call res) =
      (saved : Resource) × (cluster.on_update calls res ≡ inr saved)
  IsAccepted calls call = ⊥

  unfoldable pub SomeAccepted : List Call → Type 0
  unfolding IsAccepted
  SomeAccepted [] = ⊥
  SomeAccepted (call ∷ calls) = IsAccepted calls call ⊎ SomeAccepted calls

  Made-SomeAccepted :
      (P : List Call → Call → Type 0) (a b : List Call)
      → Made P a b
      → SomeAccepted a
      → SomeAccepted b
  unfolding SomeAccepted
  Made-SomeAccepted P a _ no_more h = h
  Made-SomeAccepted P a _ (one_more call calls m p) h = inr (Made-SomeAccepted P a calls m h)

anything : (cluster : Cluster) (differ : Differ) (d : Diff) → Permits cluster differ d (λ _ _. Unit)
anything cluster differ d = record {
  gets = λ calls res. tt;
  asks = λ calls b res. tt;
  creates = λ calls res. tt;
  records = λ calls latest res change h. tt;
}

-- `N` is what is known of the calls where nothing had to be saved.
module _ (cluster : Cluster) (differ : Differ) (polls : ℕ) (d : Diff) (N : List Call → Type 0) where
  abbrev pub Saves : Run Unit → List Call → Type 0
  Saves m calls = (m calls).0 ≡ ok tt → SomeAccepted cluster (m calls).1 ⊎ N (m calls).1

  pub Saves-fail : (e : StrategyError) (calls : List Call) → Saves (fail e) calls
  Saves-fail e calls h = cc

  pub Saves-if :
      (b : Bool) (m n : Run Unit) (calls : List Call)
      → (b ≡ true → Saves m calls)
      → (b ≡ false → Saves n calls)
      → Saves (if b then m else n) calls
  Saves-if true m n calls h k = h refl
  Saves-if false m n calls h k = k refl

  pub Saves-record_applied_resource :
      (saved : Resource) (calls : List Call)
      → SomeAccepted cluster calls
      → Saves (record_applied_resource cluster differ polls d saved) calls
  Saves-record_applied_resource saved calls h _ = inl (
      Made-SomeAccepted cluster _ calls _
        (Makes-record_applied_resource cluster differ d polls _ (anything cluster differ d) saved
          calls)
        h)

  Saves-resume :
      {A : Type 0} (f : A → Run Unit) (r : Result StrategyError A) (calls : List Call)
      → ((a : A) → Saves (f a) calls)
      → Saves (resume f r) calls
  Saves-resume f (ok a) calls h k = h a k
  Saves-resume f (err e) calls h k = cc
  Saves-resume f (panic m) calls h k = cc
  Saves-resume f out_of_fuel calls h k = cc

  Saves-saved_or_fail :
      (a : ApiError ⊎ Resource) (calls : List Call)
      → ((saved : Resource) → a ≡ inr saved → SomeAccepted cluster calls)
      → Saves (saved_or_fail cluster differ polls d a) calls
  unfolding saved_or_fail
  Saves-saved_or_fail (inl e) calls h k = cc
  Saves-saved_or_fail (inr saved) calls h k =
      Saves-record_applied_resource saved calls (h saved refl) k

  pub Saves-create :
      (res : Resource) (calls : List Call)
      → Saves (create cluster res >>= saved_or_fail cluster differ polls d) calls
  unfolding SomeAccepted IsAccepted
  Saves-create res calls =
      Saves-saved_or_fail (cluster.on_create calls res) (create_call res ∷ calls)
        (λ saved h. inl (saved, h))

  pub Saves-replace :
      (fuel : ℕ) (calls : List Call) → Saves (replace cluster differ polls d fuel) calls
  unfolding replace
  Saves-replace fuel calls =
      let asked = delete_call d.existing_resource ∷ calls in
      Saves-resume _ (or_fail (cluster.on_delete calls d.existing_resource) asked).0 _ (λ _.
        Saves-resume _ (wait_deleted cluster differ polls d fuel _).0 _
          (λ _. Saves-create d.applied_resource _))

  Saves-unless_conflict :
      (next fallback : ApiError → Run Unit) (a : ApiError ⊎ Resource) (calls : List Call)
      → ((saved : Resource) → a ≡ inr saved → SomeAccepted cluster calls)
      → ((e : ApiError) → Saves (next e) calls)
      → ((e : ApiError) → Saves (fallback e) calls)
      → Saves (unless_conflict cluster differ polls d next fallback a) calls
  unfolding unless_conflict
  Saves-unless_conflict next fallback (inr saved) calls h n f =
      Saves-record_applied_resource saved calls (h saved refl)
  Saves-unless_conflict next fallback (inl e) calls h n f =
      Saves-if e.is_conflict _ _ calls (λ _. n e) (λ _. f e)

  pub Saves-update :
      (next fallback : ApiError → Run Unit) (res : Resource) (calls : List Call)
      → ((e : ApiError) (cs : List Call) → Saves (next e) cs)
      → ((e : ApiError) (cs : List Call) → Saves (fallback e) cs)
      → Saves (update cluster res >>= unless_conflict cluster differ polls d next fallback) calls
  unfolding SomeAccepted IsAccepted
  Saves-update next fallback res calls n f =
      Saves-unless_conflict next fallback (cluster.on_update calls res) (update_call res ∷ calls)
        (λ saved h. inl (saved, h)) (λ e. n e _) (λ e. f e _)

  Saves-resolve_update_conflict :
      (tries : ℕ) (orig : ApiError) (fallback : ApiError → Run Unit) (calls : List Call)
      → ((e : ApiError) (cs : List Call) → Saves (fallback e) cs)
      → Saves (resolve_update_conflict cluster differ polls d tries orig fallback) calls
  unfolding resolve_update_conflict update_approved
  Saves-resolve_update_conflict zero orig fallback calls f h = cc
  Saves-resolve_update_conflict (suc tries) orig fallback calls f h =
      Saves-resume _ (recalculate cluster differ polls d d.existing_resource calls).0 _
        (λ c.
          Saves-if (not (is_update c.change.op)) _ _ _ (λ _ h. cc)
            (λ _.
              Saves-if (not (str_eq c.minimal_md5 d.minimal_md5)) _ _ _ (λ _ h. cc)
                (λ _.
                  Saves-update _ fallback c.new_resource _
                    (λ e cs. Saves-resolve_update_conflict tries orig fallback cs f) f)))
        h

  pub Saves-update_or :
      (fallback : ApiError → Run Unit) (res : Resource) (calls : List Call)
      → ((e : ApiError) (cs : List Call) → Saves (fallback e) cs)
      → Saves (update_or cluster differ polls d fallback res) calls
  unfolding update_or
  Saves-update_or fallback res calls f =
      Saves-update _ fallback res calls (λ e cs. Saves-resolve_update_conflict 10 e fallback cs f) f
