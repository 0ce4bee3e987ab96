-- ===== src/ClusterApply/Ends.antt =====
-- About the ends of the runs of Runs.antt.
use kapp.Prelude.{
  ◌≢◌, ℕ, zero, suc, Bool, true, false, List, [], ◌∷◌, ◌≡◌, ◌⊎◌, inl, inr, Option, none, some,
  Result, ok, err, panic, out_of_fuel, String, if◌then◌else◌, Holds,
}
use kapp.Resources.Resource.{Resource}
use kapp.ClusterApply.Calls.{
  ApiError, StrategyError, Diff, Cluster, Differ, Call, exists_call, or_fail, Run, ◌>>=◌, resume,
  fail, Attempt, over, again, after_attempt, retry,
}
use kapp.ClusterApply.Runs.{
  record_applied_resource, saved_or_fail, recalculate, only_change, calculate_with, unless_conflict,
  latest_copy, after_record, save_record, record_on, record_attempt, record_change,
}

-- A run that ends, with a value or an error.
abbrev pub Ends : {A : Type 0} → Run A → Type 0
Ends {A = A} m =
    (calls : List Call) → Holds {E = StrategyError} {A = A} (λ _. Unit) (λ _. Unit) (m calls).0

pub Ends-resume :
    {A B : Type 0} (f : A → Run B) (r : Result StrategyError A) (calls : List Call)
    → Holds (λ _. Unit) (λ _. Unit) r
    → ((a : A) → Ends (f a))
    → Holds (λ _. Unit) (λ _. Unit) (resume f r calls).0
Ends-resume f (ok a) calls h k = k a calls
Ends-resume f (err e) calls h k = tt
Ends-resume f (panic m) calls h k = h
Ends-resume f out_of_fuel calls h k = h

pub Ends->>= :
    {A B : Type 0} (m : Run A) (f : A → Run B) → Ends m → ((a : A) → Ends (f a)) → Ends (m >>= f)
Ends->>= m f h k calls = Ends-resume f (m calls).0 (m calls).1 (h calls) k

pub Ends-if : {A : Type 0} (b : Bool) (m n : Run A) → Ends m → Ends n → Ends (if b then m else n)
Ends-if true m n h k = h
Ends-if false m n h k = k

pub Ends-or_fail : (o : Option ApiError) → Ends (or_fail o)
Ends-or_fail none calls = tt
Ends-or_fail (some e) calls = tt

module _ {S : Type 0} (attempt : S → Run (Attempt S)) (each : (s : S) → Ends (attempt s)) where
  Ends-after_attempt :
      (next : StrategyError → S → Run Unit)
      → ((e : StrategyError) (s : S) → Ends (next e s))
      → (a : Attempt S) → Ends (after_attempt next a)
  unfolding after_attempt
  Ends-after_attempt next h (over none) calls = tt
  Ends-after_attempt next h (over (some e)) calls = tt
  Ends-after_attempt next h (again e s) calls = h e s calls

  Ends-retry : (polls : ℕ) (s : S) → Ends (retry polls attempt s)
  unfolding retry
  Ends-retry zero s =
      Ends->>= (attempt s) (after_attempt (λ e s'. fail e)) (each s)
        (Ends-after_attempt _ (λ e s' calls. tt))
  Ends-retry (suc polls) s =
      Ends->>= (attempt s) (after_attempt (λ e s'. retry polls attempt s')) (each s)
        (Ends-after_attempt _ (λ e s'. Ends-retry polls s'))

module _ (cluster : Cluster) (d : Diff) where
  -- Within so many polls after the calls, one says that the existing resource is gone, or fails.
  abbrev pub GoneWithin : ℕ → List Call → Type 0
  GoneWithin zero calls = ⊥
  GoneWithin (suc n) calls =
      ((cluster.on_exists calls false d.existing_resource).exists ≡ false)
      ⊎ (((cluster.on_exists calls false d.existing_resource).error ≢ none)
          ⊎ GoneWithin n (exists_call false d.existing_resource ∷ calls))

module _ (cluster : Cluster) (differ : Differ) (polls : ℕ) (d : Diff) where
  Ends-after_record : (a : ApiError ⊎ Resource) → Ends (after_record cluster differ polls d a)
  unfolding after_record
  Ends-after_record (inl e) calls = tt
  Ends-after_record (inr r) calls = tt

  Ends-save_record : (x : String ⊎ (Resource × Bool)) → Ends (save_record cluster differ polls d x)
  unfolding save_record
  Ends-save_record (inl e) calls = tt
  Ends-save_record (inr (res, false)) calls = tt
  Ends-save_record (inr (res, true)) calls = Ends-after_record (cluster.on_update calls res) _

  Ends-record_on :
      (change : Diff) (a : ApiError ⊎ Resource) → Ends (record_on cluster differ polls d change a)
  unfolding record_on
  Ends-record_on change (inl e) calls = tt
  Ends-record_on change (inr latest) calls =
      Ends-save_record (differ.record_last_applied_resource latest change) calls

  Ends-record_attempt :
      (saved : Resource) (change : Diff) (copy : Option Resource)
      → Ends (record_attempt cluster differ polls d saved change copy)
  unfolding record_attempt latest_copy
  Ends-record_attempt saved change none calls = Ends-record_on change (cluster.on_get calls saved) _
  Ends-record_attempt saved change (some res) calls = Ends-record_on change (inr res) calls

  Ends-record_change :
      (saved : Resource) (x : String ⊎ Diff) → Ends (record_change cluster differ polls d saved x)
  unfolding record_change
  Ends-record_change saved (inl e) calls = tt
  Ends-record_change saved (inr change) calls =
      Ends-retry (record_attempt cluster differ polls d saved change)
        (Ends-record_attempt saved change) polls (some saved) calls

  pub Ends-record_applied_resource :
      (saved : Resource) → Ends (record_applied_resource cluster differ polls d saved)
  unfolding record_applied_resource
  Ends-record_applied_resource saved =
      Ends-if (differ.allows_recording_last_applied saved) _ _
        (Ends-record_change saved (differ.calculate_change saved d.applied_resource)) (λ calls. tt)

  pub Ends-saved_or_fail : (a : ApiError ⊎ Resource) → Ends (saved_or_fail cluster differ polls d a)
  unfolding saved_or_fail
  Ends-saved_or_fail (inl e) calls = tt
  Ends-saved_or_fail (inr saved) calls = Ends-record_applied_resource saved calls

  Ends-only_change : (x : String ⊎ List Diff) → Ends (only_change cluster differ polls d x)
  unfolding only_change
  Ends-only_change (inl e) calls = tt
  Ends-only_change (inr []) calls = tt
  Ends-only_change (inr (c ∷ [])) calls = tt
  Ends-only_change (inr (c ∷ c' ∷ cs)) calls = tt

  Ends-calculate_with : (a : ApiError ⊎ Resource) → Ends (calculate_with cluster differ polls d a)
  unfolding calculate_with
  Ends-calculate_with (inl e) calls = tt
  Ends-calculate_with (inr latest) calls =
      Ends-only_change (differ.calculate latest d.applied_resource) calls

  pub Ends-recalculate : (res : Resource) → Ends (recalculate cluster differ polls d res)
  unfolding recalculate
  Ends-recalculate res calls = Ends-calculate_with (cluster.on_get calls res) _

  pub Ends-unless_conflict :
      (next fallback : ApiError → Run Unit)
      → ((e : ApiError) → Ends (next e))
      → ((e : ApiError) → Ends (fallback e))
      → (a : ApiError ⊎ Resource) → Ends (unless_conflict cluster differ polls d next fallback a)
  unfolding unless_conflict
  Ends-unless_conflict next fallback h k (inr saved) calls =
      Ends-record_applied_resource saved calls
  Ends-unless_conflict next fallback h k (inl e) calls = Ends-if e.is_conflict _ _ (h e) (k e) calls
