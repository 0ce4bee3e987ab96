-- ===== src/ClusterApply/Calls.antt =====
-- What the strategies of cluster_change.go's changes use: the calls of the cluster, with util/retry.go.
-- A run keeps the calls that were made, the latest first; the answer to a call may depend on all calls
-- before it. `Cluster` is IdentifiedResources of pkg/kapp/resources, and `Differ` what pkg/kapp/diff
-- computes of two resources: ChangeSet.Calculate for one existing and one new resource, and
-- ResourceWithHistory. An error of the cluster is its text with the answers of the tests of the package
-- errors.
use kapp.Prelude.{
  String, ℕ, zero, suc, Bool, List, ◌∷◌, Option, none, some, ◌⊎◌, Result, ok, err, panic,
  out_of_fuel,
}
use kapp.Resources.Resource.{Resource}
use kapp.ClusterApply.Ops.{DiffChange}

pub record ApiError : Type 0 where
  pub text : String
  pub is_conflict : Bool
  pub is_already_exists : Bool
  pub is_invalid : Bool

-- ctldiff.Change. A resource that it does not have is any.
pub record Diff : Type 0 where
  pub change : DiffChange
  pub new_resource : Resource
  pub existing_resource : Resource
  pub applied_resource : Resource
  pub minimal_md5 : String
  pub masked_text_diff : Option String

-- The orphaning patch has no other form.
pub data Call : Type 0 where
  create_call update_call get_call delete_call orphan_call : Resource → Call
  exists_call : Bool → Resource → Call

-- The three results of Exists.
pub record ExistsReply : Type 0 where
  pub found : Resource
  pub exists : Bool
  pub error : Option ApiError

pub record Cluster : Type 0 where
  pub on_create : List Call → Resource → ApiError ⊎ Resource
  pub on_update : List Call → Resource → ApiError ⊎ Resource
  pub on_get : List Call → Resource → ApiError ⊎ Resource
  pub on_delete : List Call → Resource → Option ApiError
  pub on_orphan : List Call → Resource → Option ApiError
  pub on_exists : List Call → Bool → Resource → ExistsReply

pub record Differ : Type 0 where
  pub calculate : Resource → Resource → String ⊎ List Diff
  pub allows_recording_last_applied : Resource → Bool
  pub calculate_change : Resource → Resource → String ⊎ Diff
  pub record_last_applied_resource : Resource → Diff → String ⊎ (Resource × Bool)

-- The errors of the strategies.
pub data StrategyError : Type 0 where
  api : ApiError → StrategyError
  calculation : String → StrategyError
  not_one_change not_an_update not_an_update_or_noop noop_not_allowed : StrategyError
  no_longer_matches : ApiError → Option String → StrategyError
  update_tried : ApiError → StrategyError
  after_create_tried : Option ApiError → StrategyError
  change_after_save recording_last_applied : String → StrategyError
  saving_record : ApiError → StrategyError
  unknown_create unknown_update unknown_delete unknown_add_or_update : String → StrategyError
  does_not_exist : StrategyError

abbrev pub Ran : Type 0 → Type 0
Ran A = Result StrategyError A × List Call

abbrev pub Run : Type 0 → Type 0
Run A = List Call → Ran A

abbrev pub resume : {A B : Type 0} → (A → Run B) → Result StrategyError A → Run B
resume f (ok a) calls = f a calls
resume f (err e) calls = (err e, calls)
resume f (panic m) calls = (panic m, calls)
resume f out_of_fuel calls = (out_of_fuel, calls)

infixl 5 ◌>>=◌
abbrev pub ◌>>=◌ : {A B : Type 0} → Run A → (A → Run B) → Run B
(m >>= f) calls = resume f (m calls).0 (m calls).1

abbrev pub return : {A : Type 0} → A → Run A
return a calls = (ok a, calls)

abbrev pub fail : {A : Type 0} → StrategyError → Run A
fail e calls = (err e, calls)

-- An error that the code returns as it is.
abbrev pub or_fail : Option ApiError → Run Unit
or_fail none = return tt
or_fail (some e) = fail (api e)

module _ (cluster : Cluster) where
  abbrev pub create : Resource → Run (ApiError ⊎ Resource)
  create res calls = (ok (cluster.on_create calls res), create_call res ∷ calls)

  abbrev pub update : Resource → Run (ApiError ⊎ Resource)
  update res calls = (ok (cluster.on_update calls res), update_call res ∷ calls)

  abbrev pub get : Resource → Run (ApiError ⊎ Resource)
  get res calls = (ok (cluster.on_get calls res), get_call res ∷ calls)

  abbrev pub delete : Resource → Run (Option ApiError)
  delete res calls = (ok (cluster.on_delete calls res), delete_call res ∷ calls)

  abbrev pub orphan : Resource → Run (Option ApiError)
  orphan res calls = (ok (cluster.on_orphan calls res), orphan_call res ∷ calls)

  abbrev pub exists : Bool → Resource → Run ExistsReply
  exists same_uid res calls =
      (ok (cluster.on_exists calls same_uid res), exists_call same_uid res ∷ calls)

-- What the function that Retry calls says: it is over, perhaps with an error, or to be called again,
-- with the state for the next call.
pub data Attempt (S : Type 0) : Type 0 where
  over : Option StrategyError → Attempt S
  again : StrategyError → S → Attempt S

unfoldable pub after_attempt : {S : Type 0} → (StrategyError → S → Run Unit) → Attempt S → Run Unit
after_attempt next (over none) = return tt
after_attempt next (over (some e)) = fail e
after_attempt next (again e s) = next e s

-- util.Retry: `polls` says how many times the package wait calls the function again before the time is
-- over. The last error is returned.
unfoldable pub retry : {S : Type 0} → ℕ → (S → Run (Attempt S)) → S → Run Unit
unfolding after_attempt
retry zero attempt s = attempt s >>= after_attempt (λ e s'. fail e)
retry (suc polls) attempt s = attempt s >>= after_attempt (λ e s'. retry polls attempt s')
