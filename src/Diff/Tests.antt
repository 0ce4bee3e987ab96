-- ===== src/Diff/Tests.antt =====
-- The theorem about change sets applied to a deployment that moves to another group.
use kapp.Prelude.{
  String, Bool, true, false, not, List, [], ◌∷◌, ◌≡◌, refl, inr, inl, none, some, ◌≤◌, is_empty,
  length, select,
}
use Prim.Native.String.{◌++◌}
use kapp.Resources.Resource.{Resource}
use kapp.Resources.Json.{end}
use kapp.Diff.Change.{ChangeImpl, both, only_existing, only_new}
use kapp.Diff.ChangeSet.{collapse, has_uid, is_delete, calculate_changes, ChangeFactoryFunc}
use kapp.Diff.Collapsed.{collapse_unique}

abbrev deployment : String → String → Resource
deployment group uid = record {
  kind = "Deployment";
  api_version = group ++ "/v1";
  api_group = group;
  namespace = "default";
  name = "web";
  description = "deployment/web";
  annotations = [];
  labels = [];
  finalizers = [];
  is_deleting = false;
  uid = uid;
  transient = false;
  origin = "";
  object = end;
}

abbrev differs : Resource → Resource → Bool
differs existing new = true

abbrev update_of : ChangeImpl
update_of = both (deployment "apps" "1") (deployment "apps" "")

abbrev changes : List ChangeImpl
changes = update_of ∷ only_existing (deployment "extensions" "1") ∷ []

collapse_unique_example :
    ((uid : String) → is_empty uid ≡ false → length (select (has_uid uid) (update_of ∷ [])) ≤ 1)
    × (select (λ c. not (is_delete differs c)) (update_of ∷ [])
        ≡ select (λ c. not (is_delete differs c)) changes)
unfolding collapse
collapse_unique_example = collapse_unique differs changes (update_of ∷ []) refl

-- The factory that keeps the two resources.
abbrev factory : ChangeFactoryFunc
factory none none = inl "no resource"
factory none (some new) = inr (only_new new)
factory (some existing) none = inr (only_existing existing)
factory (some existing) (some new) = inr (both existing new)

calculate_run :
    calculate_changes differs factory
      (deployment "apps" "1" ∷ deployment "extensions" "1" ∷ [])
      (deployment "apps" "" ∷ [])
    ≡ inr (update_of ∷ [])
unfolding calculate_changes
calculate_run = refl
