-- ===== src/Diff/ChangeSet.antt =====
-- change_set.go. The function of the change factory that is used is a parameter. The map of existing
-- resources is a list of its entries, the latest first; the map of changes by UID is visited in the
-- order in which the UIDs occur.
use kapp.Prelude.{
  String, Bool, true, false, not, ◌&&◌, ◌==◌, List, [], ◌∷◌, Option, none, some, ◌⊎◌, inl, inr,
  if◌then◌else◌, lookup, str_eq, is_empty, elem_text, length, select,
}
use kapp.Resources.Resource.{Resource}
use kapp.Resources.Unique.{unique_key}
use kapp.ClusterApply.Ops.{DiffOp, change_delete}
use kapp.Diff.Change.{ChangeImpl, change_op, existing_resource, new_or_existing_resource}

-- The descriptions are those of the changes with one UID.
pub data ChangeSetError : Type 0 where
  factory_failed : String → ChangeSetError
  not_one_delete : List String → ChangeSetError
  not_one_non_delete : List String → ChangeSetError

abbrev pub ChangeFactoryFunc : Type 0
ChangeFactoryFunc = Option Resource → Option Resource → String ⊎ ChangeImpl

abbrev pub and_then : {A B E : Type 0} → (A → E ⊎ B) → E ⊎ A → E ⊎ B
and_then f (inl e) = inl e
and_then f (inr a) = f a

abbrev pub cons_result : {A E : Type 0} → A → E ⊎ List A → E ⊎ List A
cons_result a (inl e) = inl e
cons_result a (inr rest) = inr (a ∷ rest)

-- One call of the change factory, and the changes that follow.
abbrev pub made :
    String ⊎ ChangeImpl → ChangeSetError ⊎ List ChangeImpl → ChangeSetError ⊎ List ChangeImpl
made (inl e) rest = inl (factory_failed e)
made (inr change) rest = cons_result change rest

-- existingRsMap
unfoldable pub existing_rs_map : List (String × Resource) → List Resource → List (String × Resource)
unfolding unique_key
existing_rs_map m [] = m
existing_rs_map m (res ∷ rs) = existing_rs_map ((unique_key res, res) ∷ m) rs

module _ (factory : ChangeFactoryFunc) where
  -- The loop over the existing resources that are not among the new ones.
  unfoldable pub removed_changes : List String → List Resource → ChangeSetError ⊎ List ChangeImpl
  unfolding unique_key
  removed_changes checked [] = inr []
  removed_changes checked (res ∷ rs) = elim (elem_text (unique_key res) checked) [
    | true ↦ removed_changes checked rs
    | false ↦ made (factory (some res) none) (removed_changes (unique_key res ∷ checked) rs)
  ]

  -- The loop over the new resources, followed by the other one.
  unfoldable pub new_changes :
      List (String × Resource)
      → List Resource
      → List String
      → List Resource
      → ChangeSetError ⊎ List ChangeImpl
  unfolding unique_key removed_changes
  new_changes m existing checked [] = removed_changes checked existing
  new_changes m existing checked (res ∷ rs) =
      made (factory (lookup (unique_key res) m) (some res))
        (new_changes m existing (unique_key res ∷ checked) rs)

uid_in : Option Resource → String
uid_in none = ""
uid_in (some res) = res.uid

-- The UID of the existing resource, or no text.
unfoldable pub uid_of : ChangeImpl → String
unfolding uid_in existing_resource
uid_of c = uid_in (existing_resource c)

unfoldable pub has_uid : String → ChangeImpl → Bool
unfolding uid_of
has_uid uid c = str_eq (uid_of c) uid

-- The UIDs of changes, without those seen before.
unfoldable pub uids : List String → List ChangeImpl → List String
unfolding uid_of
uids seen [] = []
uids seen (c ∷ cs) = elim (is_empty (uid_of c)) [
  | true ↦ uids seen cs
  | false ↦ elim (elem_text (uid_of c) seen) [
    | true ↦ uids seen cs
    | false ↦ uid_of c ∷ uids (uid_of c ∷ seen) cs
  ]
]

descriptions : List ChangeImpl → List String
unfolding new_or_existing_resource
descriptions [] = []
descriptions (c ∷ cs) = (new_or_existing_resource c).description ∷ descriptions cs

module _ (has_changes : Resource → Resource → Bool) where
  unfoldable pub is_delete_op : DiffOp → Bool
  is_delete_op change_delete = true
  is_delete_op _ = false

  unfoldable pub is_delete : ChangeImpl → Bool
  unfolding change_op is_delete_op
  is_delete c = is_delete_op (change_op has_changes c)

  -- Without the delete of a UID, where there are several changes of it.
  unfoldable pub collapse_uid : String → List ChangeImpl → ChangeSetError ⊎ List ChangeImpl
  unfolding is_delete has_uid descriptions
  collapse_uid uid cs =
      let same = select (has_uid uid) cs in
      if length same == 1
      then inr cs
      else if not (length (select is_delete same) == 1)
      then inl (not_one_delete (descriptions same))
      else if not (length (select (λ c. not (is_delete c)) same) == 1)
      then inl (not_one_non_delete (descriptions same))
      else inr (select (λ c. not (has_uid uid c && is_delete c)) cs)

  unfoldable pub collapse_all : List String → List ChangeImpl → ChangeSetError ⊎ List ChangeImpl
  unfolding collapse_uid
  collapse_all [] cs = inr cs
  collapse_all (uid ∷ us) cs = and_then (collapse_all us) (collapse_uid uid cs)

  -- collapseChangesWithSameUID
  unfoldable pub collapse : List ChangeImpl → ChangeSetError ⊎ List ChangeImpl
  unfolding collapse_all uids
  collapse cs = collapse_all (uids [] cs) cs

  -- ChangeSet.Calculate
  unfoldable pub calculate_changes :
      ChangeFactoryFunc → List Resource → List Resource → ChangeSetError ⊎ List ChangeImpl
  unfolding new_changes existing_rs_map collapse
  calculate_changes factory existing new =
      and_then collapse (new_changes factory (existing_rs_map [] existing) existing [] new)
