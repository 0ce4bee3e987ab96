-- ===== src/Resources/Mods/RefSet.antt =====
-- mod_object_ref_set.go. The replacement is a function to the changed map, or its error.
use kapp.Prelude.{
  String, [], ◌∷◌, none, some, ◌⊎◌, inl, inr, if◌then◌else◌, Result, ok, err, panic, ◌>>=◌,
  wrap_err,
}
use kapp.Resources.Json.{Json, null, obj, Fields, get_field}
use kapp.Resources.Path.{FieldPath, PathPartArrayIndex}
use kapp.Resources.Resource.{Resource}
use kapp.Resources.Matchers.{Matcher, matches}
use kapp.Resources.Mods.Update.{
  ModError, unexpected_non_map, replacement_failed, ModFailed, set_field, change_array,
}

pub record ObjectRefSetMod : Type 0 where
  pub resource_matcher : Matcher
  pub path : FieldPath
  pub replacement_func : Fields → String ⊎ Fields

replace_here : (Fields → String ⊎ Fields) → Json → Result ModError Json
replace_here f (obj fs) = elim (f fs) [ inl e ↦ err (replacement_failed e) | inr gs ↦ ok (obj gs) ]
replace_here f v = err (unexpected_non_map v)

set_ref_key : String → (Json → Result ModError Json) → Json → Result ModError Json
unfolding set_field
set_ref_key k next (obj fs) = elim (get_field k fs) [
  | none ↦ ok (obj fs)
  | some v ↦ do w ← next v; ok (obj (set_field k w fs))
]
set_ref_key k next v = err (unexpected_non_map v)

-- A nil value has no items, where all of them are meant.
set_ref_array : PathPartArrayIndex → (Json → Result ModError Json) → Json → Result ModError Json
unfolding change_array
set_ref_array ai next null = elim ai.all [ some _ ↦ ok null | none ↦ change_array next ai null ]
set_ref_array ai next v = change_array next ai v

module _ (t : ObjectRefSetMod) where
  -- ObjectRefSetMod.apply
  unfoldable pub set_refs : FieldPath → Json → Result ModError Json
  unfolding replace_here set_ref_key set_ref_array
  set_refs [] v = replace_here t.replacement_func v
  set_refs (part ∷ path) v = elim part.map_key [
    | some k ↦ set_ref_key k (set_refs path) v
    | none ↦ elim part.array_index [
      | some ai ↦ set_ref_array ai (set_refs path) v
      | none ↦ elim part.regex [
        | some _ ↦ panic "Regex in path part is only supported for rebaseRules."
        | none ↦ panic "Unexpected path part"
      ]
    ]
  ]

  -- ObjectRefSetMod.Apply: the object that the resource then has.
  pub apply_set_refs : Resource → Result ModFailed Json
  unfolding set_refs matches
  apply_set_refs res = do
    matching ← matches res t.resource_matcher
    if matching
        then wrap_err
            (λ e. record {
              mod_name = "ObjectRefSetMod";
              path = t.path;
              description = res.description;
              cause = e;
            })
            (set_refs t.path (obj res.object))
        else ok (obj res.object)
