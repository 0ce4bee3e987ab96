-- ===== src/Resources/Mods/Remove.antt =====
-- mod_field_remove.go.
use kapp.Prelude.{
  String, Bool, true, false, List, [], ◌∷◌, none, some, inl, inr, if◌then◌else◌, Result, ok, err,
  panic, ◌>>=◌, wrap_err,
}
use kapp.Resources.Json.{Json, obj, get_field, Fields}
use kapp.Resources.Path.{FieldPath, PathPart, PathPartRegex}
use kapp.Resources.Resource.{Resource}
use kapp.Resources.Matchers.{Matcher, matches}
use kapp.Resources.Mods.Update.{
  ModError, expected_map_key, ModFailed, Regexps, set_field, delete_field, match_regex,
  change_array,
}

pub record FieldRemoveMod : Type 0 where
  pub resource_matcher : Matcher
  pub path : FieldPath

-- IsResourceMatching of a resource that is not nil.
pub is_resource_matching : {E : Type 0} → FieldRemoveMod → Resource → Result E Bool
unfolding matches
is_resource_matching t res = matches res t.resource_matcher

abbrev pub is_last : FieldPath → Bool
is_last [] = true
is_last (part ∷ path) = false

unfoldable pub remove_in :
    String → Bool → (Json → Result ModError Json) → Fields → Result ModError Json
remove_in k true next fs = ok (obj (delete_field k fs))
remove_in k false next fs = elim (get_field k fs) [
  | none ↦ ok (obj fs)
  | some v ↦ do w ← next v; ok (obj (set_field k w fs))
]

-- The step at a map key: a value that is no map is left as it is, since the test for the error asks
-- for a map that is not nil.
unfoldable pub remove_key :
    String → Bool → (Json → Result ModError Json) → Json → Result ModError Json
unfolding remove_in
remove_key k last next (obj fs) = remove_in k last next fs
remove_key k last next v = ok v

module _ (compile : Regexps) where
  remove_keys : List String → Bool → (Json → Result ModError Json) → Json → Result ModError Json
  unfolding remove_key
  remove_keys [] last next v = ok v
  remove_keys (k ∷ ks) last next v = do w ← remove_key k last next v; remove_keys ks last next w

  remove_regex : PathPartRegex → Bool → (Json → Result ModError Json) → Json → Result ModError Json
  unfolding match_regex remove_keys
  remove_regex r last next v = elim r.regex [
    | none ↦ panic "Regex should be non nil"
    | some text ↦ elim (match_regex compile text v) [
      | inl e ↦ err e
      | inr keys ↦ remove_keys keys last next v
    ]
  ]

  remove_part : PathPart → Bool → (Json → Result ModError Json) → Json → Result ModError Json
  unfolding remove_key remove_regex change_array
  remove_part part last next v = elim part.map_key [
    | some k ↦ remove_key k last next v
    | none ↦ elim part.array_index [
      | some ai ↦ if last then err expected_map_key else change_array next ai v
      | none ↦ elim part.regex [
        | some r ↦ remove_regex r last next v
        | none ↦ panic "Unexpected path part"
      ]
    ]
  ]

  -- FieldRemoveMod.apply
  unfoldable pub remove : FieldPath → Json → Result ModError Json
  unfolding remove_part
  remove [] v = panic "unreachable"
  remove (part ∷ path) v = remove_part part (is_last path) (remove path) v

  -- FieldRemoveMod.Apply: the object that the resource then has.
  pub apply_remove : FieldRemoveMod → Resource → Result ModFailed Json
  unfolding remove
  apply_remove t res =
      wrap_err
        (λ e. record {
          mod_name = "FieldRemoveMod";
          path = t.path;
          description = res.description;
          cause = e;
        })
        (remove t.path (obj res.object))
