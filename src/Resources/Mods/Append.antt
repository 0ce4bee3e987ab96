-- ===== src/Resources/Mods/Append.antt =====
-- mod_string_map_append.go. The map KVs is a list in the order in which `range` visits it.
use kapp.Prelude.{
  String, Bool, ◌||◌, List, [], ◌∷◌, Option, none, some, if◌then◌else◌, Result, ok, err, panic,
  ◌>>=◌, wrap_err,
}
use kapp.Resources.Json.{Json, null, str, obj, Fields, end, get_field}
use kapp.Resources.Path.{FieldPath, contains_non_map_keys}
use kapp.Resources.Resource.{Resource}
use kapp.Resources.Matchers.{Matcher, matches}
use kapp.Resources.Mods.Update.{ModError, unexpected_non_map, ModFailed, set_field, change_array}

pub record StringMapAppendMod : Type 0 where
  pub resource_matcher : Matcher
  pub path : FieldPath
  pub skip_if_not_found : Bool
  pub kvs : List (String × String)

unfoldable pub set_all : List (String × String) → Fields → Fields
unfolding set_field
set_all [] fs = fs
set_all ((k, v) ∷ kvs) fs = set_all kvs (set_field k (str v) fs)

-- What follows the loop.
unfoldable pub append_here : List (String × String) → Json → Result ModError Json
unfolding set_all
append_here kvs (obj fs) = ok (obj (set_all kvs fs))
append_here kvs v = err (unexpected_non_map v)

-- A value that is there, or none where it is nil.
unfoldable pub not_nil : Option Json → Option Json
not_nil none = none
not_nil (some null) = none
not_nil (some v) = some v

-- The step at a map key; `exit` says that nothing is created where there is no value.
unfoldable pub append_key :
    String → Bool → (Json → Result ModError Json) → Json → Result ModError Json
unfolding set_field not_nil
append_key k exit next (obj fs) = elim (not_nil (get_field k fs)) [
  | some v ↦ do w ← next v; ok (obj (set_field k w fs))
  | none ↦
      let created = (do w ← next (obj end); ok (obj (set_field k w fs))) in
      if exit then ok (obj fs) else created
]
append_key k exit next v = err (unexpected_non_map v)

module _ (t : StringMapAppendMod) where
  -- The loop of a call of apply: whether its path has parts that are no map keys is asked of the whole
  -- path of the call.
  unfoldable pub append_from : Bool → FieldPath → Json → Result ModError Json
  unfolding append_here append_key change_array contains_non_map_keys
  append_from other_parts [] v = append_here t.kvs v
  append_from other_parts (part ∷ path) v = elim part.map_key [
    | some k ↦ append_key k (t.skip_if_not_found || other_parts) (append_from other_parts path) v
    | none ↦ elim part.array_index [
      | some ai ↦ change_array (append_from (contains_non_map_keys path) path) ai v
      | none ↦ elim part.regex [
        | some _ ↦ panic "Regex in path part is only supported for rebaseRules."
        | none ↦ panic "Unexpected path part"
      ]
    ]
  ]

  -- StringMapAppendMod.apply
  unfoldable pub append : FieldPath → Json → Result ModError Json
  unfolding append_from
  append path v = append_from (contains_non_map_keys path) path v

  -- StringMapAppendMod.Apply: the object that the resource then has.
  pub apply_append : Resource → Result ModFailed Json
  unfolding append matches
  apply_append res = do
    matching ← matches res t.resource_matcher
    if matching
        then wrap_err
            (λ e. record {
              mod_name = "StringMapAppendMod";
              path = t.path;
              description = res.description;
              cause = e;
            })
            (append t.path (obj res.object))
        else ok (obj res.object)
