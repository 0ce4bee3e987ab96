-- ===== src/Resources/Mods/Copy.antt =====
-- mod_field_copy.go. The resources that a mod copies from are their objects by their names, where a
-- resource that is nil has none.
use kapp.Prelude.{
  String, ℕ, suc, ℤ, pos, negsuc, Bool, true, false, ◌||◌, List, [], ◌∷◌, ◌++◌, Option, none, some,
  inl, inr, lookup, if◌then◌else◌, Result, ok, err, panic, ◌>>=◌, wrap_err,
}
use kapp.Resources.Json.{Json, arr, obj, Items, nil, cons, Fields, end, get_field}
use kapp.Resources.Path.{
  FieldPath, PathPartArrayIndex, PathPartRegex, contains_array_index, new_path_part_from_string,
  new_path_part_from_index,
}
use kapp.Resources.Resource.{Resource}
use kapp.Resources.Matchers.{Matcher}
use kapp.Resources.Mods.Update.{
  ModError, unexpected_non_map, unexpected_non_array, expected_map_key, ModFailed, Regexps,
  set_field, item_at, set_item, match_regex,
}
use kapp.Resources.Mods.Remove.{is_last}
use kapp.Resources.Mods.Append.{not_nil}

pub record FieldCopyMod : Type 0 where
  pub resource_matcher : Matcher
  pub path : FieldPath
  pub sources : List String

abbrev pub Sources : Type 0
Sources = List (String × Option Fields)

-- What a step leaves: the changed object, and whether something was copied.
abbrev pub Copied : Type 0
Copied = Json × Bool

abbrev pub Step : Type 0
Step = Json → Json → FieldPath → Result ModError Copied

-- typedObj[key] of a value that may be no map: a missing key as the test for the error asks for a map
-- that is not nil.
unfoldable pub field_of : String → Json → Option Json
field_of k (obj fs) = get_field k fs
field_of k v = none

obtain_index : ℤ → (Json → Result ModError (Option Json)) → Json → Result ModError (Option Json)
unfolding item_at
obtain_index (pos i) next (arr xs) = elim (item_at i xs) [ none ↦ ok none | some x ↦ next x ]
obtain_index (negsuc i) next (arr xs) = panic "index out of range"
obtain_index i next v = err (unexpected_non_array v)

obtain_array :
    PathPartArrayIndex
    → Bool
    → (Json → Result ModError (Option Json))
    → Json
    → Result ModError (Option Json)
unfolding obtain_index
obtain_array ai true next v = err expected_map_key
obtain_array ai false next v = elim ai.index [
  | some i ↦ obtain_index i next v
  | none ↦ panic "Unknown array index"
]

-- FieldCopyMod.obtainValue
unfoldable pub obtain_value : FieldPath → Json → Result ModError (Option Json)
unfolding field_of obtain_array
obtain_value [] v = ok (some v)
obtain_value (part ∷ path) v = elim part.map_key [
  | some k ↦ elim (field_of k v) [ none ↦ ok none | some w ↦ obtain_value path w ]
  | none ↦ elim part.array_index [
    | some ai ↦ obtain_array ai (is_last path) (obtain_value path) v
    | none ↦ panic "Unexpected path part"
  ]
]

-- The value of the first source, in the order preferred, that has one.
unfoldable pub first_value : List String → Sources → FieldPath → Result ModError (Option Json)
unfolding obtain_value
first_value [] srcs full = ok none
first_value (name ∷ names) srcs full = elim (lookup name srcs) [
  | none ↦ first_value names srcs full
  | some none ↦ first_value names srcs full
  | some (some fs) ↦ obtain_value full (obj fs) >>= λ found. elim found [
    | none ↦ first_value names srcs full
    | some v ↦ ok (some v)
  ]
]

module _ (compile : Regexps) (t : FieldCopyMod) (srcs : Sources) where
  -- FieldCopyMod.copyIntoMap, whose path ends with a map key.
  unfoldable pub copy_into_map : String → Fields → FieldPath → Result ModError Copied
  unfolding first_value set_field
  copy_into_map k fs full = first_value t.sources srcs full >>= λ found. elim found [
    | none ↦ ok (obj fs, false)
    | some v ↦ ok (obj (set_field k v fs), true)
  ]

  unfoldable pub into_field :
      String → Fields → Json → Json → FieldPath → Step → Result ModError Copied
  unfolding set_field
  into_field k fs v s full next = do
    (w, updated) ← next v s full
    ok (obj (set_field k w fs), updated)

  -- Between the parts of the path; `has_index` says that the path of the call has an array index, and
  -- so nothing is created.
  unfoldable pub copy_between :
      String → Bool → Step → Fields → Fields → FieldPath → Result ModError Copied
  unfolding into_field not_nil
  copy_between k has_index next fs ss full = elim (not_nil (get_field k ss)) [
    | none ↦ ok (obj fs, false)
    | some s ↦ elim (not_nil (get_field k fs)) [
      | some v ↦ into_field k fs v s full next
      | none ↦
          let created = into_field k fs (obj end) s full next in
          if has_index then ok (obj fs, false) else created
    ]
  ]

  unfoldable pub copy_key : String → Bool → Bool → Step → Step
  unfolding copy_into_map copy_between
  copy_key k has_index true next (obj fs) (obj ss) full = copy_into_map k fs full
  copy_key k has_index false next (obj fs) (obj ss) full = copy_between k has_index next fs ss full
  copy_key k has_index last next v (obj ss) full = err (unexpected_non_map v)
  copy_key k has_index last next v s full = err (unexpected_non_map s)

  -- The item of the source for an item: an empty map where the source is too short.
  source_item : ℕ → Items → Result ModError Json
  unfolding item_at
  source_item i ss = elim (item_at i ss) [
    | none ↦ ok (obj end)
    | some (obj fs) ↦ ok (obj fs)
    | some _ ↦ panic "interface conversion"
  ]

  copy_items : ℕ → Step → Items → Items → FieldPath → Result ModError (Items × Bool)
  unfolding source_item new_path_part_from_index
  copy_items i next nil ss full = ok (nil, false)
  copy_items i next (cons x xs) ss full = do
    s ← source_item i ss
    (y, updated) ← next x s (full ++ new_path_part_from_index (pos i) ∷ [])
    (ys, any_updated) ← copy_items (suc i) next xs ss full
    ok (cons y ys, updated || any_updated)

  copy_all : Step → Step
  unfolding copy_items
  copy_all next (arr xs) (arr ss) full = do
    (ys, updated) ← copy_items 0 next xs ss full
    ok (arr ys, updated)
  copy_all next (arr xs) s full = err (unexpected_non_array s)
  copy_all next v s full = err (unexpected_non_array v)

  -- An item that the source does not have is read out of range.
  copy_at : ℕ → Step → Items → Items → FieldPath → Result ModError Copied
  unfolding item_at set_item
  copy_at i next xs ss full = elim (item_at i xs) [
    | none ↦ ok (arr xs, false)
    | some x ↦ elim (item_at i ss) [
      | none ↦ panic "index out of range"
      | some s ↦ do (y, updated) ← next x s full; ok (arr (set_item i y xs), updated)
    ]
  ]

  copy_one : ℤ → Step → Step
  unfolding copy_at
  copy_one (pos i) next (arr xs) (arr ss) full = copy_at i next xs ss full
  copy_one (negsuc i) next (arr xs) (arr ss) full = panic "index out of range"
  copy_one i next (arr xs) s full = err (unexpected_non_array s)
  copy_one i next v s full = err (unexpected_non_array v)

  -- `full` is without the part, and `full'` is with it.
  copy_array :
      PathPartArrayIndex → FieldPath → Step → Json → Json → FieldPath → Result ModError Copied
  unfolding copy_all copy_one
  copy_array ai full next v s full' = elim ai.all [
    | some _ ↦ copy_all next v s full
    | none ↦ elim ai.index [
      | some i ↦ copy_one i next v s full'
      | none ↦ panic "Unknown array index"
    ]
  ]

  copy_keys : List String → Bool → Bool → Step → Json → Json → FieldPath → Result ModError Copied
  unfolding copy_key new_path_part_from_string
  copy_keys [] has_index last next v s full = ok (v, false)
  copy_keys (k ∷ ks) has_index last next v s full = do
    (w, updated) ← copy_key k has_index last next v s (full ++ new_path_part_from_string k ∷ [])
    (w', any_updated) ← copy_keys ks has_index last next w s full
    ok (w', updated || any_updated)

  copy_regex : PathPartRegex → Bool → Bool → Step → Step
  unfolding copy_keys match_regex
  copy_regex r has_index last next v s full = elim r.regex [
    | none ↦ panic "Regex should be non nil"
    | some text ↦ elim (match_regex compile text s) [
      | inl e ↦ err e
      | inr keys ↦ copy_keys keys has_index last next v s full
    ]
  ]

  -- The loop of a call of apply; `has_index` is asked of the whole path of the call.
  unfoldable pub copy_from : Bool → FieldPath → Step
  unfolding copy_key copy_array copy_regex contains_array_index
  copy_from has_index [] v s full = panic "unreachable"
  copy_from has_index (part ∷ path) v s full = elim part.map_key [
    | some k ↦
        copy_key k has_index (is_last path) (copy_from has_index path) v s (full ++ part ∷ [])
    | none ↦ elim part.array_index [
      | some ai ↦
          let rest =
            copy_array ai full (copy_from (contains_array_index path) path) v s
              (full ++ part ∷ []) in
          if is_last path then err expected_map_key else rest
      | none ↦ elim part.regex [
        | some r ↦
            copy_regex r (contains_array_index path) (is_last path)
              (copy_from (contains_array_index path) path) v s full
        | none ↦ panic "Unexpected path part"
      ]
    ]
  ]

  -- FieldCopyMod.apply
  unfoldable pub copy : FieldPath → Step
  unfolding copy_from
  copy path v s full = copy_from (contains_array_index path) path v s full

  -- The loop of ApplyFromMultiple over the names of the sources, on the object of the resource.
  unfoldable pub copy_sources : List String → Json → Result ModError Json
  unfolding copy
  copy_sources [] v = ok v
  copy_sources (name ∷ names) v = elim (lookup name srcs) [
    | none ↦ copy_sources names v
    | some none ↦ panic "nil pointer dereference"
    | some (some fs) ↦
        copy t.path v (obj fs) [] >>= λ (w, updated). copy_sources names (if updated then w else v)
  ]

  -- FieldCopyMod.ApplyFromMultiple: the object that the resource then has.
  pub apply_from_multiple : Resource → Result ModFailed Json
  unfolding copy_sources
  apply_from_multiple res =
      wrap_err
        (λ e. record {
          mod_name = "FieldCopyMod";
          path = t.path;
          description = res.description;
          cause = e;
        })
        (copy_sources t.sources (obj res.object))
