-- ===== src/Resources/Mods/Update.antt =====
-- What the modifications share: assignments to the fields of a map and the items of an array, their
-- errors, and the keys that match a regular expression. An error holds the value whose type its text
-- shows. `Regexps` is the package regexp: the test of a compiled expression, or an error.
use kapp.Prelude.{
  String, ℕ, zero, suc, ℤ, pos, negsuc, Bool, List, [], ◌∷◌, Option, none, some, ◌⊎◌, inl, inr,
  str_eq, if◌then◌else◌, Result, ok, err, panic, ◌>>=◌,
}
use kapp.Resources.Json.{Json, arr, obj, Items, nil, cons, Fields, end, field}
use kapp.Resources.Path.{FieldPath, PathPartArrayIndex}

pub data ModError : Type 0 where
  unexpected_non_map : Json → ModError
  unexpected_non_array : Json → ModError
  expected_map_key : ModError
  bad_regex : String → ModError
  replacement_failed : String → ModError

-- fmt.Errorf("...Mod for path '%s' on resource '%s': %w")
pub record ModFailed : Type 0 where
  pub mod_name : String
  pub path : FieldPath
  pub description : String
  pub cause : ModError

abbrev pub Regexps : Type 0
Regexps = String → String ⊎ (String → Bool)

-- typedObj[key] = v
unfoldable pub set_field : String → Json → Fields → Fields
set_field k v end = field k v end
set_field k v (field j w fs) = if str_eq j k then field j v fs else field j w (set_field k v fs)

-- delete(typedObj, key)
unfoldable pub delete_field : String → Fields → Fields
delete_field k end = end
delete_field k (field j w fs) =
    let rest = delete_field k fs in if str_eq j k then rest else field j w rest

abbrev pub item_count : Items → ℕ
item_count nil = 0
item_count (cons x xs) = suc (item_count xs)

unfoldable pub item_at : ℕ → Items → Option Json
item_at i nil = none
item_at zero (cons x xs) = some x
item_at (suc i) (cons x xs) = item_at i xs

unfoldable pub set_item : ℕ → Json → Items → Items
set_item i v nil = nil
set_item zero v (cons x xs) = cons v xs
set_item (suc i) v (cons x xs) = cons x (set_item i v xs)

matched : (String → Bool) → Fields → List String
matched test end = []
matched test (field j w fs) = let rest = matched test fs in if test j then j ∷ rest else rest

matched_in : (String → Bool) → Json → List String
unfolding matched
matched_in test (obj fs) = matched test fs
matched_in test _ = []

-- matchRegexWithSrcObj: a value that is no map has no keys, since the test for the error also asks for
-- a map that is not nil.
unfoldable pub match_regex : Regexps → String → Json → ModError ⊎ List String
unfolding matched_in
match_regex compile regex v = elim (compile regex) [
  | inl e ↦ inl (bad_regex e)
  | inr test ↦ inr (matched_in test v)
]

module _ {A : Type 0} where
  -- The loop over the items of an array, which ends with the first error.
  unfoldable pub each_item : (Json → Result A Json) → Items → Result A Items
  each_item change nil = ok nil
  each_item change (cons x xs) = do y ← change x; ys ← each_item change xs; ok (cons y ys)

  at_index : ℕ → (Json → Result A Json) → Items → Result A Json
  unfolding item_at set_item
  at_index i change xs = elim (item_at i xs) [
    | none ↦ ok (arr xs)
    | some x ↦ do y ← change x; ok (arr (set_item i y xs))
  ]

  -- One item of an array; nothing where the array is too short.
  unfoldable pub change_index : ℤ → (Json → Result A Json) → Items → Result A Json
  unfolding at_index
  change_index (pos i) change xs = at_index i change xs
  change_index (negsuc i) change xs = panic "index out of range"

module _ (change : Json → Result ModError Json) where
  unfoldable pub change_all : Json → Result ModError Json
  unfolding each_item
  change_all (arr xs) = do ys ← each_item change xs; ok (arr ys)
  change_all v = err (unexpected_non_array v)

  unfoldable pub change_one : ℤ → Json → Result ModError Json
  unfolding change_index
  change_one i (arr xs) = change_index i change xs
  change_one i v = err (unexpected_non_array v)

  -- The cases of an array index, which the modifications share.
  unfoldable pub change_array : PathPartArrayIndex → Json → Result ModError Json
  unfolding change_all change_one
  change_array ai v = elim ai.all [
    | some _ ↦ change_all v
    | none ↦ elim ai.index [ some i ↦ change_one i v | none ↦ panic "Unknown array index" ]
  ]
