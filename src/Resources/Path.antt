-- ===== src/Resources/Path.antt =====
-- mod_path.go: a path into an object. The pointers of a part are options.
use kapp.Prelude.{
  String, ℤ, Bool, true, false, List, [], ◌∷◌, Option, none, some, map, Result, ok, panic, ◌>>=◌,
}

pub record PathPartArrayIndex : Type 0 where
  pub index : Option ℤ
  pub all : Option Bool

pub record PathPartRegex : Type 0 where
  pub regex : Option String

pub record PathPart : Type 0 where
  pub map_key : Option String
  pub regex : Option PathPartRegex
  pub array_index : Option PathPartArrayIndex

abbrev pub FieldPath : Type 0
FieldPath = List PathPart

unfoldable pub new_path_part_from_string : String → PathPart
new_path_part_from_string s = record { map_key = some s; regex = none; array_index = none }

unfoldable pub new_path_part_from_index : ℤ → PathPart
new_path_part_from_index i = record {
  map_key = none;
  regex = none;
  array_index = some (record { index = some i; all = none });
}

unfoldable pub new_path_part_from_index_all : PathPart
new_path_part_from_index_all = record {
  map_key = none;
  regex = none;
  array_index = some (record { index = none; all = some true });
}

unfoldable pub new_path_from_strings : List String → FieldPath
unfolding new_path_part_from_string
new_path_from_strings strs = map new_path_part_from_string strs

module _ {E : Type 0} where
  as_strings_part : PathPart → Result E String
  as_strings_part part = elim part.map_key [
    | none ↦ panic "Unexpected non-map-key path part"
    | some key ↦ ok key
  ]

  unfoldable pub as_strings : FieldPath → Result E (List String)
  unfolding as_strings_part
  as_strings [] = ok []
  as_strings (part ∷ path) = do key ← as_strings_part part; keys ← as_strings path; ok (key ∷ keys)

unfoldable pub contains_non_map_keys : FieldPath → Bool
contains_non_map_keys [] = false
contains_non_map_keys (part ∷ path) = elim part.map_key [
  | none ↦ true
  | some _ ↦ contains_non_map_keys path
]

unfoldable pub contains_array_index : FieldPath → Bool
contains_array_index [] = false
contains_array_index (part ∷ path) = elim part.array_index [
  | none ↦ contains_array_index path
  | some _ ↦ true
]
