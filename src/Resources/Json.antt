-- ===== src/Resources/Json.antt =====
-- A decoded object: the values that `map[string]interface{}` holds. A number is kept by its text.
use kapp.Prelude.{String, Bool, List, Option, none, some, [], ◌∷◌, str_eq, if◌then◌else◌}

mutual
  pub data Json : Type 0 where
    null : Json
    bool : Bool → Json
    num : String → Json
    str : String → Json
    arr : Items → Json
    obj : Fields → Json

  pub data Items : Type 0 where
    nil : Items
    cons : Json → Items → Items

  pub data Fields : Type 0 where
    end : Fields
    field : String → Json → Fields → Fields

-- typedObj[key]
unfoldable pub get_field : String → Fields → Option Json
get_field k end = none
get_field k (field j v fs) = if str_eq j k then some v else get_field k fs

abbrev pub to_list : Items → List Json
to_list nil = []
to_list (cons x xs) = x ∷ to_list xs
