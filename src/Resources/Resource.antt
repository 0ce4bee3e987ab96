-- ===== src/Resources/Resource.antt =====
-- resource.go. `Resource` is the interface: what its methods return. `ResourceImpl` holds what the
-- accessors of the Kubernetes object return, and `as_resource` is its implementation of the
-- interface; it has no value where `GroupVersion` panics.
use kapp.Prelude.{String, Bool, List, [], ◌∷◌, Option, none, some, is_empty, if◌then◌else◌, split}
use kapp.Resources.Json.{Json, obj, Fields, get_field}
use Prim.Native.String.{◌++◌}
use Prim.Native.Char.{Char}

pub record Resource : Type 0 where
  pub kind : String
  pub api_version : String
  pub api_group : String
  pub namespace : String
  pub name : String
  pub description : String
  pub annotations : List (String × String)
  pub labels : List (String × String)
  pub finalizers : List String
  pub is_deleting : Bool
  pub uid : String
  pub transient : Bool
  pub origin : String
  pub object : Fields

pub record ResourceImpl : Type 0 where
  pub un_kind : String
  pub un_api_version : String
  pub un_namespace : String
  pub un_name : String
  pub un_generate_name : String
  pub un_annotations : List (String × String)
  pub un_labels : List (String × String)
  pub un_finalizers : List String
  pub un_has_deletion_timestamp : Bool
  pub un_uid : String
  pub un_object : Fields
  pub transient : Bool
  pub origin : String

pub record GroupVersion : Type 0 where
  pub group : String
  pub version : String

abbrev slash : Char
slash = "/"

of_pieces : List String → Option GroupVersion
of_pieces [] = none
of_pieces (version ∷ []) = some (record { group = ""; version = version })
of_pieces (group ∷ version ∷ []) = some (record { group = group; version = version })
of_pieces (_ ∷ _ ∷ _ ∷ _) = none

-- `none` where the source panics. `split` returns one piece at least.
unfoldable pub group_version : ResourceImpl → Option GroupVersion
unfolding of_pieces split
group_version r = of_pieces (split slash r.un_api_version)

unfoldable pub name : ResourceImpl → String
name r =
    if is_empty r.un_name
    then (if is_empty r.un_generate_name then "" else r.un_generate_name ++ "*")
    else r.un_name

-- `to_lower` is `strings.ToLower`.
unfoldable pub description : (String → String) → ResourceImpl → String
unfolding name
description to_lower r =
    to_lower r.un_kind
    ++ "/"
    ++ name r
    ++ " ("
    ++ r.un_api_version
    ++ ")"
    ++ (if is_empty r.un_namespace then " cluster" else " namespace: " ++ r.un_namespace)

unfoldable pub as_resource : (String → String) → ResourceImpl → Option Resource
unfolding group_version name description
as_resource to_lower r = elim (group_version r) [
  | none ↦ none
  | some gv ↦ some (record {
    kind = r.un_kind;
    api_version = r.un_api_version;
    api_group = gv.group;
    namespace = r.un_namespace;
    name = name r;
    description = description to_lower r;
    annotations = r.un_annotations;
    labels = r.un_labels;
    finalizers = r.un_finalizers;
    is_deleting = r.un_has_deletion_timestamp;
    uid = r.un_uid;
    transient = r.transient;
    origin = r.origin;
    object = r.un_object;
  })
]

as_status : Option Json → Option Fields
as_status (some (obj fs)) = some fs
as_status (some _) = none
as_status none = none

-- Status(): `none` is the nil map.
unfoldable pub status : Resource → Option Fields
unfolding as_status
status r = as_status (get_field "status" r.object)
