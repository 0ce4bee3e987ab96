-- ===== src/Resources/Tests.antt =====
-- The theorems about mods and unique resources applied to concrete objects.
use Prim.Native.String.{◌++◌}
use kapp.Prelude.{
  String, Bool, true, false, List, [], ◌∷◌, some, inl, ◌≡◌, refl, ok, elem_text, str_eq,
}
use kapp.Resources.Json.{Json, str, obj, Fields, end, field, get_field}
use kapp.Resources.Path.{new_path_from_strings}
use kapp.Resources.Resource.{Resource}
use kapp.Resources.Matchers.{all_matcher}
use kapp.Resources.Unique.{unique_resources, keys_of}
use kapp.Resources.Uniqueness.{IsDistinct, unique_resources-IsDistinct}
use kapp.Resources.Mods.Update.{Regexps}
use kapp.Resources.Mods.Remove.{remove}
use kapp.Resources.Mods.Removed.{IsRemoved, remove-keys}
use kapp.Resources.Mods.Append.{StringMapAppendMod, append, not_nil}
use kapp.Resources.Mods.Appended.{IsAppended, append-keys, IsOpen}
use kapp.Resources.Mods.Copy.{FieldCopyMod, Sources, copy}
use kapp.Resources.Mods.Copying.{IsCopied, copy-keys, LeadsOn}
use kapp.Resources.Mods.Lookup.{lookup_path}

abbrev no_regexps : Regexps
no_regexps text = inl "no regular expressions"

-- metadata: {labels: {app: web}, name: web}
abbrev metadata : Fields
metadata = field "labels" (obj (field "app" (str "web") end)) (field "name" (str "web") end)

abbrev deployment : Fields
deployment = field "metadata" (obj metadata) end

abbrev path : List String
path = "labels" ∷ "app" ∷ []

remove-keys_example :
    (w : Json) × (remove no_regexps (new_path_from_strings ("metadata" ∷ path)) (obj deployment)
      ≡ ok w)
    × IsRemoved ("metadata" ∷ path) (obj deployment) w
remove-keys_example = remove-keys no_regexps "metadata" path (obj deployment)

-- The mod creates the map of annotations.
abbrev annotate : StringMapAppendMod
annotate = record {
  resource_matcher = all_matcher;
  path = new_path_from_strings ("metadata" ∷ "annotations" ∷ []);
  skip_if_not_found = false;
  kvs = ("owner", "kapp") ∷ [];
}

append-keys_example :
    (w : Json) × (append annotate
        (new_path_from_strings ("metadata" ∷ "annotations" ∷ []))
        (obj deployment)
      ≡ ok w)
    × IsAppended annotate.kvs ("metadata" ∷ "annotations" ∷ []) (obj deployment) w
unfolding IsOpen not_nil get_field
append-keys_example =
    append-keys annotate ("metadata" ∷ "annotations" ∷ []) (obj deployment) refl tt

abbrev copy_label : FieldCopyMod
copy_label = record {
  resource_matcher = all_matcher;
  path = new_path_from_strings ("metadata" ∷ path);
  sources = "new" ∷ "existing" ∷ [];
}

abbrev existing : Fields
existing = field "metadata" (obj (field "labels" (obj (field "app" (str "old") end)) end)) end

abbrev only_existing : Sources
only_existing = ("existing", some existing) ∷ []

-- The new resource is not among the sources, so the label of the existing one is taken.
copy-keys_example :
    (w : Json) × (copy no_regexps copy_label only_existing
        (new_path_from_strings ("metadata" ∷ path))
        (obj deployment)
        (obj existing)
        []
      ≡ ok (w, true))
    × IsCopied ("metadata" ∷ path) (str "old") (obj deployment) w
unfolding LeadsOn lookup_path not_nil get_field
copy-keys_example =
    copy-keys no_regexps copy_label only_existing "metadata" path deployment existing (str "old") tt
      tt refl

abbrev config_map : String → Resource
config_map name = record {
  kind = "ConfigMap";
  api_version = "v1";
  api_group = "";
  namespace = "default";
  name = name;
  description = "configmap/" ++ name;
  annotations = [];
  labels = [];
  finalizers = [];
  is_deleting = false;
  uid = "";
  transient = false;
  origin = "";
  object = end;
}

abbrev config_maps : List Resource
config_maps = config_map "a" ∷ config_map "b" ∷ config_map "a" ∷ []

abbrev same_name : Resource → Resource → Bool
same_name r s = str_eq r.name s.name

unique_resources-IsDistinct_example :
    IsDistinct (keys_of (unique_resources same_name config_maps).0)
    × ((k : String)
        → elem_text k (keys_of (unique_resources same_name config_maps).0)
          ≡ elem_text k (keys_of config_maps))
unique_resources-IsDistinct_example = unique_resources-IsDistinct same_name config_maps
