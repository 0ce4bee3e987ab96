-- ===== src/Resources/Unique.antt =====
-- unique_resources.go. The map `uniqRs` is a list of its entries; `equal` is `Resource.Equal`, which
-- compares decoded objects by the reflection of the language.
use kapp.Prelude.{
  String, Bool, List, [], ◌∷◌, none, some, is_empty, lookup, elem_text, if◌then◌else◌, Option, join,
}
use Prim.Native.String.{◌++◌}
use kapp.Resources.Resource.{Resource}

-- UniqueResourceKey.String
unfoldable pub key_with_custom_name : Resource → String → String
key_with_custom_name res custom_name =
    res.namespace
    ++ "/"
    ++ res.api_group
    ++ "/"
    ++ res.kind
    ++ "/"
    ++ (if is_empty custom_name then res.name else custom_name)

unfoldable pub unique_key : Resource → String
unfolding key_with_custom_name
unique_key res = key_with_custom_name res ""

unfoldable pub duplicate_msg : Resource → String
duplicate_msg res =
    "Found resource '" ++ res.description ++ "' multiple times with different content"

module _ (equal : Resource → Resource → Bool) where
  -- The loop of Resources: the resources kept, in order, and the messages of the errors.
  unfoldable pub unique_loop :
      List (String × Resource) → List Resource → List Resource × List String
  unfolding unique_key duplicate_msg
  unique_loop seen [] = ([], [])
  unique_loop seen (res ∷ rs) = elim (lookup (unique_key res) seen) [
    | some known ↦
        let (kept, msgs) = unique_loop seen rs in
        (kept, if equal known res then msgs else duplicate_msg res ∷ msgs)
    | none ↦ let (kept, msgs) = unique_loop ((unique_key res, res) ∷ seen) rs in (res ∷ kept, msgs)
  ]

  unfoldable pub unique_resources : List Resource → List Resource × List String
  unfolding unique_loop
  unique_resources rs = unique_loop [] rs

unfoldable pub keys_of : List Resource → List String
unfolding unique_key
keys_of [] = []
keys_of (res ∷ rs) = unique_key res ∷ keys_of rs

-- UniqueResources.Match
unfoldable pub match_keys : List String → List Resource → List Resource
unfolding unique_key
match_keys keys [] = []
match_keys keys (res ∷ rs) =
    let rest = match_keys keys rs in if elem_text (unique_key res) keys then res ∷ rest else rest

unfoldable pub match_resources : List Resource → List Resource → List Resource
unfolding keys_of match_keys
match_resources rs new_resources = match_keys (keys_of new_resources) rs

-- UniqueResources.combinedErr
unfoldable pub combined_err : List String → Option String
combined_err [] = none
combined_err (m ∷ ms) = some ("Uniqueness errors:\n- " ++ join "\n- " (m ∷ ms))
