-- ===== src/DiffGraph/GroupName.antt =====
-- change_group_name.go: placeholders in the names of groups. With it the part of
-- resourcesmisc/api_extensions_vx_crd.go that names a custom resource.
use Prim.Native.Char.{Char}
use Prim.Native.String.{◌++◌}
use kapp.Prelude.{
  String, ℕ, zero, suc, List, [], ◌∷◌, Bool, ◌&&◌, Option, none, some, str_eq, is_empty, char_eq,
  lookup, if◌then◌else◌, Result, ok, err, ◌>>=◌,
}
use kapp.Resources.Resource.{Resource}
use kapp.DiffGraph.Errors.{Error, unknown_placeholder, empty_placeholder, Vendored}

-- NewAPIExtensionsVxCRD(res) != nil
unfoldable pub is_crd : Resource → Bool
is_crd res =
    str_eq res.api_group "apiextensions.k8s.io" && str_eq res.kind "CustomResourceDefinition"

abbrev open_brace : Char
open_brace = "{"

abbrev close_brace : Char
close_brace = "}"

abbrev newline : Char
newline = "\n"

-- What `.*?}` matches.
upto_close : String → Option String
upto_close String.[] = none
upto_close (String.◌∷◌ c s) =
    let rest = upto_close s in
    if char_eq c close_brace
    then some "}"
    else if char_eq c newline
    then none
    else elim rest [ none ↦ none | some t ↦ some (String.◌∷◌ c t) ]

after_open : String → Option String
unfolding upto_close
after_open String.[] = none
after_open (String.◌∷◌ c s) =
    if char_eq c newline
    then none
    else elim (upto_close s) [ none ↦ none | some t ↦ some (String.◌∷◌ c t) ]

-- The match of `{.+?}` that starts at the head of the text, less its opening brace.
unfoldable pub placeholder_at : Char → String → Option String
unfolding after_open
placeholder_at c s = if char_eq c open_brace then after_open s else none

unfoldable pub chars : String → ℕ
chars String.[] = 0
chars (String.◌∷◌ c s) = suc (chars s)

abbrev pub Values : Type 0
Values = List (String × String)

unfoldable pub value_of : Values → String → String
value_of values placeholder = elim (lookup placeholder values) [ none ↦ "" | some value ↦ value ]

-- The two tests on a placeholder, in order: what the second finds overwrites the error of the first.
unfoldable pub placeholder_err : Values → String → Option Error
unfolding value_of
placeholder_err values placeholder =
    let found_err : Option Error = elim (lookup placeholder values) [
      | none ↦ some (unknown_placeholder placeholder)
      | some _ ↦ none
    ] in
    if is_empty (value_of values placeholder)
    then some (empty_placeholder placeholder)
    else found_err

-- The error variable is assigned at each placeholder that fails, so the last one stays.
unfoldable pub later : Option Error → Option Error → Option Error
later first none = first
later first (some e) = some e

-- ReplaceAllStringFunc: the text with its placeholders replaced, and the error variable. The number
-- counts the characters of a match that are still to be passed over.
unfoldable pub replace : Values → ℕ → String → String × Option Error
unfolding placeholder_at placeholder_err value_of later chars
replace values skip String.[] = ("", none)
replace values (suc skip) (String.◌∷◌ c s) = replace values skip s
replace values zero (String.◌∷◌ c s) = elim (placeholder_at c s) [
  | none ↦ let (text, e) = replace values zero s in (String.◌∷◌ c text, e)
  | some tail ↦
      let placeholder = String.◌∷◌ c tail in
      let (text, e) = replace values (chars tail) s in
      (value_of values placeholder ++ text, later (placeholder_err values placeholder) e)
]

unfoldable pub finish : String × Option Error → Result Error String
finish (text, none) = ok text
finish (text, some e) = err e

module _ (v : Vendored) where
  -- The kind and the group that a custom resource definition defines.
  crd_names : Resource → Result Error (String × String)
  crd_names res =
      if is_crd res
      then (do
        kind ← v.crd_contents res
        group ← v.crd_contents res
        ok (kind.names_kind, group.group))
      else ok ("", "")

  unfoldable pub values_for : Resource → String × String → Values
  values_for res (crd_kind, crd_group) =
      ("{api-group}", res.api_group)
      ∷ ("{kind}", res.kind)
      ∷ ("{name}", res.name)
      ∷ ("{namespace}", res.namespace)
      ∷ ("{crd-kind}", crd_kind)
      ∷ ("{crd-group}", crd_group)
      ∷ []

  unfoldable pub as_string : String → Resource → Result Error String
  unfolding crd_names values_for replace finish is_crd
  as_string name res = do names ← crd_names res; finish (replace (values_for res names) zero name)
