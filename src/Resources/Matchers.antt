-- ===== src/Resources/Matchers.antt =====
-- matchers.go, matcher_empty_field.go. The implementations of `ResourceMatcher` are the constructors
-- of `Matcher`. `EmptyFieldMatcher` panics at a path part that it does not know.
use kapp.Prelude.{
  String, ℕ, zero, suc, ℤ, pos, negsuc, Bool, true, false, not, ◌&&◌, List, [], ◌∷◌, Option, none,
  some, str_eq, is_empty, elem_text, lookup, if◌then◌else◌, Result, ok, panic, ◌>>=◌,
}
use kapp.Resources.Json.{Json, null, arr, obj, Items, nil, cons, end, get_field}
use kapp.Resources.Path.{FieldPath, PathPart, PathPartArrayIndex}
use kapp.Resources.Resource.{Resource}

mutual
  pub data Matcher : Type 0 where
    api_group_kind : String → String → Matcher
    api_version_kind : String → String → Matcher
    kind_namespace_name : String → String → String → Matcher
    all_matcher : Matcher
    any_matcher : Matchers → Matcher
    not_matcher : Matcher → Matcher
    and_matcher : Matchers → Matcher
    has_annotation : List String → Matcher
    has_namespace : List String → Matcher
    custom_resource : Matcher
    empty_field : FieldPath → Matcher

  pub data Matchers : Type 0 where
    no_matchers : Matchers
    add_matcher : Matcher → Matchers → Matchers

abbrev pub builtin_api_groups : List String
builtin_api_groups =
    "" ∷ "admissionregistration.k8s.io" ∷ "apiextensions.k8s.io" ∷ "apiregistration.k8s.io" ∷ "apps"
    ∷ "authentication.k8s.io" ∷ "authorization.k8s.io" ∷ "autoscaling" ∷ "batch"
    ∷ "certificates.k8s.io" ∷ "coordination.k8s.io" ∷ "discovery.k8s.io" ∷ "events.k8s.io"
    ∷ "extensions" ∷ "flowcontrol.apiserver.k8s.io" ∷ "internal.apiserver.k8s.io" ∷ "metrics.k8s.io"
    ∷ "migration.k8s.io" ∷ "networking.k8s.io" ∷ "node.k8s.io" ∷ "policy"
    ∷ "rbac.authorization.k8s.io" ∷ "scheduling.k8s.io" ∷ "storage.k8s.io" ∷ []

has_annotations : List (String × String) → List String → Bool
has_annotations anns [] = true
has_annotations anns (key ∷ keys) = elim (lookup key anns) [
  | none ↦ false
  | some _ ↦ has_annotations anns keys
]

namespace_listed : String → List String → Bool
namespace_listed res_ns [] = true
namespace_listed res_ns (n ∷ names) = elem_text res_ns (n ∷ names)

is_null : Json → Bool
is_null null = true
is_null _ = false

is_empty_value : Json → Bool
is_empty_value null = true
is_empty_value (arr nil) = true
is_empty_value (obj end) = true
is_empty_value _ = false

nth : ℕ → Items → Option Json
nth i nil = none
nth zero (cons x xs) = some x
nth (suc i) (cons x xs) = nth i xs

module _ {E : Type 0} where
  -- The loop over the items of an array: the first that is not empty ends it.
  all_empty : (Json → Result E Bool) → Items → Result E Bool
  all_empty check nil = ok true
  all_empty check (cons x xs) =
      let rest = all_empty check xs in check x >>= λ empty. if empty then rest else ok false

  -- The step into a map, or `obj == nil` where the value is no map.
  check_key : String → (Json → Result E Bool) → Json → Result E Bool
  unfolding is_null
  check_key k check (obj fs) = elim (get_field k fs) [ none ↦ ok true | some v ↦ check v ]
  check_key k check v = ok (is_null v)

  check_index : ℤ → (Json → Result E Bool) → Json → Result E Bool
  unfolding is_null nth
  check_index (pos i) check (arr xs) = elim (nth i xs) [ none ↦ ok true | some v ↦ check v ]
  check_index (negsuc i) check (arr xs) = panic "index out of range"
  check_index i check v = ok (is_null v)

  check_all : (Json → Result E Bool) → Json → Result E Bool
  unfolding is_null all_empty
  check_all check (arr xs) = all_empty check xs
  check_all check v = ok (is_null v)

  check_array : PathPartArrayIndex → (Json → Result E Bool) → Json → Result E Bool
  unfolding check_all check_index
  check_array ai check v = elim ai.all [
    | some _ ↦ check_all check v
    | none ↦ elim ai.index [ some i ↦ check_index i check v | none ↦ panic "Unknown array index" ]
  ]

  check_part : PathPart → (Json → Result E Bool) → Json → Result E Bool
  unfolding check_key check_array
  check_part part check v = elim part.map_key [
    | some k ↦ check_key k check v
    | none ↦ elim part.array_index [
      | some ai ↦ check_array ai check v
      | none ↦ panic "Unexpected path part"
    ]
  ]

  -- EmptyFieldMatcher.check
  unfoldable pub check_empty : FieldPath → Json → Result E Bool
  unfolding check_part is_empty_value
  check_empty [] v = ok (is_empty_value v)
  check_empty (part ∷ path) v = check_part part (check_empty path) v

module _ {E : Type 0} (res : Resource) where
  unfoldable mutual
    unfolding has_annotations namespace_listed check_empty

    pub matches : Matcher → Result E Bool
    matches (api_group_kind group kind) = ok (str_eq res.api_group group && str_eq res.kind kind)
    matches (api_version_kind version kind) =
        ok (str_eq res.api_version version && str_eq res.kind kind)
    matches (kind_namespace_name kind namespace name) =
        ok (str_eq res.kind kind && str_eq res.namespace namespace && str_eq res.name name)
    matches all_matcher = ok true
    matches (any_matcher ms) = any_matches ms
    matches (not_matcher m) = matches m >>= λ b. ok (not b)
    matches (and_matcher ms) = and_matches ms
    matches (has_annotation keys) = ok (has_annotations res.annotations keys)
    matches (has_namespace names) =
        ok (if is_empty res.namespace then false else namespace_listed res.namespace names)
    matches custom_resource = ok (not (elem_text res.api_group builtin_api_groups))
    matches (empty_field path) = check_empty path (obj res.object)

    pub any_matches : Matchers → Result E Bool
    any_matches no_matchers = ok false
    any_matches (add_matcher m ms) = matches m >>= λ b. if b then ok true else any_matches ms

    pub and_matches : Matchers → Result E Bool
    and_matches no_matchers = ok true
    and_matches (add_matcher m ms) = matches m >>= λ b. if b then and_matches ms else ok false
