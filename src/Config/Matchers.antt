-- ===== src/Config/Matchers.antt =====
-- resource_matchers.go: the decoded matcher, a struct of optional parts, and its conversion.
use kapp.Prelude.{String, Bool, true, false, List, Option, none, some, Result, ok, panic, ◌>>=◌}
use kapp.Resources.Path.{FieldPath}
use kapp.Resources.Matchers.{
  Matcher, api_group_kind, api_version_kind, kind_namespace_name, all_matcher, any_matcher,
  not_matcher, and_matcher, has_annotation, has_namespace, custom_resource, empty_field, Matchers,
  no_matchers, add_matcher,
}

pub record ApiGroupKind : Type 0 where
  pub api_group : String
  pub kind : String

pub record ApiVersionKind : Type 0 where
  pub api_version : String
  pub kind : String

pub record KindNamespaceName : Type 0 where
  pub kind : String
  pub namespace : String
  pub name : String

-- The parts of a matcher that hold no matcher; the pointers are options, and a flag where the
-- struct pointed to is empty.
pub record Leaves : Type 0 where
  pub api_group_kind : Option ApiGroupKind
  pub api_version_kind : Option ApiVersionKind
  pub kind_namespace_name : Option KindNamespaceName
  pub has_annotation : Option (List String)
  pub has_namespace : Option (List String)
  pub custom_resource : Bool
  pub empty_field : Option FieldPath

mutual
  -- allMatcher, anyMatcher, notMatcher, andMatcher, and the rest.
  pub data ResourceMatcher : Type 0 where
    resource_matcher : Bool → SomeMatchers → SomeMatcher → SomeMatchers → Leaves → ResourceMatcher

  pub data ResourceMatchers : Type 0 where
    nil : ResourceMatchers
    cons : ResourceMatcher → ResourceMatchers → ResourceMatchers

  pub data SomeMatchers : Type 0 where
    absent : SomeMatchers
    present : ResourceMatchers → SomeMatchers

  pub data SomeMatcher : Type 0 where
    no_matcher : SomeMatcher
    the_matcher : ResourceMatcher → SomeMatcher

module _ {E : Type 0} where
  -- The cases of the switch from `KindNamespaceNameMatcher` on.
  leaf_matcher : Leaves → Result E Matcher
  leaf_matcher l = elim l.kind_namespace_name [
    | some k ↦ ok (kind_namespace_name k.kind k.namespace k.name)
    | none ↦ elim l.api_group_kind [
      | some k ↦ ok (api_group_kind k.api_group k.kind)
      | none ↦ elim l.api_version_kind [
        | some k ↦ ok (api_version_kind k.api_version k.kind)
        | none ↦ elim l.has_annotation [
          | some keys ↦ ok (has_annotation keys)
          | none ↦ elim l.has_namespace [
            | some names ↦ ok (has_namespace names)
            | none ↦ elim l.custom_resource [
              | true ↦ ok custom_resource
              | false ↦ elim l.empty_field [
                | some path ↦ ok (empty_field path)
                | none ↦ panic "Unknown resource matcher specified"
              ]
            ]
          ]
        ]
      ]
    ]
  ]

  unfoldable mutual
    unfolding leaf_matcher

    pub as_resource_matcher : ResourceMatcher → Result E Matcher
    as_resource_matcher (resource_matcher true any_m not_m and_m l) = ok all_matcher
    as_resource_matcher (resource_matcher false (present ms) not_m and_m l) =
        as_resource_matchers ms >>= λ ms'. ok (any_matcher ms')
    as_resource_matcher (resource_matcher false absent not_m (present ms) l) =
        as_resource_matchers ms >>= λ ms'. ok (and_matcher ms')
    as_resource_matcher (resource_matcher false absent (the_matcher m) absent l) =
        as_resource_matcher m >>= λ m'. ok (not_matcher m')
    as_resource_matcher (resource_matcher false absent no_matcher absent l) = leaf_matcher l

    pub as_resource_matchers : ResourceMatchers → Result E Matchers
    as_resource_matchers nil = ok no_matchers
    as_resource_matchers (cons m ms) = do
      m' ← as_resource_matcher m
      ms' ← as_resource_matchers ms
      ok (add_matcher m' ms')
