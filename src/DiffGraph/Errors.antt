-- ===== src/DiffGraph/Errors.antt =====
-- The errors of the change graph, one constructor for each place that makes or wraps one, and what
-- the package takes from vendored code: `validation.IsQualifiedName` with its message for a length
-- limit, and the YAML round trip by which `APIExtensionsVxCRD` reads a resource.
use kapp.Prelude.{String, ℕ, List, Result}
use kapp.Resources.Resource.{Resource}

pub data Error : Type 0 where
  empty_group_name : Error
  not_a_qualified_name : String → List String → Error
  bad_rule_format : String → Error
  unknown_rule_action unknown_rule_order unknown_rule_target_action : Error
  crd_unreadable : String → Error
  unknown_placeholder : String → Error
  empty_placeholder : String → Error
  unknown_change_operation : String → Error
  in_resource : String → Error → Error
  found_repeated : String → Error
  through : String → Error → Error
  detected_cycle : String → Error → Error
  calculating_required_deps : Error → Error
  calculating_optional_deps : Error → Error

pub record CrdObj : Type 0 where
  pub group : String
  pub names_kind : String

pub record Vendored : Type 0 where
  pub is_qualified_name : String → List String
  pub max_len_error : ℕ → String
  pub crd_contents : Resource → Result Error CrdObj
