-- ===== src/DiffGraph/Group.antt =====
-- change_group.go
use kapp.Prelude.{
  String, List, [], ◌∷◌, Bool, not, str_eq, is_empty, contains, select, if◌then◌else◌, Result, ok,
  err, ◌>>=◌,
}
use kapp.DiffGraph.Errors.{Error, empty_group_name, not_a_qualified_name, Vendored}

pub record ChangeGroup : Type 0 where
  pub name : String

unfoldable pub is_equal : ChangeGroup → ChangeGroup → Bool
is_equal r other = str_eq r.name other.name

module _ (v : Vendored) where
  open v use {is_qualified_name, max_len_error}

  -- 63 is `DNS1035LabelMaxLength`.
  unfoldable pub is_qualified_name_without_len : String → List String
  is_qualified_name_without_len name =
      select (λ e. not (contains e (max_len_error 63))) (is_qualified_name name)

  no_errors : String → List String → Result Error (Unit {0})
  no_errors name [] = ok tt
  no_errors name (e ∷ es) = err (not_a_qualified_name name (e ∷ es))

  unfoldable pub validate : ChangeGroup → Result Error (Unit {0})
  unfolding no_errors is_qualified_name_without_len
  validate r =
      if is_empty r.name
      then err empty_group_name
      else no_errors r.name (is_qualified_name_without_len r.name)

  unfoldable pub new_change_group_from_ann_string : String → Result Error ChangeGroup
  unfolding validate
  new_change_group_from_ann_string ann =
      let key : ChangeGroup = record { name = ann } in validate key >>= λ _. ok key
