-- ===== src/ClusterApply/Strategies.antt =====
-- add_or_update_change.go, delete_change.go: the strategies and what chooses them.
use kapp.Prelude.{
  String, Bool, ◌&&◌, [], ◌∷◌, none, some, if◌then◌else◌, Result, ok, err, str_eq, lookup,
  elem_text,
}
use kapp.Resources.Resource.{Resource}
use kapp.ClusterApply.Ops.{
  DiffOp, change_add, change_update, change_noop, change_delete, change_keep, change_exists,
  change_unknown,
}
use kapp.ClusterApply.Calls.{
  Diff, StrategyError, unknown_create, unknown_delete, unknown_add_or_update, unknown_update,
}

pub data Strategy : Type 0 where
  add_plain add_or_fallback_on_update add_or_fallback_on_update_or_noop : Resource → Strategy
  update_plain update_or_fallback_on_replace : Resource → Strategy
  update_always_replace update_skip noop_strategy : Strategy
  delete_plain delete_orphan exists_strategy : Resource → Strategy

-- Op() of the strategies.
unfoldable pub strategy_op : Strategy → String
strategy_op (add_plain res) = ""
strategy_op (add_or_fallback_on_update res) = "fallback-on-update"
strategy_op (add_or_fallback_on_update_or_noop res) = "fallback-on-update-or-noop"
strategy_op (update_plain res) = ""
strategy_op (update_or_fallback_on_replace res) = "fallback-on-replace"
strategy_op update_always_replace = "always-replace"
strategy_op update_skip = "skip"
strategy_op noop_strategy = ""
strategy_op (delete_plain res) = ""
strategy_op (delete_orphan res) = "orphan"
strategy_op (exists_strategy res) = ""

abbrev pub create_strategy_ann_key : String
create_strategy_ann_key = "kapp.k14s.io/create-strategy"

abbrev pub update_strategy_ann_key : String
update_strategy_ann_key = "kapp.k14s.io/update-strategy"

abbrev pub delete_strategy_ann_key : String
delete_strategy_ann_key = "kapp.k14s.io/delete-strategy"

abbrev pub annotation_or : String → String → Resource → String
annotation_or other key res = elim (lookup key res.annotations) [ none ↦ other | some s ↦ s ]

unfoldable pub create_strategy : Resource → String → Result StrategyError Strategy
create_strategy res s =
    if str_eq s ""
    then ok (add_plain res)
    else if str_eq s "fallback-on-update"
    then ok (add_or_fallback_on_update res)
    else if str_eq s "fallback-on-update-or-noop"
    then ok (add_or_fallback_on_update_or_noop res)
    else err (unknown_create s)

unfoldable pub update_strategy : Resource → String → Result StrategyError Strategy
update_strategy res s =
    if str_eq s ""
    then ok (update_plain res)
    else if str_eq s "fallback-on-replace"
    then ok (update_or_fallback_on_replace res)
    else if str_eq s "always-replace"
    then ok update_always_replace
    else if str_eq s "skip"
    then ok update_skip
    else err (unknown_update s)

unfoldable pub op_text : DiffOp → String
op_text change_add = "add"
op_text change_delete = "delete"
op_text change_update = "update"
op_text change_keep = "keep"
op_text change_exists = "exists"
op_text change_noop = "noop"
op_text (change_unknown op) = op

-- AddOrUpdateChange.ApplyStrategy, with the strategy that updates have by default.
unfoldable pub add_or_update_strategy : String → Diff → DiffOp → Result StrategyError Strategy
unfolding create_strategy update_strategy op_text
add_or_update_strategy default_update d change_add =
    create_strategy d.new_resource (annotation_or "" create_strategy_ann_key d.new_resource)
add_or_update_strategy default_update d change_update =
    update_strategy d.new_resource
      (annotation_or default_update update_strategy_ann_key d.new_resource)
add_or_update_strategy default_update d op = err (unknown_add_or_update (op_text op))

-- isInoperableResource
unfoldable pub is_inoperable_resource : Resource → Bool
is_inoperable_resource res =
    str_eq res.api_group ""
    && str_eq res.kind "Namespace"
    && elem_text res.name ("default" ∷ "kube-node-lease" ∷ "kube-public" ∷ "kube-system" ∷ [])

-- DeleteChange.ApplyStrategy
unfoldable pub delete_strategy : Resource → Result StrategyError Strategy
unfolding is_inoperable_resource
delete_strategy res =
    let s = annotation_or "" delete_strategy_ann_key res in
    if is_inoperable_resource res
    then ok (delete_orphan res)
    else if str_eq s ""
    then ok (delete_plain res)
    else if str_eq s "orphan"
    then ok (delete_orphan res)
    else err (unknown_delete s)
