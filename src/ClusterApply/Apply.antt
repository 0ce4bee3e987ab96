-- ===== src/ClusterApply/Apply.antt =====
-- cluster_change.go: Apply, with the choice of the strategy, and the texts of errors.
-- A change `c` is applied with what its difference `d` returns.
-- The texts of errors are those for arguments without `%`. `Texts` holds the regular expression for failing conversion webhooks, the error formatting of the
-- package errors, and the prefix in its color; the hints are in the order in which the map is visited.
use kapp.Prelude.{
  String, ℕ, Bool, true, false, ◌||◌, List, [], ◌∷◌, Option, none, some, if◌then◌else◌, Result, ok,
  err, panic, out_of_fuel, contains,
}
use Prim.Native.String.{◌++◌}
use kapp.ClusterApply.Ops.{
  ClusterChange, ApplyOp, apply_add, apply_delete, apply_update, apply_noop, apply_exists, apply_op,
}
use kapp.ClusterApply.Calls.{
  Diff, Cluster, Differ, StrategyError, Call, Run, api, calculation, not_one_change, not_an_update,
  not_an_update_or_noop, noop_not_allowed, no_longer_matches, update_tried, after_create_tried,
  change_after_save, recording_last_applied, saving_record, unknown_create, unknown_update,
  unknown_delete, unknown_add_or_update, does_not_exist,
}
use kapp.ClusterApply.Strategies.{
  Strategy, noop_strategy, exists_strategy, add_or_update_strategy, delete_strategy,
}
use kapp.ClusterApply.Runs.{run_strategy}

unfoldable pub error_text : StrategyError → String
error_text (api e) = e.text
error_text (calculation e) = e
error_text not_one_change = "Expected exactly one change when recalculating conflicting change"
error_text not_an_update = "Expected recalculated change to be an update"
error_text not_an_update_or_noop = "Expected recalculated change to be an update or noop"
error_text noop_not_allowed =
    "Recalculated change was a noop but those are not allowed (try adding annotation kapp.k14s.io/create-strategy: fallback-on-update-or-noop)"
error_text (no_longer_matches e none) =
    "Failed to update due to resource conflict (approved diff no longer matches): " ++ e.text
error_text (no_longer_matches e (some text_diff)) =
    "Failed to update due to resource conflict (approved diff no longer matches): " ++ e.text
    ++ ": Recalculated diff:\n" ++ text_diff
error_text (update_tried e) =
    "Failed to update due to resource conflict (tried multiple times): " ++ e.text
error_text (after_create_tried none) =
    "Failed to update (after trying to create) due to resource conflict (tried multiple times): %!s(<nil>)"
error_text (after_create_tried (some e)) =
    "Failed to update (after trying to create) due to resource conflict (tried multiple times): "
    ++ e.text
error_text (change_after_save e) = "Calculating change after the save: " ++ e
error_text (recording_last_applied e) = "Recording last applied resource: " ++ e
error_text (saving_record e) = "Saving record of last applied resource: " ++ e.text
error_text (unknown_create s) = "Unknown create strategy: " ++ s
error_text (unknown_update s) = "Unknown update strategy: " ++ s
error_text (unknown_delete s) = "Unknown delete strategy: " ++ s
error_text (unknown_add_or_update op) = "Unknown add-or-update op: " ++ op
error_text does_not_exist = "External resource doesn't exists"

pub record Texts : Type 0 where
  pub conversion_webhook_failed : String → Bool
  pub semi_structured : String → String
  pub ui_wait_msg_prefix : String
  pub hintable_errs : List (String × String)

-- IsResourceChangeBlockedErr
unfoldable pub is_resource_change_blocked_err : (String → Bool) → String → Bool
is_resource_change_blocked_err conversion_webhook_failed msg =
    contains msg "Internal error occurred: failed calling admission webhook"
    || contains msg "Internal error occurred: failed calling webhook"
    || conversion_webhook_failed msg

-- applyOpCodeUI
unfoldable pub apply_op_code_ui : ApplyOp → String
apply_op_code_ui apply_add = "create"
apply_op_code_ui apply_delete = "delete"
apply_op_code_ui apply_update = "update"
apply_op_code_ui apply_noop = "noop"
apply_op_code_ui apply_exists = "exists"

unfoldable pub apply_description : ClusterChange → ApplyOp → String
unfolding apply_op_code_ui
apply_description c op = apply_op_code_ui op ++ " " ++ c.change.new_or_existing_resource.description

unfoldable pub strategy_for : String → Diff → ApplyOp → Result StrategyError Strategy
unfolding add_or_update_strategy delete_strategy
strategy_for default_update d apply_add = add_or_update_strategy default_update d d.change.op
strategy_for default_update d apply_update = add_or_update_strategy default_update d d.change.op
strategy_for default_update d apply_delete = delete_strategy d.existing_resource
strategy_for default_update d apply_noop = ok noop_strategy
strategy_for default_update d apply_exists = ok (exists_strategy d.new_resource)

hint_msg : String → List (String × String) → String
hint_msg msg [] = ""
hint_msg msg ((err_text, hint_text) ∷ hints) =
    let rest = hint_msg msg hints in
    if contains msg err_text then " (hint: " ++ hint_text ++ ")" else rest

-- The results of Apply.
pub record ApplyReply : Type 0 where
  pub retryable : Bool
  pub desc_msgs : List String
  pub error : Option String

module _ (texts : Texts) where
  -- applyErr of an error
  unfoldable pub apply_err : String → StrategyError → String
  unfolding hint_msg error_text
  apply_err descr e =
      descr
      ++ ": "
      ++ texts.semi_structured (error_text e)
      ++ hint_msg (error_text e) texts.hintable_errs

  unfoldable pub is_retryable : StrategyError → Bool
  unfolding is_resource_change_blocked_err error_text
  is_retryable does_not_exist = true
  is_retryable e = is_resource_change_blocked_err texts.conversion_webhook_failed (error_text e)

  unfoldable pub failed_reply : String → StrategyError → ApplyReply
  unfolding apply_err is_retryable error_text
  failed_reply descr e = record {
    retryable = is_retryable e;
    desc_msgs =
        descr
        ∷ (if is_retryable e
            then (texts.ui_wait_msg_prefix ++ "Retryable error: " ++ error_text e) ∷ []
            else []);
    error = some (apply_err descr e);
  }

  abbrev pub applied_reply : String → ApplyReply
  applied_reply descr = record { retryable = false; desc_msgs = descr ∷ []; error = none }

  -- Without the context that applyErr adds.
  unfoldable pub unchosen_reply : String → StrategyError → ApplyReply
  unfolding error_text
  unchosen_reply descr e = record {
    retryable = false;
    desc_msgs = descr ∷ [];
    error = some (error_text e);
  }

  unfoldable pub reply_to :
      String → Result StrategyError Unit × List Call → Result StrategyError ApplyReply × List Call
  unfolding failed_reply
  reply_to descr (ok u, calls) = (ok (applied_reply descr), calls)
  reply_to descr (err e, calls) = (ok (failed_reply descr e), calls)
  reply_to descr (panic m, calls) = (panic m, calls)
  reply_to descr (out_of_fuel, calls) = (out_of_fuel, calls)

  module _ (cluster : Cluster) (differ : Differ) (polls fuel : ℕ) (default_update : String)
      (d : Diff) where
    unfoldable pub run_chosen : String → Result StrategyError Strategy → Run ApplyReply
    unfolding run_strategy reply_to unchosen_reply
    run_chosen descr (ok s) calls =
        reply_to descr (run_strategy cluster differ polls d fuel s calls)
    run_chosen descr (err e) calls = (ok (unchosen_reply descr e), calls)
    run_chosen descr (panic m) calls = (panic m, calls)
    run_chosen descr out_of_fuel calls = (out_of_fuel, calls)

    unfoldable pub apply_with : ClusterChange → Result StrategyError ApplyOp → Run ApplyReply
    unfolding run_chosen apply_description strategy_for
    apply_with c (ok op) calls =
        run_chosen (apply_description c op) (strategy_for default_update d op) calls
    apply_with c (err e) calls = (err e, calls)
    apply_with c (panic m) calls = (panic m, calls)
    apply_with c out_of_fuel calls = (out_of_fuel, calls)

    -- ClusterChange.Apply
    unfoldable pub apply : ClusterChange → Run ApplyReply
    unfolding apply_with apply_op
    apply c = apply_with c (apply_op c)
