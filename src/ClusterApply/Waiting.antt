-- ===== src/ClusterApply/Waiting.antt =====
-- waiting_changes.go. The results of the concurrent calls of `ClusterChange.IsDoneApplying` are a
-- list in the order in which the channel delivers them, each with whether the time for its resource
-- is over.
use kapp.Prelude.{
  String, ℕ, List, [], ◌∷◌, ◌++◌, Bool, true, false, Option, none, some, if◌then◌else◌, ◌⊎◌, inl,
  inr,
}
use kapp.Waiters.State.{DoneApplyState}
use kapp.ClusterApply.Applying.{
  Unsuccessful, wait_errored, finished_unsuccessfully, ApplyError, one_unsuccessful,
}

pub record WaitResult : Type 0 where
  pub change : ℕ
  pub state : DoneApplyState
  pub error : Option String
  pub resource_timed_out : Bool

unfoldable pub wait_error : WaitResult → Option String
wait_error result = elim result.error [
  | some e ↦ some e
  | none ↦ if result.resource_timed_out then some "Resource timed out waiting" else none
]

-- What the loop that receives the results collects.
pub record Collected : Type 0 where
  pub in_progress : List ℕ
  pub done_changes : List ℕ
  pub unsuccessful : List Unsuccessful

abbrev pub collect_in_progress : WaitResult → Collected → Collected
collect_in_progress result w = record w {
  in_progress = w.in_progress ++ result.change ∷ [];
  done_changes =
      if result.state.unblock_changes then w.done_changes ++ result.change ∷ [] else w.done_changes;
}

abbrev pub collect_done : WaitResult → Collected → Collected
collect_done result w = record w { done_changes = w.done_changes ++ result.change ∷ [] }

abbrev pub collect_unsuccessful : Unsuccessful → Collected → Collected
collect_unsuccessful u w = record w { unsuccessful = w.unsuccessful ++ u ∷ [] }

unfoldable pub collect : Bool → List WaitResult → Collected → ApplyError ⊎ Collected
unfolding wait_error
collect exit_on_error [] w = inr w
collect exit_on_error (result ∷ results) w = elim (wait_error result) [
  | some e ↦ elim exit_on_error [
    | true ↦ inl (one_unsuccessful (wait_errored result.change e))
    | false ↦ collect exit_on_error results (collect_unsuccessful (wait_errored result.change e) w)
  ]
  | none ↦ elim result.state.done [
    | false ↦ collect exit_on_error results (collect_in_progress result w)
    | true ↦ elim result.state.successful [
      | true ↦ collect exit_on_error results (collect_done result w)
      | false ↦ elim exit_on_error [
        | true ↦ inl (one_unsuccessful (finished_unsuccessfully result.change result.state.message))
        | false ↦
            collect exit_on_error results
              (collect_unsuccessful (finished_unsuccessfully result.change result.state.message) w)
      ]
    ]
  ]
]
