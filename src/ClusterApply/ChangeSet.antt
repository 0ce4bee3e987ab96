-- ===== src/ClusterApply/ChangeSet.antt =====
-- cluster_change_set.go: `ClusterChangeSet.Apply`, a state machine whose steps are the rounds of
-- `ApplyingChanges.Apply` and of `WaitingChanges.WaitForAny`. A step takes the results of a round
-- and whether the time of the call is over by then. The counts for the terminal are left out.
use kapp.Prelude.{
  inl, inr, ℕ, List, [], ◌∷◌, ◌++◌, Bool, true, false, ◌||◌, not, ◌==◌, Option, none, some, length,
  if◌then◌else◌,
}
use kapp.DiffGraph.Graph.{ChangeGraph}
use kapp.DiffGraph.Blocked.{Unblocked, unblocked_changes, unblock}
use kapp.ClusterApply.Applying.{
  Unsuccessful, ApplyError, one_unsuccessful, several_unsuccessful, timed_out_applying,
  timed_out_waiting, did_not_apply_all, ApplyResult, non_applied_changes, Received, receive,
}
use kapp.ClusterApply.Waiting.{WaitResult, Collected, collect}

pub record ClusterChangeSetOpts : Type 0 where
  pub exit_early_on_apply_error : Bool
  pub exit_early_on_wait_error : Bool

-- Where the loop is: in `Apply` before a round, with what went wrong in this call of it; in
-- `WaitForAny` before a round; or at the end.
pub data Phase : Type 0 where
  applying : List Unsuccessful → Phase
  waiting : Phase
  returned : Option ApplyError → Phase

pub record State : Type 0 where
  pub applied : List ℕ
  pub tracked_changes : List ℕ
  pub unblocked : Unblocked
  pub unsuccessful : List Unsuccessful
  pub phase : Phase

abbrev pub initial : State
initial = record {
  applied = [];
  tracked_changes = [];
  unblocked = [];
  unsuccessful = [];
  phase = applying [];
}

abbrev pub is_nil : {A : Type 0} → List A → Bool
is_nil [] = true
is_nil (x ∷ xs) = false

abbrev pub received_nothing : State → List Unsuccessful → Received
received_nothing s unsuccessful = record {
  applied = s.applied;
  unsuccessful = unsuccessful;
  applied_changes = [];
  last_err = none;
}

abbrev pub unblock_all : List ℕ → Unblocked → Unblocked
unblock_all [] unblocked = unblocked
unblock_all (p ∷ ps) unblocked = unblock_all ps (unblock p unblocked)

abbrev pub collected_nothing : Collected
collected_nothing = record { in_progress = []; done_changes = []; unsuccessful = [] }

-- The end of a round of `WaitForAny`, and what follows its return.
unfoldable pub after_collected : Bool → Collected → State → State
unfolding unblock
after_collected timed_out w s =
    let next = record s { tracked_changes = w.in_progress } in
    if is_nil w.in_progress || not (is_nil w.done_changes) || not (is_nil w.unsuccessful)
    then record next {
      unsuccessful = s.unsuccessful ++ w.unsuccessful;
      unblocked = unblock_all w.done_changes s.unblocked;
      phase = applying [];
    }
    else if timed_out
    then record next { phase = returned (some (timed_out_waiting w.in_progress)) }
    else next

module _ (g : ChangeGraph) where
  -- The changes of a round of `Apply`.
  unfoldable pub to_apply : State → List ℕ
  unfolding non_applied_changes unblocked_changes
  to_apply s = non_applied_changes s.applied (unblocked_changes g s.unblocked)

  -- What the loop returns once nothing is waited for; the last case is `ApplyingChanges.Complete`.
  unfoldable pub complete : List ℕ → List Unsuccessful → Option ApplyError
  complete applied (u ∷ []) = some (one_unsuccessful u)
  complete applied (u ∷ w ∷ us) = some (several_unsuccessful (u ∷ w ∷ us))
  complete applied [] =
      if length g.changes == length applied
      then none
      else some (did_not_apply_all (length g.changes) (length applied))

  -- From the return of `Apply` to the call of `WaitForAny`, or to the end.
  unfoldable pub after_apply : List ℕ → List Unsuccessful → State → State
  unfolding complete
  after_apply applied_changes unsuccessful s =
      let tracked = s.tracked_changes ++ applied_changes in
      let all_unsuccessful = s.unsuccessful ++ unsuccessful in
      record s {
        tracked_changes = tracked;
        unsuccessful = all_unsuccessful;
        phase = if is_nil tracked then returned (complete s.applied all_unsuccessful) else waiting;
      }

  -- The end of a round of `Apply`.
  unfoldable pub after_received : Bool → Received → State → State
  unfolding after_apply
  after_received timed_out r s =
      let next = record s { applied = r.applied } in
      if not (is_nil r.applied_changes)
      then after_apply r.applied_changes r.unsuccessful next
      else if timed_out
      then record next { phase = returned (some (timed_out_applying r.last_err)) }
      else record next { phase = applying r.unsuccessful }

module _ (opts : ClusterChangeSetOpts) where
  unfoldable pub wait_round : List WaitResult → Bool → State → State
  unfolding collect after_collected
  wait_round results timed_out s =
      elim (collect opts.exit_early_on_wait_error results collected_nothing) [
        | inr w ↦ after_collected timed_out w s
        | inl e ↦ record s { phase = returned (some e) }
      ]

  -- A round of `Apply`; `unsuccessful` is what went wrong in the rounds before it.
  unfoldable pub apply_round :
      ChangeGraph → List ApplyResult → Bool → List Unsuccessful → State → State
  unfolding receive after_received
  apply_round g results timed_out unsuccessful s =
      elim (receive opts.exit_early_on_apply_error results (received_nothing s unsuccessful)) [
        | inr r ↦ after_received g timed_out r s
        | inl e ↦ record s { phase = returned (some e) }
      ]
