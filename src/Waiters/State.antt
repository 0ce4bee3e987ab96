-- ===== src/Waiters/State.antt =====
-- done_apply_state.go.
use kapp.Prelude.{String, Bool, true, false, not, ◌&&◌, ◌≡◌}

pub record DoneApplyState : Type 0 where
  pub done : Bool
  pub successful : Bool
  pub message : String
  pub unblock_changes : Bool

unfoldable pub terminally_failed : DoneApplyState → Bool
terminally_failed s = s.done && not s.successful

-- The three states without `UnblockChanges` that the waiters return.
abbrev pub in_progress : String → DoneApplyState
in_progress message = record {
  done = false;
  successful = false;
  message = message;
  unblock_changes = false;
}

abbrev pub failed : String → DoneApplyState
failed message = record {
  done = true;
  successful = false;
  message = message;
  unblock_changes = false;
}

abbrev pub succeeded : String → DoneApplyState
succeeded message = record {
  done = true;
  successful = true;
  message = message;
  unblock_changes = false;
}

-- DoneApplyState{Done: all, Successful: all, Message: message}
abbrev pub all_or_waiting : Bool × String → DoneApplyState
all_or_waiting (b, message) = record {
  done = b;
  successful = b;
  message = message;
  unblock_changes = false;
}

-- What the callers take for a success, and for none.
abbrev pub IsSuccess : DoneApplyState → Type 0
IsSuccess s = (s.done && s.successful) ≡ true

abbrev pub IsUnsuccessful : DoneApplyState → Type 0
IsUnsuccessful s = (s.done && s.successful) ≡ false
