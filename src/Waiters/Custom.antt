-- ===== src/Waiters/Custom.antt =====
-- custom_waiting_resource.go, and the rules of config.go that it reads. `Timeouts` is the global map
-- `timeoutMap`, which is threaded through; its values are of one of two types. The clock does not
-- move during a call. `parse_duration` is `time.ParseDuration` in nanoseconds, and `eval_ytt` runs
-- the function of a ytt rule.
use kapp.Prelude.{
  String, ℕ, ℤ, pos, Bool, true, false, not, ◌&&◌, List, [], ◌∷◌, Option, none, some, ◌⊎◌, inl, inr,
  str_eq, eq_int, lt_int, add_int64, show_int, is_empty, lookup, put, without, if◌then◌else◌,
  Result, ok, panic, ◌>>=◌,
}
use Prim.Native.Nat.{◌/◌}
use Prim.Native.String.{◌++◌}
use kapp.Resources.Resource.{Resource}
use kapp.Resources.Matchers.{matches, any_matcher}
use kapp.Config.Matchers.{ResourceMatchers, as_resource_matchers}
use kapp.Waiters.State.{DoneApplyState, in_progress, failed, succeeded}
use kapp.Waiters.Status.{deleting}
use kapp.Waiters.Typed.{waiting_for_generation}

pub record ConditionMatcher : Type 0 where
  pub cond_type : String
  pub status : String
  pub failure : Bool
  pub success : Bool
  pub supports_observed_generation : Bool
  pub unblock_changes : Bool
  pub timeout : String

-- `ytt` is the pointer Ytt with the text of its function, or `none` where `FuncContractV1` is nil.
pub record WaitRule : Type 0 where
  pub supports_observed_generation : Bool
  pub condition_matchers : List ConditionMatcher
  pub resource_matchers : ResourceMatchers
  pub ytt : Option (Option String)

pub record CustomCondition : Type 0 where
  pub cond_type : String
  pub status : String
  pub reason : String
  pub message : String
  pub observed_generation : ℤ

pub record CustomObj : Type 0 where
  pub generation : ℤ
  pub observed_generation : ℤ
  pub conditions : List CustomCondition

-- Seconds, stored for a ytt rule, or nanoseconds, stored for a condition with a timeout.
pub data Timer : Type 0 where
  start_time : ℕ → Timer
  expiry_time : ℤ → Timer

abbrev pub Timeouts : Type 0
Timeouts = List (String × Timer)

pub record CustomEnv : Type 0 where
  pub now : ℕ
  pub parse_duration : String → Option ℤ
  pub eval_ytt : String → ℕ → ℕ → Resource → String ⊎ DoneApplyState
  pub custom_obj : Resource → String ⊎ CustomObj

abbrev fifteen_minutes : ℤ
fifteen_minutes = pos 900000000000

unfoldable pub matches_condition : ConditionMatcher → CustomCondition → Bool
matches_condition m c = str_eq c.cond_type m.cond_type && str_eq c.status m.status

unfoldable pub is_stale : ConditionMatcher → ℤ → CustomCondition → Bool
is_stale m generation c =
    m.supports_observed_generation && not (eq_int generation c.observed_generation)

unfoldable pub timed_out_msg : ConditionMatcher → CustomCondition → String
timed_out_msg m c =
    "Continuously failed for " ++ m.timeout ++ " with " ++ c.cond_type ++ ": " ++ c.reason
    ++ ", message: " ++ c.message

unfoldable pub still_failing_msg : CustomCondition → String
still_failing_msg c = c.cond_type ++ ": " ++ c.reason ++ " (message: " ++ c.message ++ ")"

failure_msg : ConditionMatcher → CustomCondition → String
failure_msg m c =
    "Encountered failure condition " ++ c.cond_type ++ " == " ++ m.status ++ ": " ++ c.reason
    ++ ", message: " ++ c.message

-- A loop over conditions returned a state, or went on with whether a condition is waiting for its
-- generation.
pub data Checked : Type 0 where
  finished : DoneApplyState → Timeouts → Checked
  going_on : Bool → Timeouts → Checked

unfoldable pub duration_of : CustomEnv → String → ℤ
duration_of env timeout = elim (env.parse_duration timeout) [ none ↦ fifteen_minutes | some d ↦ d ]

unfoldable pub reset_timer : String → ConditionMatcher → Timeouts → Timeouts
reset_timer key m timers = if is_empty m.timeout then timers else without key timers

module _ {E : Type 0} (env : CustomEnv) (key : String) where
  unfoldable pub has_timeout_occurred : String → Timeouts → Result E (Bool × Timeouts)
  unfolding duration_of
  has_timeout_occurred timeout timers = elim (lookup key timers) [
    | some (expiry_time t) ↦ ok (lt_int t (pos env.now), timers)
    | some (start_time t) ↦ panic "interface conversion"
    | none ↦
        ok (false, put key (expiry_time (add_int64 (pos env.now) (duration_of env timeout))) timers)
  ]

  unfoldable pub with_timeout : ConditionMatcher → CustomCondition → Timeouts → Result E Checked
  unfolding has_timeout_occurred timed_out_msg still_failing_msg
  with_timeout m c timers = do
    (occurred, timers') ← has_timeout_occurred m.timeout timers
    ok (
        finished
          (if occurred then failed (timed_out_msg m c) else in_progress (still_failing_msg c))
          timers')

  -- The inner loop. Where a timeout's condition is present it returns, so after the loop
  -- `isTimeOutConditionPresent` is false.
  unfoldable pub check_failures :
      ConditionMatcher → ℤ → List CustomCondition → Bool → Timeouts → Result E Checked
  unfolding matches_condition is_stale with_timeout failure_msg
  check_failures m g [] waiting timers = ok (going_on waiting timers)
  check_failures m g (c ∷ cs) waiting timers =
      let rest = check_failures m g cs waiting timers in
      let rest_waiting = check_failures m g cs true timers in
      if not (matches_condition m c)
      then rest
      else if is_stale m g c
      then rest_waiting
      else if not (is_empty m.timeout)
      then with_timeout m c timers
      else if m.failure
      then ok (finished (failed (failure_msg m c)) timers)
      else rest

  -- The loop that looks for failures first.
  unfoldable pub failures :
      List ConditionMatcher → ℤ → List CustomCondition → Bool → Timeouts → Result E Checked
  unfolding check_failures reset_timer
  failures [] g cs waiting timers = ok (going_on waiting timers)
  failures (m ∷ ms) g cs waiting timers = check_failures m g cs waiting timers >>= λ checked.
      elim checked [
        | finished state timers' ↦ ok (finished state timers')
        | going_on waiting' timers' ↦ failures ms g cs waiting' (reset_timer key m timers')
      ]

success_msg : ConditionMatcher → CustomCondition → String
success_msg m c =
    "Encountered successful condition " ++ c.cond_type ++ " == " ++ m.status ++ ": " ++ c.reason
    ++ " (message: " ++ c.message ++ ")"

unblock_msg : ConditionMatcher → CustomCondition → String
unblock_msg m c =
    "Allowing blocked changes to proceed: Encountered condition " ++ c.cond_type ++ " == "
    ++ m.status ++ ": " ++ c.reason

-- The same for the loop that looks for successes, with the message for unblocking.
pub data Sought : Type 0 where
  success : DoneApplyState → Sought
  no_success : Bool → String → Sought

unfoldable pub seek_success : ConditionMatcher → ℤ → List CustomCondition → Bool → String → Sought
unfolding matches_condition is_stale success_msg unblock_msg
seek_success m g [] waiting msg = no_success waiting msg
seek_success m g (c ∷ cs) waiting msg =
    let rest = seek_success m g cs waiting msg in
    let rest_waiting = seek_success m g cs true msg in
    let rest_unblocking = seek_success m g cs waiting (unblock_msg m c) in
    if not (matches_condition m c)
    then rest
    else if is_stale m g c
    then rest_waiting
    else if m.success
    then success (succeeded (success_msg m c))
    else if m.unblock_changes
    then rest_unblocking
    else rest

unfoldable pub successes : List ConditionMatcher → ℤ → List CustomCondition → Bool → String → Sought
unfolding seek_success
successes [] g cs waiting msg = no_success waiting msg
successes (m ∷ ms) g cs waiting msg = elim (seek_success m g cs waiting msg) [
  | success state ↦ success state
  | no_success waiting' msg' ↦ successes ms g cs waiting' msg'
]

-- What is returned after both loops.
unfoldable pub conclude : ℤ → Sought → DoneApplyState
conclude g (success state) = state
conclude g (no_success waiting msg) =
    if waiting
    then in_progress
        ("Waiting for generation " ++ show_int g ++ " to be observed by status condition(s)")
    else if not (is_empty msg)
    then record { done = false; successful = false; message = msg; unblock_changes = true }
    else in_progress "No failing or successful conditions found"

unfoldable pub after_failures :
    List ConditionMatcher → CustomObj → Checked → DoneApplyState × Timeouts
unfolding conclude successes
after_failures ms obj (finished state timers) = (state, timers)
after_failures ms obj (going_on waiting timers) =
    (conclude obj.generation (successes ms obj.generation obj.conditions waiting ""), timers)

of_ytt : String ⊎ DoneApplyState → DoneApplyState
of_ytt (inl e) = failed ("Error: Applying ytt wait rule: " ++ e)
of_ytt (inr state) =
    if state.unblock_changes
    then record state { message = "Allowing blocked changes to proceed: " ++ state.message }
    else state

module _ {E : Type 0} (env : CustomEnv) (res : Resource) where
  -- The start of the wait, in seconds, with the map that has it.
  started : Timeouts → Result E (ℕ × Timeouts)
  started timers = elim (lookup res.description timers) [
    | some (start_time t) ↦ ok (t, timers)
    | some (expiry_time t) ↦ panic "interface conversion"
    | none ↦ let t = env.now / 1000000000 in ok (t, put res.description (start_time t) timers)
  ]

  -- WaitRuleContractV1.Apply: no state where its matchers do not match, which the caller reads.
  apply_contract : WaitRule → String → ℕ → Result E DoneApplyState
  unfolding of_ytt
  apply_contract rule starlark start = do
    ms ← as_resource_matchers rule.resource_matchers
    matching ← matches res (any_matcher ms)
    if matching
        then ok (of_ytt (env.eval_ytt starlark start (env.now / 1000000000) res))
        else panic "nil pointer dereference"

  by_ytt : WaitRule → Option String → Timeouts → Result E (DoneApplyState × Timeouts)
  unfolding started apply_contract
  by_ytt rule none timers = panic "nil pointer dereference"
  by_ytt rule (some starlark) timers = do
    (start, timers') ← started timers
    state ← apply_contract rule starlark start
    ok (state, timers')

  unfoldable pub by_conditions :
      WaitRule → CustomObj → Timeouts → Result E (DoneApplyState × Timeouts)
  unfolding failures after_failures
  by_conditions rule obj timers = do
    checked ←
        failures env res.description rule.condition_matchers obj.generation obj.conditions false
          timers
    ok (after_failures rule.condition_matchers obj checked)

  by_rule : WaitRule → String ⊎ CustomObj → Timeouts → Result E (DoneApplyState × Timeouts)
  unfolding by_ytt by_conditions
  by_rule rule (inl e) timers = ok (failed ("Error: Failed obj conversion: " ++ e), timers)
  by_rule rule (inr obj) timers =
      if rule.supports_observed_generation && not (eq_int obj.generation obj.observed_generation)
      then ok (waiting_for_generation obj.generation, timers)
      else elim rule.ytt [
        | some starlark ↦ by_ytt rule starlark timers
        | none ↦ by_conditions rule obj timers
      ]

  unfoldable pub custom_done : WaitRule → Timeouts → Result E (DoneApplyState × Timeouts)
  unfolding by_rule deleting
  custom_done rule timers = elim (deleting res) [
    | some state ↦ ok (state, timers)
    | none ↦ by_rule rule (env.custom_obj res) timers
  ]

module _ {E : Type 0} (res : Resource) where
  -- NewCustomWaitingResource: the first rule that matches.
  unfoldable pub rule_for : List WaitRule → Result E (Option WaitRule)
  rule_for [] = ok none
  rule_for (rule ∷ rules) = do
    ms ← as_resource_matchers rule.resource_matchers
    matching ← matches res (any_matcher ms)
    if matching then ok (some rule) else rule_for rules
