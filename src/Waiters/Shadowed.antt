-- ===== src/Waiters/Shadowed.antt =====
-- About the timers of custom_waiting_resource.go, where a rule has two conditions with timeouts.
use kapp.Prelude.{
  String, ℤ, Bool, true, false, List, [], ◌∷◌, ◌≡◌, refl, is_empty, ok, lookup-without, put,
  add_int64, pos, without, ap, ◌>>=◌,
}
use kapp.Resources.Resource.{Resource}
use kapp.Waiters.State.{in_progress, DoneApplyState}
use kapp.Waiters.Custom.{
  has_timeout_occurred, ConditionMatcher, CustomCondition, CustomEnv, Timeouts, finished, going_on,
  matches_condition, is_stale, with_timeout, check_failures, by_conditions, failures, reset_timer,
  after_failures, WaitRule, CustomObj, still_failing_msg, expiry_time, duration_of,
}

module _ {E : Type 0} (env : CustomEnv) (key : String) (g : ℤ) (c : CustomCondition) where
  passed_over :
      (m : ConditionMatcher) (waiting : Bool) (timers : Timeouts)
      → matches_condition m c ≡ false
      → check_failures {E = E} env key m g (c ∷ []) waiting timers ≡ ok (going_on waiting timers)
  unfolding check_failures
  passed_over m waiting timers h = rw h refl

  timer_set :
      (n : ConditionMatcher) (waiting : Bool) (timers : Timeouts)
      → is_empty n.timeout ≡ false
      → matches_condition n c ≡ true
      → is_stale n g c ≡ false
      → check_failures {E = E} env key n g (c ∷ []) waiting (without key timers)
        ≡ ok (
            finished (in_progress (still_failing_msg c)) (
              put key
                (expiry_time (add_int64 (pos env.now) (duration_of env n.timeout)))
                (without key timers)))
  unfolding check_failures with_timeout has_timeout_occurred
  timer_set n waiting timers t h s =
      rw (t, h, s, with_timeout, has_timeout_occurred, lookup-without key timers) refl

  failures-shadowed :
      (m n : ConditionMatcher) (ms : List ConditionMatcher) (timers : Timeouts)
      → is_empty m.timeout ≡ false
      → matches_condition m c ≡ false
      → is_empty n.timeout ≡ false
      → matches_condition n c ≡ true
      → is_stale n g c ≡ false
      → failures {E = E} env key (m ∷ n ∷ ms) g (c ∷ []) false timers
        ≡ ok (
            finished (in_progress (still_failing_msg c)) (
              put key
                (expiry_time (add_int64 (pos env.now) (duration_of env n.timeout)))
                (without key timers)))
  unfolding failures reset_timer
  failures-shadowed m n ms timers u v w x y =
      rw (passed_over m false timers v, failures, u, timer_set n false timers w x y) refl

failures-of_rule :
    {E : Type 0} (env : CustomEnv) (res : Resource) (rule : WaitRule) (obj : CustomObj)
    (m n : ConditionMatcher) (ms : List ConditionMatcher) (c : CustomCondition) (timers : Timeouts)
    → rule.condition_matchers ≡ m ∷ n ∷ ms
    → obj.conditions ≡ c ∷ []
    → is_empty m.timeout ≡ false
    → matches_condition m c ≡ false
    → is_empty n.timeout ≡ false
    → matches_condition n c ≡ true
    → is_stale n obj.generation c ≡ false
    → failures {E = E} env res.description rule.condition_matchers obj.generation obj.conditions
        false timers
      ≡ ok (
          finished (in_progress (still_failing_msg c)) (
            put res.description
              (expiry_time (add_int64 (pos env.now) (duration_of env n.timeout)))
              (without res.description timers)))
failures-of_rule env res rule obj m n ms c timers e f t u v w x =
    rw (e, f) (failures-shadowed env res.description obj.generation c m n ms timers t u v w x)

-- Where the only condition of a resource is present for a matcher with a timeout, and a matcher with a
-- timeout that it does not meet stands right before that one at the start of the rule, the wait is
-- still in progress whatever the time is and whatever the timers say.
pub by_conditions-shadowed :
    {E : Type 0} (env : CustomEnv) (res : Resource) (rule : WaitRule) (obj : CustomObj)
    (m n : ConditionMatcher) (ms : List ConditionMatcher) (c : CustomCondition) (timers : Timeouts)
    → rule.condition_matchers ≡ m ∷ n ∷ ms
    → obj.conditions ≡ c ∷ []
    → is_empty m.timeout ≡ false
    → matches_condition m c ≡ false
    → is_empty n.timeout ≡ false
    → matches_condition n c ≡ true
    → is_stale n obj.generation c ≡ false
    → (end : DoneApplyState × Timeouts) × (by_conditions {E = E} env res rule obj timers ≡ ok end)
      × (end.0.done ≡ false)
unfolding by_conditions after_failures
by_conditions-shadowed {E = E} env res rule obj m n ms c timers e f t u v w x = (
  (
    in_progress (still_failing_msg c),
    put res.description (expiry_time (add_int64 (pos env.now) (duration_of env n.timeout)))
        (without res.description timers),
  ),
  (ap (λ r. r >>= λ checked. ok (after_failures rule.condition_matchers obj checked))
      (failures-of_rule {E = E} env res rule obj m n ms c timers e f t u v w x)),
  refl,
)
