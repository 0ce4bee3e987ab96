-- ===== src/Waiters/Fresh.antt =====
-- About the two loops of custom_waiting_resource.go over the conditions of a resource.
use kapp.Prelude.{
  String, ℤ, Bool, true, false, not, ◌&&◌, ◌||◌, List, [], ◌∷◌, ◌≡◌, refl, sym, subst, Bool-cases,
  inl, inr, arith, any, is_empty, ok, >>=-eq-ok, ok-injective, if◌then◌else◌, if-true, if-false,
  ◌∙◌, ◌↔◌,
}
use kapp.Resources.Resource.{Resource}
use kapp.Waiters.State.{IsUnsuccessful, succeeded, failed, in_progress, IsSuccess, DoneApplyState}
use kapp.Waiters.Custom.{
  has_timeout_occurred, ConditionMatcher, CustomCondition, CustomEnv, Timeouts, Checked, finished,
  going_on, matches_condition, is_stale, with_timeout, check_failures, Sought, conclude,
  seek_success, by_conditions, successes, failures, success, reset_timer, after_failures,
  no_success, WaitRule, CustomObj,
}

-- A condition that a matcher asks for, for the present generation where the matcher cares.
abbrev pub is_fresh : ConditionMatcher → ℤ → CustomCondition → Bool
is_fresh m g c = matches_condition m c && not (is_stale m g c)

abbrev pub holds_up : ConditionMatcher → ℤ → CustomCondition → Bool
holds_up m g c = (m.failure || not (is_empty m.timeout)) && is_fresh m g c

abbrev pub succeeds : ConditionMatcher → ℤ → CustomCondition → Bool
succeeds m g c = m.success && is_fresh m g c

-- Whether any condition fails, or may once its time is over, and whether any is a success.
abbrev pub is_held_up : List ConditionMatcher → ℤ → List CustomCondition → Bool
is_held_up ms g cs = any (λ m. any (holds_up m g) cs) ms

abbrev pub has_success : List ConditionMatcher → ℤ → List CustomCondition → Bool
has_success ms g cs = any (λ m. any (succeeds m g) cs) ms

-- What the first loop found.
Tells : Bool → Checked → Type 0
Tells b (finished s timers) = (b ≡ true) × IsUnsuccessful s
Tells b (going_on waiting timers) = b ≡ false

either_way : (b : Bool) (x y : String) → IsUnsuccessful (if b then failed x else in_progress y)
either_way true x y = refl
either_way false x y = refl

module _ {E : Type 0} (env : CustomEnv) (key : String) where
  with_timeout-finished :
      (m : ConditionMatcher) (c : CustomCondition) (timers : Timeouts) (end : Checked)
      → with_timeout {E = E} env key m c timers ≡ ok end
      → Tells true end
  unfolding with_timeout Tells
  with_timeout-finished m c timers end h =
      let ((occurred, timers'), e, k) =
        >>=-eq-ok (has_timeout_occurred env key m.timeout timers) _ h in
      subst (Tells true) (ok-injective k) (refl, either_way occurred _ _)

  check_failures-Tells :
      (m : ConditionMatcher) (g : ℤ) (cs : List CustomCondition) (waiting : Bool)
      (timers : Timeouts) (end : Checked)
      → check_failures {E = E} env key m g cs waiting timers ≡ ok end
      → Tells (any (holds_up m g) cs) end
  unfolding check_failures Tells
  check_failures-Tells m g [] waiting timers end h = subst (Tells false) (ok-injective h) refl
  check_failures-Tells m g (c ∷ cs) waiting timers end h =
      elim (Bool-cases (matches_condition m c)) [
        | inr e ↦
            let q : (holds_up m g c || any (holds_up m g) cs) ≡ any (holds_up m g) cs =
              ground arith in
            subst (λ b. Tells b end) (sym q)
              (check_failures-Tells m g cs waiting timers end (rw e at h))
        | inl e ↦ elim (Bool-cases (is_stale m g c)) [
          | inl s ↦
              let q : (holds_up m g c || any (holds_up m g) cs) ≡ any (holds_up m g) cs =
                ground arith in
              subst (λ b. Tells b end) (sym q)
                (check_failures-Tells m g cs true timers end (rw (e, s) at h))
          | inr s ↦ elim (Bool-cases (is_empty m.timeout)) [
            | inr t ↦
                let q : (holds_up m g c || any (holds_up m g) cs) ≡ true = ground arith in
                subst (λ b. Tells b end) (sym q)
                  (with_timeout-finished m c timers end (rw (e, s, t) at h))
            | inl t ↦ elim (Bool-cases m.failure) [
              | inl f ↦
                  let q : (holds_up m g c || any (holds_up m g) cs) ≡ true = ground arith in
                  subst (λ b. Tells b end) (sym q)
                    (subst (Tells true)
                      (ok-injective (sym (if-true m.failure _ _ f) ∙ (rw (e, s, t) at h)))
                      (refl, refl))
              | inr f ↦
                  let q : (holds_up m g c || any (holds_up m g) cs) ≡ any (holds_up m g) cs =
                    ground arith in
                  subst (λ b. Tells b end) (sym q)
                    (check_failures-Tells m g cs waiting timers end
                      (sym (if-false m.failure _ _ f) ∙ (rw (e, s, t) at h)))
            ]
          ]
        ]
      ]

  failures-Tells :
      (ms : List ConditionMatcher) (g : ℤ) (cs : List CustomCondition) (waiting : Bool)
      (timers : Timeouts) (end : Checked)
      → failures {E = E} env key ms g cs waiting timers ≡ ok end
      → Tells (is_held_up ms g cs) end
  unfolding failures Tells
  failures-Tells [] g cs waiting timers end h = subst (Tells false) (ok-injective h) refl
  failures-Tells (m ∷ ms) g cs waiting timers end h =
      let (checked, e, k) = >>=-eq-ok (check_failures {E = E} env key m g cs waiting timers) _ h in
      after (λ w t. failures-Tells ms g cs w t end) checked
        (check_failures-Tells m g cs waiting timers checked e) k
    where
      after :
          ((w : Bool) (t : Timeouts)
            → failures {E = E} env key ms g cs w t ≡ ok end
            → Tells (is_held_up ms g cs) end)
          → (checked : Checked) → Tells (any (holds_up m g) cs) checked
          → (elim checked [
            | finished state timers' ↦ ok (finished state timers')
            | going_on waiting' timers' ↦
                failures {E = E} env key ms g cs waiting' (reset_timer key m timers')
          ])
            ≡ ok end
          → Tells (any (holds_up m g) cs || is_held_up ms g cs) end
      after ih (finished s t) (q, u) k = rw q (subst (Tells true) (ok-injective k) (refl, u))
      after ih (going_on w t) q k = rw q (ih w (reset_timer key m t) k)

-- What the second loop found.
Finds : Bool → Sought → Type 0
Finds b (success s) = (b ≡ true) × IsSuccess s
Finds b (no_success waiting msg) = b ≡ false

-- One round of it, for each outcome of its tests.
Finds-step :
    (matching stale succeeding unblocking b : Bool) (r r' r'' : Sought) (msg : String)
    → Finds b r
    → Finds b r'
    → Finds b r''
    → Finds (succeeding && (matching && not stale) || b) (
        if not matching
        then r
        else if stale
        then r'
        else if succeeding
        then success (succeeded msg)
        else if unblocking
        then r''
        else r)
unfolding Finds
Finds-step false stale true u b r r' r'' msg f f' f'' = f
Finds-step false stale false u b r r' r'' msg f f' f'' = f
Finds-step true true true u b r r' r'' msg f f' f'' = f'
Finds-step true true false u b r r' r'' msg f f' f'' = f'
Finds-step true false true u b r r' r'' msg f f' f'' = (refl, refl)
Finds-step true false false true b r r' r'' msg f f' f'' = f''
Finds-step true false false false b r r' r'' msg f f' f'' = f

seek_success-Finds :
    (m : ConditionMatcher) (g : ℤ) (cs : List CustomCondition) (waiting : Bool) (msg : String)
    → Finds (any (succeeds m g) cs) (seek_success m g cs waiting msg)
unfolding seek_success Finds
seek_success-Finds m g [] waiting msg = refl
seek_success-Finds m g (c ∷ cs) waiting msg =
    Finds-step (matches_condition m c) (is_stale m g c) m.success m.unblock_changes _ _ _ _ _
      (seek_success-Finds m g cs waiting msg) (seek_success-Finds m g cs true msg)
      (seek_success-Finds m g cs waiting _)

successes-Finds :
    (ms : List ConditionMatcher) (g : ℤ) (cs : List CustomCondition) (waiting : Bool) (msg : String)
    → Finds (has_success ms g cs) (successes ms g cs waiting msg)
unfolding successes Finds
successes-Finds [] g cs waiting msg = refl
successes-Finds (m ∷ ms) g cs waiting msg =
    after (successes-Finds ms g cs) (seek_success m g cs waiting msg)
      (seek_success-Finds m g cs waiting msg)
  where
    after :
        ((w : Bool) (t : String) → Finds (has_success ms g cs) (successes ms g cs w t))
        → (sought : Sought) → Finds (any (succeeds m g) cs) sought
        → Finds (any (succeeds m g) cs || has_success ms g cs) (elim sought [
          | success state ↦ success state
          | no_success waiting' msg' ↦ successes ms g cs waiting' msg'
        ])
    after ih (success s) (q, u) = rw q (refl, u)
    after ih (no_success w t) q = rw q (ih w t)

conclude-Finds :
    (b : Bool) (g : ℤ) (sought : Sought)
    → Finds b sought
    → IsSuccess (conclude g sought) ↔ (b ≡ true)
unfolding conclude Finds
conclude-Finds b g (success s) (q, u) = (λ _. q, λ _. u)
conclude-Finds b g (no_success waiting msg) q = ground (arith, q)

-- What both tests say together of a state.
abbrev Decides : WaitRule → CustomObj → DoneApplyState → Type 0
Decides rule obj s = IsSuccess s ↔ (
    (is_held_up rule.condition_matchers obj.generation obj.conditions ≡ false)
    × (has_success rule.condition_matchers obj.generation obj.conditions ≡ true))

-- A wait by conditions that ends without a panic reports a success exactly when some condition is a
-- success for the present generation, and none is a failure or one that may turn into a failure when
-- its time is over.
pub by_conditions_decides :
    {E : Type 0} (env : CustomEnv) (res : Resource) (rule : WaitRule) (obj : CustomObj)
    (timers : Timeouts) (end : DoneApplyState × Timeouts)
    → by_conditions {E = E} env res rule obj timers ≡ ok end
    → IsSuccess end.0 ↔ (
        (is_held_up rule.condition_matchers obj.generation obj.conditions ≡ false)
        × (has_success rule.condition_matchers obj.generation obj.conditions ≡ true))
unfolding by_conditions after_failures Tells
by_conditions_decides {E = E} env res rule obj timers end h =
    let (checked, e, k) =
      >>=-eq-ok
        (failures {E = E} env res.description rule.condition_matchers obj.generation obj.conditions
          false timers)
        _ h in
    after checked
      (failures-Tells env res.description rule.condition_matchers obj.generation obj.conditions
        false timers checked e)
      (ok-injective k)
  where
    after :
        (checked : Checked)
        → Tells (is_held_up rule.condition_matchers obj.generation obj.conditions) checked
        → after_failures rule.condition_matchers obj checked ≡ end
        → Decides rule obj end.0
    after (finished s t) (q, u) k =
        subst (λ e. Decides rule obj e.0) k (λ h. cc (h, u), λ (p, r). cc (p, q))
    after (going_on w t) q k =
        let found =
          conclude-Finds _ obj.generation
            (successes rule.condition_matchers obj.generation obj.conditions w "")
            (successes-Finds rule.condition_matchers obj.generation obj.conditions w "") in
        subst (λ e. Decides rule obj e.0) k (λ h. (q, found.0 h), λ (p, r). found.1 r)
