-- ===== src/Waiters/Unsuccessful.antt =====
-- About deleting.go and the waiters that deal with deletion: custom_waiting_resource.go and those of
-- kapp-controller.
use kapp.Prelude.{
  String, true, List, [], ◌∷◌, some, ◌⊎◌, inl, inr, ◌≡◌, refl, Bool-cases, Option-cases, Result, ok,
  eq_int,
}
use kapp.Prelude.{arith}
use kapp.Resources.Resource.{Resource}
use kapp.Waiters.State.{DoneApplyState, IsUnsuccessful}
use kapp.Waiters.Status.{deleting, deleting_state}
use kapp.Waiters.Typed.{Reconciled, Condition, converted}
use kapp.Waiters.Kinds.{reconciled_done, reconciled_problem, or_succeeded}
use kapp.Waiters.Custom.{CustomEnv, WaitRule, Timeouts, custom_done}

deleting_state-IsUnsuccessful : (fs : List String) → IsUnsuccessful (deleting_state fs)
unfolding deleting_state
deleting_state-IsUnsuccessful [] = refl
deleting_state-IsUnsuccessful (f ∷ fs) = refl

pub deleting-IsUnsuccessful :
    (res : Resource)
    → res.is_deleting ≡ true
    → (s : DoneApplyState) × (deleting res ≡ some s) × IsUnsuccessful s
unfolding deleting
deleting-IsUnsuccessful res h =
    (deleting_state res.finalizers, rw h, deleting_state-IsUnsuccessful res.finalizers)

reconciled_problem-IsUnsuccessful :
    (app : Reconciled) (cs : List Condition) (s : DoneApplyState)
    → reconciled_problem app cs ≡ some s
    → IsUnsuccessful s
unfolding reconciled_problem
reconciled_problem-IsUnsuccessful app [] s h = cc
reconciled_problem-IsUnsuccessful app (c ∷ cs) s h =
    ground (arith, reconciled_problem-IsUnsuccessful app cs s)

pub reconciled_done-IsUnsuccessful :
    (res : Resource) (app : String ⊎ Reconciled)
    → res.is_deleting ≡ true
    → IsUnsuccessful (converted app (reconciled_done res))
unfolding reconciled_done or_succeeded
reconciled_done-IsUnsuccessful res (inl e) h = refl
reconciled_done-IsUnsuccessful res (inr app) h =
    elim (Bool-cases (eq_int app.generation app.observed_generation)) [
      | inr e ↦ rw e
      | inl e ↦ elim (Option-cases (reconciled_problem app app.conditions)) [
        | inr (s, p) ↦ rw (e, p) (reconciled_problem-IsUnsuccessful app app.conditions s p)
        | inl p ↦ let (s, d, u) = deleting-IsUnsuccessful res h in rw (e, p, d) u
      ]
    ]

pub custom_done-IsUnsuccessful :
    {E : Type 0} (env : CustomEnv) (res : Resource) (rule : WaitRule) (timers : Timeouts)
    → res.is_deleting ≡ true
    → (s : DoneApplyState) × ◌≡◌ {A = Result E (DoneApplyState × Timeouts)}
        (custom_done env res rule timers)
        (ok (s, timers))
      × IsUnsuccessful s
unfolding custom_done
custom_done-IsUnsuccessful env res rule timers h =
    let (d, e, u) = deleting-IsUnsuccessful res h in (d, rw (e, custom_done) refl, u)
