-- ===== src/ClusterApply/Steps.antt =====
-- The runs of `ClusterChangeSet.Apply`, as a step relation with a trace of what happened, the latest
-- first.
use kapp.Prelude.{
  ℕ, List, [], ◌∷◌, ◌++◌, ◌≡◌, ◌≢◌, Bool, true, false, ◌||◌, ◌==◌, none, some, elem, count,
}
use kapp.DiffGraph.Graph.{ChangeGraph, waiting_for}
use kapp.ClusterApply.Applying.{ApplyResult, ApplyError, did_not_apply_all}
use kapp.ClusterApply.Waiting.{WaitResult, wait_error}
use kapp.ClusterApply.ChangeSet.{
  ClusterChangeSetOpts, applying, waiting, State, initial, to_apply, after_apply, apply_round,
  wait_round,
}

-- `let_go` is a change that asks, while it is still in progress, to unblock those that wait for it.
pub data Event : Type 0 where
  attempted finished let_go : ℕ → Event

abbrev pub attempts : List ℕ → List Event
attempts [] = []
attempts (p ∷ ps) = attempted p ∷ attempts ps

abbrev pub applied_of : List ApplyResult → List ℕ
applied_of [] = []
applied_of (r ∷ rs) = r.change ∷ applied_of rs

abbrev pub waited_of : List WaitResult → List ℕ
waited_of [] = []
waited_of (r ∷ rs) = r.change ∷ waited_of rs

-- What one result of `IsDoneApplying` says.
unfoldable pub event_of : WaitResult → List Event
unfolding wait_error
event_of r = elim (wait_error r) [
  | some _ ↦ []
  | none ↦ elim r.state.done [
    | true ↦ elim r.state.successful [ true ↦ finished r.change ∷ [] | false ↦ [] ]
    | false ↦ elim r.state.unblock_changes [ true ↦ let_go r.change ∷ [] | false ↦ [] ]
  ]
]

unfoldable pub wait_events : List WaitResult → List Event
unfolding event_of
wait_events [] = []
wait_events (r ∷ rs) = event_of r ++ wait_events rs

abbrev pub was_finished : ℕ → List Event → Bool
was_finished p [] = false
was_finished p (finished q ∷ t) = p == q || was_finished p t
was_finished p (attempted q ∷ t) = was_finished p t
was_finished p (let_go q ∷ t) = was_finished p t

abbrev pub was_released : ℕ → List Event → Bool
was_released p [] = false
was_released p (finished q ∷ t) = p == q || was_released p t
was_released p (let_go q ∷ t) = p == q || was_released p t
was_released p (attempted q ∷ t) = was_released p t

abbrev pub was_attempted : ℕ → List Event → Bool
was_attempted p [] = false
was_attempted p (attempted q ∷ t) = p == q || was_attempted p t
was_attempted p (finished q ∷ t) = was_attempted p t
was_attempted p (let_go q ∷ t) = was_attempted p t

-- The results arrive in any order.
abbrev pub Arrives : List ℕ → List ℕ → Type 0
Arrives ps qs = (p : ℕ) → count p ps ≡ count p qs

module _ (g : ChangeGraph) (opts : ClusterChangeSetOpts) where
  pub data Step : State → List Event → State → Type 0 where
    nothing_to_apply :
        (s : State) {us : _}
        → s.phase ≡ applying us
        → to_apply g s ≡ []
        → Step s [] (after_apply g [] us s)
    apply :
        (s : State) (results : List ApplyResult) (timed_out : Bool) {us : _}
        → s.phase ≡ applying us
        → to_apply g s ≢ []
        → Arrives (applied_of results) (to_apply g s)
        → Step s (attempts (applied_of results)) (apply_round opts g results timed_out us s)
    wait :
        (s : State) (results : List WaitResult) (timed_out : Bool)
        → s.phase ≡ waiting
        → Arrives (waited_of results) s.tracked_changes
        → Step s (wait_events results) (wait_round opts results timed_out s)

  pub data Reached : List Event → State → Type 0 where
    start : Reached [] initial
    step : {t es : List Event} {s s' : State} → Reached t s → Step s es s' → Reached (es ++ t) s'

module _ (g : ChangeGraph) where
  -- A change is attempted only when all that it waits for was released before.
  abbrev pub IsOrderly : List Event → Type 0
  IsOrderly [] = Unit {0}
  IsOrderly (attempted p ∷ past) =
      ((b : ℕ) → elem b (waiting_for g.memory p) ≡ true → was_released b past ≡ true)
      × IsOrderly past
  IsOrderly (finished p ∷ past) = IsOrderly past
  IsOrderly (let_go p ∷ past) = IsOrderly past

abbrev pub is_inconsistency : ApplyError → Bool
is_inconsistency (did_not_apply_all m n) = true
is_inconsistency _ = false
