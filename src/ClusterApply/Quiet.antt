-- ===== src/ClusterApply/Quiet.antt =====
-- About the events of a round of waiting_changes.go, `WaitForAny`.
use kapp.Prelude.{
  List, [], ◌∷◌, ◌++◌, ◌≡◌, refl, ap, ◌∙◌, Bool, true, false, inl, inr, Bool-cases, Option-cases,
}
use kapp.DiffGraph.Graph.{ChangeGraph}
use kapp.ClusterApply.Waiting.{WaitResult, wait_error}
use kapp.ClusterApply.Steps.{Event, attempted, finished, let_go, wait_events, event_of, IsOrderly}
use kapp.ClusterApply.Collecting.{event_of-errored, event_of-done, event_of-in_progress}

abbrev pub is_quiet : List Event → Bool
is_quiet [] = true
is_quiet (attempted p ∷ es) = false
is_quiet (finished p ∷ es) = is_quiet es
is_quiet (let_go p ∷ es) = is_quiet es

is_quiet-append :
    (es fs : List Event) → is_quiet es ≡ true → is_quiet fs ≡ true → is_quiet (es ++ fs) ≡ true
is_quiet-append [] fs h k = k
is_quiet-append (attempted p ∷ es) fs h k = cc
is_quiet-append (finished p ∷ es) fs h k = is_quiet-append es fs h k
is_quiet-append (let_go p ∷ es) fs h k = is_quiet-append es fs h k

is_quiet-event_of : (r : WaitResult) → is_quiet (event_of r) ≡ true
is_quiet-event_of r = elim (Option-cases (wait_error r)) [
  | inr (e, h) ↦ ap is_quiet (event_of-errored r h)
  | inl h ↦ elim (Bool-cases r.state.done) [
    | inl d ↦ elim (Bool-cases r.state.successful) [
      | inl w ↦ ap is_quiet (event_of-done r h d) ∙ rw w refl
      | inr w ↦ ap is_quiet (event_of-done r h d) ∙ rw w refl
    ]
    | inr d ↦ elim (Bool-cases r.state.unblock_changes) [
      | inl u ↦ ap is_quiet (event_of-in_progress r h d) ∙ rw u refl
      | inr u ↦ ap is_quiet (event_of-in_progress r h d) ∙ rw u refl
    ]
  ]
]

pub is_quiet-wait_events : (rs : List WaitResult) → is_quiet (wait_events rs) ≡ true
unfolding wait_events
is_quiet-wait_events [] = refl
is_quiet-wait_events (r ∷ rs) =
    is_quiet-append (event_of r) (wait_events rs) (is_quiet-event_of r) (is_quiet-wait_events rs)

module _ (g : ChangeGraph) where
  pub IsOrderly-quiet :
      (es t : List Event) → is_quiet es ≡ true → IsOrderly g t → IsOrderly g (es ++ t)
  IsOrderly-quiet [] t h k = k
  IsOrderly-quiet (attempted p ∷ es) t h k = cc
  IsOrderly-quiet (finished p ∷ es) t h k = IsOrderly-quiet es t h k
  IsOrderly-quiet (let_go p ∷ es) t h k = IsOrderly-quiet es t h k
