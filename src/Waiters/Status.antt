-- ===== src/Waiters/Status.antt =====
-- conditions.go, deleting.go. The map of statuses is a list in the order in which `range` visits it.
use kapp.Prelude.{
  String, Bool, true, false, List, [], ◌∷◌, Option, none, some, str_eq, lookup, put, join,
  if◌then◌else◌,
}
use Prim.Native.String.{◌++◌}
use kapp.Resources.Json.{Json, str, arr, obj, Items, nil, cons, Fields, get_field}
use kapp.Resources.Resource.{Resource, status}
use kapp.Waiters.State.{DoneApplyState, in_progress}

-- v.(string) of a field of a decoded object.
as_text : Option Json → Option String
as_text (some (str s)) = some s
as_text (some _) = none
as_text none = none

add_status : Json → List (String × String) → List (String × String)
unfolding as_text
add_status (obj fs) m = elim (as_text (get_field "type" fs)) [
  | none ↦ m
  | some t ↦ elim (as_text (get_field "status" fs)) [ none ↦ m | some s ↦ put t s m ]
]
add_status _ m = m

add_statuses : Items → List (String × String) → List (String × String)
unfolding add_status
add_statuses nil m = m
add_statuses (cons x xs) m = add_statuses xs (add_status x m)

statuses_in : Option Fields → List (String × String)
unfolding add_statuses
statuses_in none = []
statuses_in (some fs) = elim (get_field "conditions" fs) [
  | some (arr xs) ↦ add_statuses xs []
  | _ ↦ []
]

-- Conditions.statuses
unfoldable pub statuses : Resource → List (String × String)
unfolding statuses_in
statuses res = statuses_in (status res)

not_true : String → String → String
not_true t status = "Condition " ++ t ++ " is not True (" ++ status ++ ")"

select_true : List (String × String) → List String → Bool × String
unfolding not_true
select_true m [] = (true, "")
select_true m (t ∷ types) = elim (lookup t m) [
  | none ↦ (false, "Condition " ++ t ++ " is not set")
  | some status ↦
      let rest = select_true m types in
      if str_eq status "True" then rest else (false, not_true t status)
]

unfoldable pub is_selected_true : Resource → List String → Bool × String
unfolding select_true
is_selected_true res types = select_true (statuses res) types

each_true : List (String × String) → Bool × String
unfolding not_true
each_true [] = (true, "")
each_true ((t, status) ∷ m) =
    let rest = each_true m in if str_eq status "True" then rest else (false, not_true t status)

any_true : List (String × String) → Bool × String
unfolding each_true
any_true [] = (false, "No conditions found")
any_true (s ∷ m) = each_true (s ∷ m)

pub is_all_true : Resource → Bool × String
unfolding any_true
is_all_true res = any_true (statuses res)

-- Deleting.IsDoneApplying
unfoldable pub deleting_state : List String → DoneApplyState
deleting_state [] = in_progress "Deleting"
deleting_state (f ∷ fs) = in_progress ("Waiting on finalizers: " ++ join ", " (f ∷ fs))

-- NewDeleting and IsDoneApplying: `none` where the resource is not being deleted.
unfoldable pub deleting : Resource → Option DoneApplyState
unfolding deleting_state
deleting res = if res.is_deleting then some (deleting_state res.finalizers) else none
