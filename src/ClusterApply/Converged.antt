-- ===== src/ClusterApply/Converged.antt =====
-- converged_resource.go: the state of a resource from its own waiter and from those of its associated
-- resources. A `SpecificResource` is its method IsDoneApplying, which threads the timeouts of custom
-- waiting rules. `faint` colors a text. The order of resources with one description, which sort.Slice
-- leaves open, is kept.
use Prim.Native.Nat.{Ordering}
use Prim.Native.String.{◌++◌, compare}
use kapp.Prelude.{
  String, Bool, true, false, not, ◌&&◌, List, [], ◌∷◌, ◌++◌ as append, Option, none, some, ◌⊎◌, inl,
  inr, str_eq, is_empty, lookup, if◌then◌else◌, Result, ok, ◌>>=◌,
}
use kapp.Resources.Resource.{Resource}
use kapp.Resources.Unique.{unique_key}
use kapp.Waiters.State.{DoneApplyState, terminally_failed, failed, in_progress, succeeded}
use kapp.Waiters.Custom.{Timeouts}

pub record ResourceRef : Type 0 where
  pub group : String
  pub resource : String

abbrev pub SpecificResource : Type 0 → Type 0
SpecificResource E = Timeouts → Result E (DoneApplyState × Timeouts)

-- SpecificResFactory, with the references that it returns for every resource.
pub record SpecificResFactory (E : Type 0) : Type 0 where
  pub make : Resource → List Resource → Result E (Option (SpecificResource E))
  pub refs : List ResourceRef

pub record ConvergedResource (E : Type 0) : Type 0 where
  pub res : Resource
  pub associated_rs_func : Option (Resource → List ResourceRef → String ⊎ List Resource)
  pub factories : List (SpecificResFactory E)

-- The three results of IsDoneApplying.
pub record Reply : Type 0 where
  pub state : DoneApplyState
  pub desc_msgs : List String
  pub error : Option String

abbrev pub disable_arw_ann_key : String
disable_arw_ann_key = "kapp.k14s.io/disable-associated-resources-wait"

-- associatedRs[i].Description() > associatedRs[j].Description()
goes_before : Resource → Resource → Bool
goes_before a b = elim (compare a.description b.description) [ Ordering.gt ↦ true | _ ↦ false ]

insert_sorted : Resource → List Resource → List Resource
unfolding goes_before
insert_sorted res [] = res ∷ []
insert_sorted res (r ∷ rs) =
    let rest = insert_sorted res rs in if goes_before r res then r ∷ rest else res ∷ r ∷ rs

sort_resources : List Resource → List Resource
unfolding insert_sorted
sort_resources [] = []
sort_resources (res ∷ rs) = insert_sorted res (sort_resources rs)

remove_parent : String → List Resource → List Resource
unfolding unique_key
remove_parent key [] = []
remove_parent key (res ∷ rs) =
    let rest = remove_parent key rs in if str_eq key (unique_key res) then rs else res ∷ rest

unfoldable pub sort_associated_rs : Resource → List Resource → List Resource
unfolding remove_parent sort_resources unique_key
sort_associated_rs parent rs = remove_parent (unique_key parent) (sort_resources rs)

query :
    (Resource → List ResourceRef → String ⊎ List Resource)
    → Resource
    → List ResourceRef
    → String ⊎ List Resource
unfolding sort_associated_rs
query func res [] = inr []
query func res (ref ∷ refs) = elim (func res (ref ∷ refs)) [
  | inl e ↦ inl e
  | inr rs ↦ inr (sort_associated_rs res rs)
]

-- A resource for which there is no waiter is done.
unfoldable pub or_done : Option DoneApplyState → DoneApplyState
or_done none = succeeded ""
or_done (some state) = state

module _ {E : Type 0} where
  -- isResourceDoneApplying
  unfoldable pub resource_state :
      List (SpecificResFactory E)
      → Resource
      → List Resource
      → Timeouts
      → Result E (Option DoneApplyState × Timeouts)
  resource_state [] res rs timers = ok (none, timers)
  resource_state (f ∷ fs) res rs timers = f.make res rs >>= λ matched. elim matched [
    | none ↦ resource_state fs res rs timers
    | some specific ↦ specific timers >>= λ (state, timers'). ok (some state, timers')
  ]

  -- The references of the first factory that applies.
  refs_for : List (SpecificResFactory E) → Resource → Result E (List ResourceRef)
  refs_for [] res = ok []
  refs_for (f ∷ fs) res =
      f.make res [] >>= λ matched. elim matched [ none ↦ refs_for fs res | some _ ↦ ok f.refs ]

  unfoldable pub associated_rs : ConvergedResource E → Result E (String ⊎ List Resource)
  unfolding refs_for query
  associated_rs c = elim c.associated_rs_func [
    | none ↦ ok (inr [])
    | some func ↦ refs_for c.factories c.res >>= λ refs. ok (query func c.res refs)
  ]

  unfoldable pub child_states :
      List (SpecificResFactory E)
      → List Resource
      → List Resource
      → Timeouts
      → Result E (List (Resource × DoneApplyState) × Timeouts)
  unfolding resource_state or_done
  child_states fs all [] timers = ok ([], timers)
  child_states fs all (res ∷ rs) timers = resource_state fs res all timers >>= λ (state, timers').
      child_states fs all rs timers' >>= λ (states, timers'').
      ok ((res, or_done state) ∷ states, timers'')

-- NewDoneApplyStateUI(state, nil).State
unfoldable pub state_ui : DoneApplyState → String
state_ui state =
    if state.done && state.successful
    then "ok"
    else if state.done && not state.successful
    then "fail"
    else "ongoing"

-- The first state that failed for good, then the first that is not done.
unfoldable pub first_failed : List (Resource × DoneApplyState) → Option DoneApplyState
unfolding terminally_failed
first_failed [] = none
first_failed ((res, state) ∷ states) =
    let rest = first_failed states in if terminally_failed state then some state else rest

unfoldable pub first_not_done : List (Resource × DoneApplyState) → Option DoneApplyState
first_not_done [] = none
first_not_done ((res, state) ∷ states) =
    let rest = first_not_done states in if state.done then rest else some state

unfoldable pub of_children : List (Resource × DoneApplyState) → DoneApplyState
unfolding first_failed first_not_done
of_children states = elim (first_failed states) [
  | some state ↦ state
  | none ↦ elim (first_not_done states) [ some state ↦ state | none ↦ succeeded "" ]
]

module _ (faint : String → String) where
  parent_desc_msg : DoneApplyState → List String
  parent_desc_msg state = if is_empty state.message then [] else (faint " ^ " ++ state.message) ∷ []

  child_desc_msg : Resource → DoneApplyState → List String
  unfolding state_ui
  child_desc_msg res state =
      (faint " L " ++ state_ui state ++ ": waiting on " ++ res.description)
      ∷ (if is_empty state.message then [] else ("   " ++ faint " ^ " ++ state.message) ∷ [])

  pub child_desc_msgs : List (Resource × DoneApplyState) → List String
  unfolding child_desc_msg
  child_desc_msgs [] = []
  child_desc_msgs ((res, state) ∷ states) =
      append (child_desc_msg res state) (child_desc_msgs states)

-- The parent's state where it has one, else what its children say. `parent_or` is the case where the
-- annotation switches the wait for them off.
unfoldable pub parent_or : Option DoneApplyState → DoneApplyState → DoneApplyState
parent_or (some state) other = state
parent_or none other = other

-- DoneApplyState{Done: true} beside an error.
abbrev pub errored : List String → String → Reply
errored msgs e = record { state = failed ""; desc_msgs = msgs; error = some e }

abbrev pub replied : List String → DoneApplyState → Reply
replied msgs state = record { state = state; desc_msgs = msgs; error = none }

module _ {E : Type 0} (faint : String → String) (c : ConvergedResource E) where
  unfoldable pub wait_for_children :
      List Resource → List String → Option DoneApplyState → Timeouts → Result E (Reply × Timeouts)
  unfolding child_states child_desc_msgs parent_or of_children
  wait_for_children rs msgs parent timers =
      child_states c.factories rs rs timers >>= λ (states, timers'). ok (
        replied (append msgs (child_desc_msgs faint states))
            (parent_or parent (of_children states)),
        timers',
      )

  opted_out_err : String
  opted_out_err =
      "Expected annotation '" ++ disable_arw_ann_key ++ "' on resource '" ++ c.res.description
      ++ "' to have value ''"

  -- What follows where the parent is not done.
  unfoldable pub after_parent :
      List Resource → List String → Option DoneApplyState → Timeouts → Result E (Reply × Timeouts)
  unfolding wait_for_children opted_out_err parent_or
  after_parent rs msgs parent timers = elim (lookup disable_arw_ann_key c.res.annotations) [
    | none ↦ wait_for_children rs msgs parent timers
    | some value ↦
        if is_empty value
        then ok (replied msgs (parent_or parent (succeeded "")), timers)
        else ok (errored msgs opted_out_err, timers)
  ]

  unfoldable pub with_parent :
      List Resource → Option DoneApplyState → Timeouts → Result E (Reply × Timeouts)
  unfolding after_parent parent_desc_msg
  with_parent rs none timers = after_parent rs [] none timers
  with_parent rs (some state) timers =
      let rest = after_parent rs (parent_desc_msg faint state) (some state) timers in
      if state.done then ok (replied (parent_desc_msg faint state) state, timers) else rest

  unfoldable pub with_associated : String ⊎ List Resource → Timeouts → Result E (Reply × Timeouts)
  unfolding resource_state with_parent
  with_associated (inl e) timers =
      ok (record { state = in_progress ""; desc_msgs = []; error = some e }, timers)
  with_associated (inr rs) timers =
      resource_state c.factories c.res rs timers >>= λ (parent, timers').
      with_parent rs parent timers'

  -- IsDoneApplying
  unfoldable pub is_done_applying : Timeouts → Result E (Reply × Timeouts)
  unfolding associated_rs with_associated
  is_done_applying timers = associated_rs c >>= λ found. with_associated found timers
