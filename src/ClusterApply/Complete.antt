-- ===== src/ClusterApply/Complete.antt =====
-- About applying_changes.go, `ApplyingChanges.Complete`, at the end of a run of `Apply`.
use kapp.Prelude.{
  ℕ, suc, ◌≤◌, List, [], ◌∷◌, ◌++◌, ◌≡◌, ◌≢◌, refl, sym, ap, ◌∙◌, subst, Bool, true, false, not,
  ◌==◌, some, elem, elem-select, select, count, length, arith, inl, inr, Bool-cases,
}
use kapp.DiffGraph.Graph.{ChangeGraph, waiting_for, all_matching}
use kapp.DiffGraph.Paths.{IsAcyclic, IsClosed}
use kapp.DiffGraph.PathLaws.{missing-le-length}
use kapp.DiffGraph.Rounds.{some_blocked}
use kapp.DiffGraph.Blocked.{is_unblocked, none_blocked, unblocked_changes}
use kapp.DiffGraph.Linearize.{find_free}
use kapp.ClusterApply.Applying.{ApplyError, Unsuccessful, non_applied_changes}
use kapp.ClusterApply.ChangeSet.{
  ClusterChangeSetOpts, applying, returned, State, is_nil, to_apply, complete, after_apply,
}
use kapp.ClusterApply.Steps.{
  Event, Step, nothing_to_apply, apply, wait, Reached, start, step, is_inconsistency,
}
use kapp.ClusterApply.Invariant.{is_live, IsWell, is_nil-eq, nil-append, Invariant}
use kapp.ClusterApply.Waited.{Reached-Invariant}
use kapp.ClusterApply.Promises.{missing-length}
use kapp.ClusterApply.Consistent.{is_sound, apply_round_sound, wait_round_sound}

select-empty : (f : ℕ → Bool) (l : List ℕ) (x : ℕ) → select f l ≡ [] → elem x l ≡ true → f x ≡ false
select-empty f l x h m = elim (Bool-cases (f x)) [
  | inr n ↦ n
  | inl y ↦ absurd (cc (ap (elem x) (sym h) ∙ (elem-select x f l).1 (m, y)))
]

module _ (g : ChangeGraph) (closed : IsClosed (waiting_for g.memory) g.changes)
    (acyclic : IsAcyclic (waiting_for g.memory) g.changes)
    (single : (p : ℕ) → count p g.changes ≤ 1) where
  module _ (t : List Event) (s : State) (h : Invariant g t s) {us : List Unsuccessful}
      (at_apply : s.phase ≡ applying us) (none_left : to_apply g s ≡ [])
      (none_tracked : s.tracked_changes ≡ []) (none_wrong : s.unsuccessful ≡ [])
      (well : us ≡ []) where
    -- A change that can be applied was applied, is done and was unblocked.
    free-unblocked :
        (y : ℕ)
        → elem y g.changes ≡ true
        → is_unblocked g s.unblocked y ≡ true
        → (elem y s.applied ≡ true) × (elem y s.unblocked ≡ true)
    unfolding to_apply non_applied_changes unblocked_changes all_matching
    free-unblocked y known free =
        let applied : elem y s.applied ≡ true = ground (
          arith,
          select-empty (λ q. not (elem q s.applied)) (unblocked_changes g s.unblocked) y none_left
              ((elem-select y (is_unblocked g s.unblocked) g.changes).1 (known, free)),
        ) in
        (
          applied,
          h.unblocks (ap is_live at_apply) y (
              ground (
                arith,
                h.accounted none_wrong (subst IsWell (sym at_apply) well) y applied,
                ap (elem y) none_tracked,
              )),
        )

    all-applied : (p : ℕ) → elem p g.changes ≡ true → elem p s.applied ≡ true
    unfolding is_unblocked
    all-applied p known = elim (Bool-cases (none_blocked s.unblocked (waiting_for g.memory p))) [
      | inl free ↦ (free-unblocked p known free).0
      | inr stuck ↦
          let (b, waited, blocked) = some_blocked s.unblocked (waiting_for g.memory p) stuck in
          let (y, y_known, y_blocked, y_free) =
            find_free g closed acyclic s.unblocked (suc (length g.changes)) b []
              (closed p b known waited) blocked (λ x m. cc)
              (omega (arith, missing-le-length g.changes [])) in
          absurd (true-false (sym (free-unblocked y y_known y_free).1 ∙ y_blocked))
    ]
      where
        true-false : true ≢ false
        true-false e = cc

    applied-length : length g.changes ≡ length s.applied
    applied-length = omega (
      arith,
      missing-length g.changes s.applied h.distinct h.known,
      missing-length s.applied g.changes single all-applied,
    )

  complete_sound :
      (applied : List ℕ) (us : List Unsuccessful)
      → (us ≡ [] → length g.changes ≡ length applied)
      → is_sound (returned (complete g applied us)) ≡ true
  unfolding complete
  complete_sound applied [] h =
      let same : (length g.changes == length applied) ≡ true = ground (arith, h refl) in
      rw same refl
  complete_sound applied (u ∷ []) h = refl
  complete_sound applied (u ∷ w ∷ us) h = refl

  nothing_sound :
      (t : List Event) (s : State)
      → Invariant g t s
      → {us : List Unsuccessful} → s.phase ≡ applying us
      → to_apply g s ≡ []
      → is_sound (after_apply g [] us s).phase ≡ true
  unfolding after_apply
  nothing_sound t s h {us} e none_left = elim (Bool-cases (is_nil (s.tracked_changes ++ []))) [
    | inr more ↦ rw more refl
    | inl nil ↦ rw nil (
        complete_sound s.applied (s.unsuccessful ++ us) (λ none_wrong.
          let (none_before, well) = nil-append s.unsuccessful us none_wrong in
          applied-length t s h e none_left
            (nil-append s.tracked_changes [] (is_nil-eq (s.tracked_changes ++ []) nil)).0
            none_before well))
  ]

  module _ (opts : ClusterChangeSetOpts) where
    Step-sound :
        {s s' : State} {es : List Event} (t : List Event)
        → Step g opts s es s'
        → Invariant g t s
        → is_sound s'.phase ≡ true
    Step-sound t (nothing_to_apply s e none_left) h = nothing_sound t s h e none_left
    Step-sound t (apply s results timed_out {us} e some_left arrives) h =
        apply_round_sound g opts results timed_out us s
    Step-sound t (wait s results timed_out e arrives) h =
        wait_round_sound g opts results timed_out s e

    Reached-sound : {t : List Event} {s : State} → Reached g opts t s → is_sound s.phase ≡ true
    Reached-sound start = refl
    Reached-sound (step {t = t} before taken) = Step-sound t taken (Reached-Invariant g opts before)

    -- On a graph without cycles, closed under waiting and without repetitions, `Apply` never returns
    -- the error that not all changes were applied: the check in `Complete` holds whenever it is
    -- made.
    pub Reached-is_inconsistency :
        (t : List Event) (s : State) (e : ApplyError)
        → Reached g opts t s
        → s.phase ≡ returned (some e)
        → is_inconsistency e ≡ false
    Reached-is_inconsistency t s e reached h = ground (arith, Reached-sound reached, ap is_sound h)
