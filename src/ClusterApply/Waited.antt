-- ===== src/ClusterApply/Waited.antt =====
-- About waiting_changes.go, `WaitForAny`, and the invariant of the states; then about whole runs.
use kapp.Prelude.{
  ℕ, List, [], ◌++◌, ◌≡◌, ◌≢◌, refl, sym, ap, subst, Bool, true, false, not, ◌||◌, none, some,
  arith, inl, inr, Bool-cases, ◌⊎◌, if◌then◌else◌,
}
use kapp.DiffGraph.Graph.{ChangeGraph}
use kapp.ClusterApply.Applying.{timed_out_waiting, ApplyError, Unsuccessful}
use kapp.ClusterApply.Waiting.{WaitResult, Collected, collect}
use kapp.ClusterApply.ChangeSet.{
  ClusterChangeSetOpts, Phase, applying, waiting, returned, State, initial, is_nil, unblock_all,
  after_collected, collected_nothing, wait_round,
}
use kapp.ClusterApply.Steps.{
  Event, waited_of, wait_events, Arrives, Step, nothing_to_apply, apply, wait, Reached, start, step,
  IsOrderly,
}
use kapp.ClusterApply.Collecting.{
  was_released-append, was_finished-append, finished-released, Collects, collect-Collects,
}
use kapp.ClusterApply.Invariant.{
  is_live, IsWell, nil-append, is_nil-eq, elem-unblock_all, Arrives-elem, Invariant,
}
use kapp.ClusterApply.Quiet.{is_quiet-wait_events, IsOrderly-quiet}
use kapp.ClusterApply.Kept.{nothing-Invariant, apply_round-Invariant}

module _ (g : ChangeGraph) where
  module _ (opts : ClusterChangeSetOpts) (t : List Event) (s : State) (h : Invariant g t s)
      (at_wait : s.phase ≡ waiting) (results : List WaitResult)
      (arrives : Arrives (waited_of results) s.tracked_changes) where
    abbrev seen : List Event
    seen = wait_events results ++ t

    seen-IsOrderly : IsOrderly g seen
    seen-IsOrderly =
        IsOrderly-quiet g (wait_events results) t (is_quiet-wait_events results) h.orderly

    returned-Invariant :
        (e : ApplyError) (tracked : List ℕ)
        → Invariant g seen (record s { tracked_changes = tracked; phase = returned (some e) })
    returned-Invariant e tracked = record {
      released =
          λ x m. ground (arith, was_released-append x (wait_events results) t, h.released x m);
      unblocks = λ live. cc;
      known = h.known;
      distinct = h.distinct;
      accounted = λ u w. absurd w;
      orderly = seen-IsOrderly;
      ended = λ d. cc;
    }

    -- A round whose changes are still tracked, done or in `unsuccessful`.
    continued-Invariant :
        (w : Collected) (phase : Phase) (unsuccessful : List Unsuccessful)
        → Collects (waited_of results) (wait_events results) collected_nothing w
        → is_live phase ≡ true
        → (unsuccessful ≡ [] → (s.unsuccessful ≡ []) × (w.unsuccessful ≡ []))
        → Invariant g seen (record s {
          tracked_changes = w.in_progress;
          unsuccessful = unsuccessful;
          unblocked = unblock_all w.done_changes s.unblocked;
          phase = phase;
        })
    continued-Invariant w phase unsuccessful k live well = record {
      released = λ x m. ground (
        arith,
        elem-unblock_all x w.done_changes s.unblocked,
        k.released x,
        was_released-append x (wait_events results) t,
        h.released x,
      );
      unblocks = λ _ x m. ground (
        arith,
        elem-unblock_all x w.done_changes s.unblocked,
        k.released x,
        was_finished-append x (wait_events results) t,
        h.unblocks (ap is_live at_wait) x,
        finished-released x (wait_events results),
      );
      known = h.known;
      distinct = h.distinct;
      accounted = λ u _ x m. ground (
        arith,
        was_finished-append x (wait_events results) t,
        h.accounted (well u).0 (subst IsWell (sym at_wait) tt) x m,
        k.kept (well u).1 x,
        Arrives-elem s.tracked_changes (waited_of results) x (λ p. sym (arrives p)),
      );
      orderly = seen-IsOrderly;
      ended = λ d. absurd (live-returned phase live d);
    }
      where
        live-returned : (phase : Phase) → is_live phase ≡ true → phase ≢ returned none
        live-returned (applying us) l d = cc
        live-returned waiting l d = cc
        live-returned (returned e) l d = cc

    -- Nothing is done and nothing went wrong, so the next round waits again.
    again-Invariant :
        (w : Collected)
        → Collects (waited_of results) (wait_events results) collected_nothing w
        → w.done_changes ≡ []
        → w.unsuccessful ≡ []
        → Invariant g seen (record s { tracked_changes = w.in_progress })
    again-Invariant w k none_done none_wrong =
        subst
          (λ done. Invariant g seen (record s {
            tracked_changes = w.in_progress;
            unblocked = unblock_all done s.unblocked;
          }))
          none_done
          (continued-Invariant w s.phase s.unsuccessful k (ap is_live at_wait)
            (λ u. (u, none_wrong)))

    collected-Invariant :
        (timed_out : Bool) (w : Collected)
        → Collects (waited_of results) (wait_events results) collected_nothing w
        → Invariant g seen (after_collected timed_out w s)
    unfolding after_collected
    collected-Invariant timed_out w k =
        elim (Bool-cases
          (is_nil w.in_progress || not (is_nil w.done_changes) || not (is_nil w.unsuccessful))) [
            | inl leave ↦ rw leave (
                continued-Invariant w (applying []) (s.unsuccessful ++ w.unsuccessful) k refl
                  (nil-append s.unsuccessful w.unsuccessful))
            | inr stay ↦ rw stay (
                go timed_out (is_nil-eq w.done_changes (ground arith))
                  (is_nil-eq w.unsuccessful (ground arith)))
          ]
      where
        go :
            (timed_out : Bool)
            → w.done_changes ≡ []
            → w.unsuccessful ≡ []
            → Invariant g seen (
                if timed_out
                then record s {
                  tracked_changes = w.in_progress;
                  phase = returned (some (timed_out_waiting w.in_progress));
                }
                else record s { tracked_changes = w.in_progress })
        go true d u = returned-Invariant _ w.in_progress
        go false d u = again-Invariant w k d u

    wait_round-Invariant :
        (timed_out : Bool) → Invariant g seen (wait_round opts results timed_out s)
    unfolding wait_round
    wait_round-Invariant timed_out =
        go (collect opts.exit_early_on_wait_error results collected_nothing) refl
      where
        go :
            (w : ApplyError ⊎ Collected)
            → collect opts.exit_early_on_wait_error results collected_nothing ≡ w
            → Invariant g seen (elim w [
              | inr w ↦ after_collected timed_out w s
              | inl e ↦ record s { phase = returned (some e) }
            ])
        go (inr w) e =
            collected-Invariant timed_out w
              (collect-Collects opts.exit_early_on_wait_error results collected_nothing w e)
        go (inl x) e = returned-Invariant x s.tracked_changes

  initial-Invariant : Invariant g [] initial
  initial-Invariant = record {
    released = λ x m. cc;
    unblocks = λ _ x m. cc;
    known = λ x m. cc;
    distinct = λ x. omega arith;
    accounted = λ u w x m. cc;
    orderly = tt;
    ended = λ d. cc;
  }

  Step-Invariant :
      (opts : ClusterChangeSetOpts) {s s' : State} {es : List Event} (t : List Event)
      → Step g opts s es s'
      → Invariant g t s
      → Invariant g (es ++ t) s'
  Step-Invariant opts t (nothing_to_apply s e none_left) h = nothing-Invariant g opts t s h e
  Step-Invariant opts t (apply s results timed_out e some_left arrives) h =
      apply_round-Invariant g opts t s h results timed_out e arrives
  Step-Invariant opts t (wait s results timed_out e arrives) h =
      wait_round-Invariant opts t s h e results arrives timed_out

  pub Reached-Invariant :
      (opts : ClusterChangeSetOpts) {t : List Event} {s : State}
      → Reached g opts t s
      → Invariant g t s
  Reached-Invariant opts start = initial-Invariant
  Reached-Invariant opts (step {t = t} before taken) =
      Step-Invariant opts t taken (Reached-Invariant opts before)
