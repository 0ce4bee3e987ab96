-- ===== src/ClusterApply/Kept.antt =====
-- About applying_changes.go, `ApplyingChanges.Apply`, and the invariant of the states.
use kapp.Prelude.{
  ℕ, ◌≤◌, List, [], ◌++◌, ◌≡◌, ◌≢◌, refl, sym, ap, ◌∙◌, subst, Bool, true, false, Option, none,
  some, elem, elem-append, count, length, arith, inl, inr, Bool-cases, ◌⊎◌, if◌then◌else◌,
}
use kapp.DiffGraph.Graph.{ChangeGraph}
use kapp.ClusterApply.Applying.{ApplyError, ApplyResult, Unsuccessful, Received, receive}
use kapp.ClusterApply.ChangeSet.{
  ClusterChangeSetOpts, applying, waiting, returned, State, is_nil, to_apply, complete, after_apply,
  after_received, received_nothing, apply_round,
}
use kapp.ClusterApply.Steps.{Event, attempts, applied_of, Arrives, IsOrderly}
use kapp.ClusterApply.Receiving.{Receives, receive-Receives}
use kapp.ClusterApply.Invariant.{
  is_live, IsWell, nil-append, is_nil-eq, was_released-attempts, was_finished-attempts,
  Arrives-elem, IsOrderly-attempts, to_apply-elem, is_unblocked-elem, Invariant, Ready,
  complete-none,
}

module _ (g : ChangeGraph) where
  pub after_apply-Invariant :
      (t : List Event) (s : State) (changes : List ℕ) (us : List Unsuccessful)
      → Ready g t s changes us
      → Invariant g t (after_apply g changes us s)
  unfolding after_apply
  after_apply-Invariant t s changes us h = record {
    released = h.released;
    unblocks = λ live. h.unblocks;
    known = h.known;
    distinct = h.distinct;
    accounted = λ u w x m.
        let (u1, u2) = nil-append s.unsuccessful us u in
        ground (arith, h.accounted u1 u2 x m, elem-append x s.tracked_changes changes);
    orderly = h.orderly;
    ended = ended;
  }
    where
      ended :
          (if is_nil (s.tracked_changes ++ changes)
              then returned (complete g s.applied (s.unsuccessful ++ us))
              else waiting)
            ≡ returned none
          → ((s.tracked_changes ++ changes) ≡ [])
            × ((s.unsuccessful ++ us) ≡ [])
            × (length g.changes ≡ length s.applied)
      ended e = elim (Bool-cases (is_nil (s.tracked_changes ++ changes))) [
        | inl nil ↦
            let done =
              complete-none g s.applied (s.unsuccessful ++ us) (returned-eq _ (rw nil at e)) in
            (is_nil-eq (s.tracked_changes ++ changes) nil, done.0, done.1)
        | inr more ↦ absurd (waiting-neq (rw more at e))
      ]
        where
          returned-eq : (e : Option ApplyError) → returned e ≡ returned none → e ≡ none
          returned-eq e h = cc

          waiting-neq : waiting ≢ returned none
          waiting-neq h = cc

  module _ (opts : ClusterChangeSetOpts) (t : List Event) (s : State) (h : Invariant g t s) where
    pub nothing-Invariant :
        {us : List Unsuccessful} → s.phase ≡ applying us → Invariant g t (after_apply g [] us s)
    nothing-Invariant {us} e = after_apply-Invariant t s [] us (record {
      released = h.released;
      unblocks = h.unblocks (ap is_live e);
      known = h.known;
      distinct = h.distinct;
      accounted = λ u w x m. ground (arith, h.accounted u (subst IsWell (sym e) w) x m);
      orderly = h.orderly;
    })

    module _ {us : List Unsuccessful} (at_apply : s.phase ≡ applying us) (ps : List ℕ)
        (arrives : Arrives ps (to_apply g s)) where
      attempted_t : List Event
      attempted_t = attempts ps ++ t

      attempts-IsOrderly : IsOrderly g (attempts ps ++ t)
      attempts-IsOrderly =
          IsOrderly-attempts g ps t
            (λ p b m w. h.released b (
              is_unblocked-elem g s.unblocked p b
                (to_apply-elem g s p (Arrives-elem ps (to_apply g s) p arrives m)).1 w))
            h.orderly

      received-Ready :
          (r : Received)
          → Receives ps (received_nothing s us) r
          → Ready g
              (attempts ps ++ t)
              (record s { applied = r.applied })
              r.applied_changes
              r.unsuccessful
      received-Ready r k = record {
        released = λ x m. was_released-attempts x ps t ∙ h.released x m;
        unblocks =
            λ x m. h.unblocks (ap is_live at_apply) x (sym (was_finished-attempts x ps t) ∙ m);
        known = λ x m. elim (Bool-cases (elem x s.applied)) [
          | inl old ↦ h.known x old
          | inr new ↦
              (to_apply-elem g s x
                (Arrives-elem ps (to_apply g s) x arrives (ground (arith, k.from x m)))).0
        ];
        distinct = k.distinct h.distinct;
        accounted = λ u w x m. ground (
          arith,
          k.kept w x m,
          h.accounted u (subst IsWell (sym at_apply) (k.well w)) x,
          was_finished-attempts x ps t,
        );
        orderly = attempts-IsOrderly;
      }

      stopped-Invariant :
          (e : ApplyError) (applied : List ℕ)
          → ((x : ℕ) → elem x applied ≡ true → elem x g.changes ≡ true)
          → ((x : ℕ) → count x applied ≤ 1)
          → Invariant g
              (attempts ps ++ t)
              (record s { applied = applied; phase = returned (some e) })
      stopped-Invariant e applied known distinct = record {
        released = λ x m. was_released-attempts x ps t ∙ h.released x m;
        unblocks = λ live. cc;
        known = known;
        distinct = distinct;
        accounted = λ u w. absurd w;
        orderly = attempts-IsOrderly;
        ended = λ d. cc;
      }

      retried-Invariant :
          (r : Received)
          → Receives ps (received_nothing s us) r
          → is_nil r.applied_changes ≡ true
          → Invariant g
              (attempts ps ++ t)
              (record s { applied = r.applied; phase = applying r.unsuccessful })
      retried-Invariant r k nil =
          let ready = received-Ready r k in
          record {
            released = ready.released;
            unblocks = λ live. ready.unblocks;
            known = ready.known;
            distinct = ready.distinct;
            accounted = λ u w x m.
                ground
                  (arith, ready.accounted u w x m, ap (elem x) (is_nil-eq r.applied_changes nil));
            orderly = ready.orderly;
            ended = λ d. cc;
          }

      received-Invariant :
          (timed_out : Bool) (r : Received)
          → Receives ps (received_nothing s us) r
          → Invariant g (attempts ps ++ t) (after_received g timed_out r s)
      unfolding after_received
      received-Invariant true r k = elim (Bool-cases (is_nil r.applied_changes)) [
        | inr more ↦ rw more (
            after_apply-Invariant (attempts ps ++ t) (record s { applied = r.applied })
              r.applied_changes r.unsuccessful (received-Ready r k))
        | inl nil ↦
            rw nil (
              stopped-Invariant _ r.applied (received-Ready r k).known
                (received-Ready r k).distinct)
      ]
      received-Invariant false r k = elim (Bool-cases (is_nil r.applied_changes)) [
        | inr more ↦ rw more (
            after_apply-Invariant (attempts ps ++ t) (record s { applied = r.applied })
              r.applied_changes r.unsuccessful (received-Ready r k))
        | inl nil ↦ rw nil (retried-Invariant r k nil)
      ]

    pub apply_round-Invariant :
        {us : List Unsuccessful} (results : List ApplyResult) (timed_out : Bool)
        → s.phase ≡ applying us
        → Arrives (applied_of results) (to_apply g s)
        → Invariant g
            (attempts (applied_of results) ++ t)
            (apply_round opts g results timed_out us s)
    unfolding apply_round
    apply_round-Invariant {us} results timed_out at_apply arrives =
        go (receive opts.exit_early_on_apply_error results (received_nothing s us)) refl
      where
        go :
            (r : ApplyError ⊎ Received)
            → receive opts.exit_early_on_apply_error results (received_nothing s us) ≡ r
            → Invariant g (attempts (applied_of results) ++ t) (elim r [
              | inr r ↦ after_received g timed_out r s
              | inl e ↦ record s { phase = returned (some e) }
            ])
        go (inr r) e =
            received-Invariant at_apply (applied_of results) arrives timed_out r
              (receive-Receives opts.exit_early_on_apply_error results (received_nothing s us) r e)
        go (inl x) e =
            stopped-Invariant at_apply (applied_of results) arrives x s.applied h.known h.distinct
