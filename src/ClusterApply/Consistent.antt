-- ===== src/ClusterApply/Consistent.antt =====
-- About the errors that the rounds of applying_changes.go and waiting_changes.go return.
use kapp.Prelude.{
  ℕ, List, [], ◌∷◌, ◌++◌, ◌≡◌, refl, ap, Bool, true, false, not, ◌||◌, none, some, inl, inr,
  Bool-cases, Option-cases, ◌⊎◌,
}
use kapp.DiffGraph.Graph.{ChangeGraph}
use kapp.ClusterApply.Applying.{
  ApplyError, one_unsuccessful, ApplyResult, Unsuccessful, Received, receive,
}
use kapp.ClusterApply.Waiting.{WaitResult, Collected, collect, wait_error}
use kapp.ClusterApply.ChangeSet.{
  ClusterChangeSetOpts, Phase, applying, waiting, returned, State, is_nil, after_apply,
  after_received, received_nothing, apply_round, after_collected, collected_nothing, wait_round,
}
use kapp.ClusterApply.Steps.{is_inconsistency}

abbrev pub is_sound : Phase → Bool
is_sound (applying us) = true
is_sound waiting = true
is_sound (returned none) = true
is_sound (returned (some e)) = not (is_inconsistency e)

-- The errors that end a round at once.
one-consistent :
    {A : Type 0} (u : Unsuccessful) (e : ApplyError)
    → ◌≡◌ {A = ApplyError ⊎ A} (inl (one_unsuccessful u)) (inl e)
    → is_inconsistency e ≡ false
one-consistent u e h = cc

receive-err :
    (exit_on_error : Bool) (results : List ApplyResult) (r : Received) (e : ApplyError)
    → receive exit_on_error results r ≡ inl e
    → is_inconsistency e ≡ false
unfolding receive
receive-err exit [] r e h = cc
receive-err exit (result ∷ results) r e h = elim (Option-cases result.error) [
  | inl none_e ↦ receive-err exit results _ e (rw (none_e, receive) at h)
  | inr (x, some_e) ↦ elim (Bool-cases result.retryable) [
    | inl may ↦ receive-err exit results _ e (rw (some_e, may, receive) at h)
    | inr fatal ↦ elim (Bool-cases exit) [
      | inl stop ↦ one-consistent _ e (rw (some_e, fatal, stop, receive) at h)
      | inr go_on ↦ receive-err exit results _ e (rw (some_e, fatal, go_on, receive) at h)
    ]
  ]
]

collect-err :
    (exit_on_error : Bool) (results : List WaitResult) (w : Collected) (e : ApplyError)
    → collect exit_on_error results w ≡ inl e
    → is_inconsistency e ≡ false
unfolding collect
collect-err exit [] w e h = cc
collect-err exit (result ∷ results) w e h = elim (Option-cases (wait_error result)) [
  | inr (x, some_x) ↦ elim (Bool-cases exit) [
    | inl stop ↦ one-consistent _ e (rw (some_x, stop, collect) at h)
    | inr go_on ↦ collect-err exit results _ e (rw (some_x, go_on, collect) at h)
  ]
  | inl none_x ↦ elim (Bool-cases result.state.done) [
    | inr not_done ↦ collect-err exit results _ e (rw (none_x, not_done, collect) at h)
    | inl done ↦ elim (Bool-cases result.state.successful) [
      | inl well ↦ collect-err exit results _ e (rw (none_x, done, well, collect) at h)
      | inr badly ↦ elim (Bool-cases exit) [
        | inl stop ↦ one-consistent _ e (rw (none_x, done, badly, stop, collect) at h)
        | inr go_on ↦ collect-err exit results _ e (rw (none_x, done, badly, go_on, collect) at h)
      ]
    ]
  ]
]

module _ (g : ChangeGraph) (opts : ClusterChangeSetOpts) where
  after_apply-some :
      (changes : List ℕ) (us : List Unsuccessful) (s : State)
      → is_nil changes ≡ false
      → is_sound (after_apply g changes us s).phase ≡ true
  unfolding after_apply
  after_apply-some changes us s h = rw (not_nil s.tracked_changes changes h) refl
    where
      not_nil : (xs ys : List ℕ) → is_nil ys ≡ false → is_nil (xs ++ ys) ≡ false
      not_nil [] ys h = h
      not_nil (x ∷ xs) ys h = refl

  after_received_sound :
      (timed_out : Bool) (r : Received) (s : State)
      → is_sound (after_received g timed_out r s).phase ≡ true
  unfolding after_received
  after_received_sound true r s = elim (Bool-cases (is_nil r.applied_changes)) [
    | inl nil ↦ rw nil refl
    | inr more ↦
        rw more (
          after_apply-some r.applied_changes r.unsuccessful (record s { applied = r.applied }) more)
  ]
  after_received_sound false r s = elim (Bool-cases (is_nil r.applied_changes)) [
    | inl nil ↦ rw nil refl
    | inr more ↦
        rw more (
          after_apply-some r.applied_changes r.unsuccessful (record s { applied = r.applied }) more)
  ]

  pub apply_round_sound :
      (results : List ApplyResult) (timed_out : Bool) (us : List Unsuccessful) (s : State)
      → is_sound (apply_round opts g results timed_out us s).phase ≡ true
  unfolding apply_round
  apply_round_sound results timed_out us s =
      go (receive opts.exit_early_on_apply_error results (received_nothing s us)) refl
    where
      go :
          (r : ApplyError ⊎ Received)
          → receive opts.exit_early_on_apply_error results (received_nothing s us) ≡ r
          → is_sound
              (elim r as (λ _. State) [
                | inr r ↦ after_received g timed_out r s
                | inl e ↦ record s { phase = returned (some e) }
              ]).phase
            ≡ true
      go (inr r) e = after_received_sound timed_out r s
      go (inl x) e = ap not (receive-err opts.exit_early_on_apply_error results _ x e)

  after_collected_sound :
      (timed_out : Bool) (w : Collected) (s : State)
      → s.phase ≡ waiting
      → is_sound (after_collected timed_out w s).phase ≡ true
  unfolding after_collected
  after_collected_sound true w s h =
      elim (Bool-cases
        (is_nil w.in_progress || not (is_nil w.done_changes) || not (is_nil w.unsuccessful))) [
          | inl leave ↦ rw leave refl
          | inr stay ↦ rw stay refl
        ]
  after_collected_sound false w s h =
      elim (Bool-cases
        (is_nil w.in_progress || not (is_nil w.done_changes) || not (is_nil w.unsuccessful))) [
          | inl leave ↦ rw leave refl
          | inr stay ↦ rw stay (ap is_sound h)
        ]

  pub wait_round_sound :
      (results : List WaitResult) (timed_out : Bool) (s : State)
      → s.phase ≡ waiting
      → is_sound (wait_round opts results timed_out s).phase ≡ true
  unfolding wait_round
  wait_round_sound results timed_out s h =
      go (collect opts.exit_early_on_wait_error results collected_nothing) refl
    where
      go :
          (w : ApplyError ⊎ Collected)
          → collect opts.exit_early_on_wait_error results collected_nothing ≡ w
          → is_sound
              (elim w as (λ _. State) [
                | inr w ↦ after_collected timed_out w s
                | inl e ↦ record s { phase = returned (some e) }
              ]).phase
            ≡ true
      go (inr w) e = after_collected_sound timed_out w s h
      go (inl x) e = ap not (collect-err opts.exit_early_on_wait_error results _ x e)
