-- ===== src/ClusterApply/Invariant.antt =====
-- About cluster_change_set.go, `ClusterChangeSet.Apply`: the invariant of its states.
use kapp.Prelude.{
  ℕ, ◌≤◌, List, [], ◌∷◌, ◌++◌, ◌≡◌, refl, ◌∙◌, Bool, true, false, not, ◌||◌, none, some, elem,
  elem-select, count, length, arith,
}
use kapp.DiffGraph.Graph.{ChangeGraph, waiting_for, all_matching}
use kapp.DiffGraph.Blocked.{is_unblocked, unblocked_changes, unblock}
use kapp.DiffGraph.Rounds.{elem-count, none_blocked-elem}
use kapp.ClusterApply.Applying.{Unsuccessful, non_applied_changes}
use kapp.ClusterApply.ChangeSet.{
  Phase, applying, waiting, returned, State, is_nil, to_apply, complete, unblock_all,
}
use kapp.ClusterApply.Steps.{Event, attempts, was_finished, was_released, Arrives, IsOrderly}

abbrev pub is_live : Phase → Bool
is_live (applying us) = true
is_live waiting = true
is_live (returned e) = false

-- Nothing went wrong that is not among the state's `unsuccessful`.
abbrev pub IsWell : Phase → Type 0
IsWell (applying us) = us ≡ []
IsWell waiting = Unit {0}
IsWell (returned none) = Unit {0}
IsWell (returned (some e)) = ⊥

pub nil-append : {A : Type 0} (xs ys : List A) → (xs ++ ys) ≡ [] → (xs ≡ []) × (ys ≡ [])
nil-append [] ys h = (refl, h)
nil-append (x ∷ xs) ys h = cc

pub is_nil-eq : {A : Type 0} (xs : List A) → is_nil xs ≡ true → xs ≡ []
is_nil-eq [] h = refl
is_nil-eq (x ∷ xs) h = cc

pub was_released-attempts :
    (x : ℕ) (ps : List ℕ) (t : List Event) → was_released x (attempts ps ++ t) ≡ was_released x t
was_released-attempts x [] t = refl
was_released-attempts x (p ∷ ps) t = was_released-attempts x ps t

pub was_finished-attempts :
    (x : ℕ) (ps : List ℕ) (t : List Event) → was_finished x (attempts ps ++ t) ≡ was_finished x t
was_finished-attempts x [] t = refl
was_finished-attempts x (p ∷ ps) t = was_finished-attempts x ps t

pub elem-unblock_all :
    (x : ℕ) (ps unblocked : List ℕ)
    → elem x (unblock_all ps unblocked) ≡ (elem x ps || elem x unblocked)
unfolding unblock
elem-unblock_all x [] unblocked = refl
elem-unblock_all x (p ∷ ps) unblocked = elem-unblock_all x ps (p ∷ unblocked) ∙ ground arith

pub Arrives-elem : (ps qs : List ℕ) (x : ℕ) → Arrives ps qs → elem x ps ≡ true → elem x qs ≡ true
Arrives-elem ps qs x h m = ground (arith, elem-count x ps, elem-count x qs, h x)

module _ (g : ChangeGraph) where
  pub IsOrderly-attempts :
      (ps : List ℕ) (t : List Event)
      → ((p b : ℕ)
          → elem p ps ≡ true
          → elem b (waiting_for g.memory p) ≡ true
          → was_released b t ≡ true)
      → IsOrderly g t
      → IsOrderly g (attempts ps ++ t)
  IsOrderly-attempts [] t h k = k
  IsOrderly-attempts (p ∷ ps) t h k = (
    λ b w. was_released-attempts b ps t ∙ h p b (ground arith) w,
    IsOrderly-attempts ps t (λ q b m w. h q b (ground arith) w) k,
  )

  -- The changes of a round are of the graph, and all that they wait for is unblocked.
  pub to_apply-elem :
      (s : State) (p : ℕ)
      → elem p (to_apply g s) ≡ true
      → (elem p g.changes ≡ true) × (is_unblocked g s.unblocked p ≡ true)
  unfolding to_apply non_applied_changes unblocked_changes all_matching
  to_apply-elem s p h =
      (elem-select p (is_unblocked g s.unblocked) g.changes).0
        ((elem-select p (λ q. not (elem q s.applied)) (unblocked_changes g s.unblocked)).0 h).0

  pub is_unblocked-elem :
      (s p b : _)
      → is_unblocked g s p ≡ true
      → elem b (waiting_for g.memory p) ≡ true
      → elem b s ≡ true
  unfolding is_unblocked
  is_unblocked-elem s p b h w = none_blocked-elem s (waiting_for g.memory p) b h w

  pub record Invariant (t : List Event) (s : State) : Type 0 where
    pub released : (x : ℕ) → elem x s.unblocked ≡ true → was_released x t ≡ true
    pub unblocks :
        is_live s.phase ≡ true → (x : ℕ) → was_finished x t ≡ true → elem x s.unblocked ≡ true
    pub known : (x : ℕ) → elem x s.applied ≡ true → elem x g.changes ≡ true
    pub distinct : (x : ℕ) → count x s.applied ≤ 1
    pub accounted :
        s.unsuccessful ≡ []
        → IsWell s.phase
        → (x : ℕ) → elem x s.applied ≡ true
        → (elem x s.tracked_changes || was_finished x t) ≡ true
    pub orderly : IsOrderly g t
    pub ended :
        s.phase ≡ returned none
        → (s.tracked_changes ≡ []) × (s.unsuccessful ≡ []) × (length g.changes ≡ length s.applied)

  -- What holds when `ApplyingChanges.Apply` returns what it applied.
  pub record Ready (t : List Event) (s : State) (changes : List ℕ) (us : List Unsuccessful)
      : Type 0 where
    pub released : (x : ℕ) → elem x s.unblocked ≡ true → was_released x t ≡ true
    pub unblocks : (x : ℕ) → was_finished x t ≡ true → elem x s.unblocked ≡ true
    pub known : (x : ℕ) → elem x s.applied ≡ true → elem x g.changes ≡ true
    pub distinct : (x : ℕ) → count x s.applied ≤ 1
    pub accounted :
        s.unsuccessful ≡ []
        → us ≡ []
        → (x : ℕ) → elem x s.applied ≡ true
        → (elem x s.tracked_changes || (elem x changes || was_finished x t)) ≡ true
    pub orderly : IsOrderly g t

  pub complete-none :
      (applied : List ℕ) (us : List Unsuccessful)
      → complete g applied us ≡ none
      → (us ≡ []) × (length g.changes ≡ length applied)
  unfolding complete
  complete-none applied [] h = (refl, ground arith)
  complete-none applied (u ∷ []) h = cc
  complete-none applied (u ∷ w ∷ us) h = cc
