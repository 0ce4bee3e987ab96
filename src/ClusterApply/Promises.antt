-- ===== src/ClusterApply/Promises.antt =====
-- About cluster_change_set.go, `ClusterChangeSet.Apply`: what its traces say.
use kapp.Prelude.{
  ℕ, ◌+◌, ◌≤◌, List, [], ◌∷◌, ◌≡◌, sym, ap, subst, true, false, none, elem, elem-cons, count,
  length, arith, inl, inr,
}
use kapp.DiffGraph.Graph.{ChangeGraph}
use kapp.DiffGraph.PathLaws.{missing, missing-cons, missing-le-length}
use kapp.DiffGraph.Rounds.{elem-count}
use kapp.ClusterApply.ChangeSet.{ClusterChangeSetOpts, returned, State}
use kapp.ClusterApply.Steps.{Event, was_finished, Reached, IsOrderly}
use kapp.ClusterApply.Invariant.{IsWell}
use kapp.ClusterApply.Waited.{Reached-Invariant}

-- A list without repetitions whose members stand in `cs` is no longer than `cs` less what it misses.
pub missing-length :
    (cs l : List ℕ)
    → ((x : ℕ) → count x l ≤ 1)
    → ((x : ℕ) → elem x l ≡ true → elem x cs ≡ true)
    → missing cs l + length l ≤ length cs
missing-length cs [] d h = omega (arith, missing-le-length cs [])
missing-length cs (x ∷ xs) d h = omega (
  arith,
  missing-length cs xs (λ y. ground (arith, d y)) (λ y m. h y (ground arith)),
  missing-cons cs x xs (h x (ground arith)) (absent x xs (d x)),
)
  where
    absent : (x : ℕ) (xs : List ℕ) → count x (x ∷ xs) ≤ 1 → elem x xs ≡ false
    absent x xs h = ground (arith, elem-count x xs)

missing-none : (cs l : List ℕ) (x : ℕ) → missing cs l ≡ 0 → elem x cs ≡ true → elem x l ≡ true
missing-none [] l x h m = cc
missing-none (c ∷ cs) l x h m = elim (elem-cons x c cs m) [
  | inl e ↦ ground (arith, ap (λ (y : ℕ). elem y l) e)
  | inr later ↦ missing-none cs l x (ground arith) later
]

module _ (g : ChangeGraph) (opts : ClusterChangeSetOpts) (t : List Event) (s : State) where
  -- In every run of `Apply`, a change is attempted only when each change that it waits for was seen
  -- to be done successfully before, or asked before to unblock those that wait for it.
  pub Reached-IsOrderly : Reached g opts t s → IsOrderly g t
  Reached-IsOrderly reached = (Reached-Invariant g opts reached).orderly

  -- When `Apply` returns no error, every change of the graph was seen to be done successfully.
  pub Reached-finished :
      (p : ℕ)
      → Reached g opts t s
      → s.phase ≡ returned none
      → elem p g.changes ≡ true
      → was_finished p t ≡ true
  Reached-finished p reached e known =
      let h = Reached-Invariant g opts reached in
      let (none_tracked, none_wrong, same) = h.ended e in
      let room = missing-length g.changes s.applied h.distinct h.known in
      let applied = missing-none g.changes s.applied p (omega arith) known in
      ground (
        arith,
        h.accounted none_wrong (subst IsWell (sym e) tt) p applied,
        ap (elem p) none_tracked,
      )
