-- ===== src/DiffGraph/Blocked.antt =====
-- blocked_changes.go, and `Linearized` of change_graph.go.
use kapp.Prelude.{
  ℕ, zero, suc, List, [], ◌∷◌, ◌++◌, Bool, true, false, not, ◌||◌, ◌==◌, if◌then◌else◌, elem,
  length, Result, ok, out_of_fuel,
}
use kapp.DiffGraph.Errors.{Error}
use kapp.DiffGraph.Graph.{ChangeGraph, waiting_for, all_matching}

-- The map `unblocked`, by its keys; the graph is a parameter.
abbrev pub Unblocked : Type 0
Unblocked = List ℕ

unfoldable pub is_blocked : Unblocked → ℕ → Bool
is_blocked unblocked change = not (elem change unblocked)

unfoldable pub none_blocked : Unblocked → List ℕ → Bool
none_blocked unblocked [] = true
none_blocked unblocked (child ∷ children) =
    let rest = none_blocked unblocked children in if is_blocked unblocked child then false else rest

unfoldable pub is_unblocked : ChangeGraph → Unblocked → ℕ → Bool
unfolding none_blocked is_blocked
is_unblocked g unblocked change = none_blocked unblocked (waiting_for g.memory change)

unfoldable pub unblocked_changes : ChangeGraph → Unblocked → List ℕ
unfolding is_unblocked all_matching
unblocked_changes g unblocked = all_matching (is_unblocked g unblocked) g

unfoldable pub blocked_changes : ChangeGraph → Unblocked → List ℕ
unfolding is_unblocked all_matching
blocked_changes g unblocked = all_matching (λ p. not (is_unblocked g unblocked p)) g

unfoldable pub unblock : ℕ → Unblocked → Unblocked
unblock change unblocked = change ∷ unblocked

-- What `Linearized` changes in a round: the recorded changes, the unblocked ones, and the section.
pub record Round : Type 0 where
  pub recorded : List ℕ
  pub unblocked : Unblocked
  pub section : List ℕ

unfoldable pub record_changes : List ℕ → Round → Round
unfolding unblock
record_changes [] r = r
record_changes (p ∷ ps) r = record_changes ps (
    if elem p r.recorded then r else record {
      recorded = p ∷ r.recorded;
      unblocked = unblock p r.unblocked;
      section = r.section ++ p ∷ [];
    })

pub record Linearization : Type 0 where
  pub sections : List (List ℕ)
  pub blocked : List ℕ

unfoldable pub linearize :
    ChangeGraph → ℕ → List ℕ → Unblocked → ℕ → List (List ℕ) → Result Error Linearization
unfolding unblocked_changes blocked_changes record_changes
linearize g zero recorded unblocked last_blocked result = out_of_fuel
linearize g (suc fuel) recorded unblocked last_blocked result =
    let blocked = blocked_changes g unblocked in
    let round =
      record_changes (unblocked_changes g unblocked)
        (record { recorded = recorded; unblocked = unblocked; section = [] }) in
    let sections = result ++ round.section ∷ [] in
    let rest = linearize g fuel round.recorded round.unblocked (length blocked) sections in
    if length blocked == 0 || length blocked == last_blocked
    then ok (record { sections = sections; blocked = blocked })
    else rest

-- Two rounds more than the changes are enough: each round but the last leaves fewer blocked.
unfoldable pub linearized : ChangeGraph → Result Error Linearization
unfolding linearize
linearized g = linearize g (suc (suc (length g.changes))) [] [] 0 []
