-- ===== src/DiffGraph/NewGraph.antt =====
-- About change_graph.go, `NewChangeGraph` from the allocation of its changes on.
use kapp.Prelude.{
  ℕ, ◌+◌, ◌≤◌, ◌<◌, List, [], ◌∷◌, ◌≡◌, refl, sym, ◌∙◌, ap, inl, inr, true, false, not, ◌==◌, elem,
  elem-cons, count, Result, ok, Bool-cases, arith,
}
use mathlib.Core.List.{Memᴰ}
use kapp.Config.Bindings.{ChangeGroupBinding, ChangeRuleBinding}
use kapp.DiffGraph.Errors.{Error, Vendored}
use kapp.DiffGraph.Rule.{ChangeRule}
use kapp.DiffGraph.Change.{ActualChange, Change, applicable_rules, all_rules}
use kapp.DiffGraph.Graph.{Memory, ChangeGraph, waiting_for, check_cycles}
use kapp.DiffGraph.Matching.{matched}
use kapp.DiffGraph.Extends.{Extends, matched_same}
use kapp.DiffGraph.Required.{IsHonoured, IsHonoured-Extends, build_edges-IsHonoured}
use kapp.DiffGraph.Passes.{
  IsOrder, is_required, required_pass, optional_pass, calculate_deps-Passes, calculate_deps-IsOrder,
  calculate_deps-Extends, calculate_deps-Extends_required, calculate_deps-succeeds,
}
use kapp.DiffGraph.Build.{fresh_change, put_change, alloc_changes, new_change_graph}

module _ (group_bindings : List ChangeGroupBinding) (rule_bindings : List ChangeRuleBinding) where
  abbrev alloc : ℕ → List ActualChange → Memory → ChangeGraph
  alloc = alloc_changes group_bindings rule_bindings

  alloc-ge :
      (next : ℕ) (cs : List ActualChange) (m : Memory) (p : ℕ)
      → elem p (alloc next cs m).changes ≡ true
      → next ≤ p
  unfolding alloc_changes
  alloc-ge next [] m p h = cc
  alloc-ge next (c ∷ cs) m p h = elim (elem-cons p next _ h) [
    | inl e ↦ omega arith
    | inr later ↦ omega (arith, alloc-ge (next + 1) cs _ p later)
  ]

  pub alloc-below :
      (next : ℕ) (cs : List ActualChange) (m : Memory) (p : ℕ)
      → p < next
      → (alloc next cs m).memory p ≡ m p
  unfolding alloc_changes
  alloc-below next [] m p h = refl
  alloc-below next (c ∷ cs) m p h = alloc-below (next + 1) cs _ p (omega arith) ∙ ground arith

  pub alloc-empty :
      (next : ℕ) (cs : List ActualChange) (m : Memory) (p : ℕ)
      → elem p (alloc next cs m).changes ≡ true
      → waiting_for (alloc next cs m).memory p ≡ []
  unfolding alloc_changes
  alloc-empty next [] m p h = cc
  alloc-empty next (c ∷ cs) m p h = elim (elem-cons p next _ h) [
    | inl e ↦
        ap (λ (x : Change). x.waiting_for) (alloc-below (next + 1) cs _ p (omega arith))
        ∙ ground arith
    | inr later ↦ alloc-empty (next + 1) cs _ p later
  ]

  count-absent : (p : ℕ) (l : List ℕ) → elem p l ≡ false → count p l ≡ 0
  count-absent p [] h = refl
  count-absent p (x ∷ xs) h = ground (arith, count-absent p xs)

  pub alloc-count :
      (next : ℕ) (cs : List ActualChange) (m : Memory) (p : ℕ)
      → count p (alloc next cs m).changes ≤ 1
  unfolding alloc_changes
  alloc-count next [] m p = omega arith
  alloc-count next (c ∷ cs) m p =
      let rest =
        alloc (next + 1) cs (put_change next (fresh_change group_bindings rule_bindings c) m) in
      elim (Bool-cases (p == next)) [
        | inl e ↦ elim (Bool-cases (elem p rest.changes)) [
          | inl later ↦
              let above = alloc-ge (next + 1) cs _ p later in
              let same : p ≡ next = ground arith in absurd (omega arith)
          | inr absent ↦ ground (arith, count-absent p rest.changes absent)
        ]
        | inr n ↦ ground (
          arith,
          alloc-count (next + 1) cs
              (put_change next (fresh_change group_bindings rule_bindings c) m) p,
        )
      ]

module _ (v : Vendored) where
  applicable_same :
      (m m' : Memory) (p : ℕ) → Extends m m' → applicable_rules v (m' p) ≡ applicable_rules v (m p)
  unfolding applicable_rules all_rules
  applicable_same m m' p e = ap (applicable_rules v) (e.same p)

  module _ (initial : Memory) (cs : List ActualChange) (group_bindings : List ChangeGroupBinding)
      (rule_bindings : List ChangeRuleBinding) where
    abbrev allocated : ChangeGraph
    allocated = alloc_changes group_bindings rule_bindings 0 cs initial

    abbrev run : Result Error (Unit {0}) × ChangeGraph
    run = new_change_graph v initial cs group_bindings rule_bindings

    pub new_change_graph-change :
        (p : ℕ) → run.0 ≡ ok tt → (run.1.memory p).change ≡ (allocated.memory p).change
    unfolding new_change_graph
    new_change_graph-change p h =
        ap (λ (c : Change). c.change)
          ((calculate_deps-Extends v allocated.changes allocated.memory
              (alloc-empty group_bindings rule_bindings 0 cs initial) h).same
            p)

    pub new_change_graph-changes : run.1.changes ≡ allocated.changes
    unfolding new_change_graph
    new_change_graph-changes = refl

    -- A graph that `NewChangeGraph` returns without error has no cycle; its changes wait only for
    -- changes of the graph, each of them listed once; and only upserts and deletions wait or are
    -- waited for.
    pub new_change_graph-IsOrder : run.0 ≡ ok tt → IsOrder run.1.changes run.1.memory
    unfolding new_change_graph
    new_change_graph-IsOrder h =
        calculate_deps-IsOrder v allocated.changes allocated.memory
          (alloc-empty group_bindings rule_bindings 0 cs initial) h

    -- In such a graph every required rule is honoured: where a change has an applicable rule that
    -- is not marked as to be ignored in a cycle, and the rule's group and action fit another
    -- change, the first waits for the second if the rule says after, and the second for the first
    -- if it says before.
    pub new_change_graph-IsHonoured :
        (p q : ℕ) (rules : List ChangeRule) (r : ChangeRule)
        → run.0 ≡ ok tt
        → elem p run.1.changes ≡ true
        → elem q run.1.changes ≡ true
        → applicable_rules v (run.1.memory p) ≡ ok rules
        → Memᴰ r rules
        → r.ignore_if_cyclical ≡ false
        → matched v r (run.1.memory q) ≡ true
        → IsHonoured r.order p q run.1.memory
    unfolding new_change_graph
    new_change_graph-IsHonoured p q rules r done known_p known_q e mem required is_matched =
        let changes = allocated.changes in
        let start = allocated.memory in
        let grown =
          calculate_deps-Extends v changes start
            (alloc-empty group_bindings rule_bindings 0 cs initial) done in
        let passes = calculate_deps-Passes v changes start done in
        IsHonoured-Extends r.order p q (required_pass v changes start).1 run.1.memory
          (calculate_deps-Extends_required v changes start
            (alloc-empty group_bindings rule_bindings 0 cs initial) done)
          (build_edges-IsHonoured v changes is_required start p q rules r passes.required known_p
            (sym (applicable_same start run.1.memory p grown) ∙ e) mem (ap not required) known_q
            (sym (matched_same v r start run.1.memory q grown) ∙ is_matched))

    -- Where the required rules can be read and close no cycle, and the optional rules can be read,
    -- `NewChangeGraph` succeeds: its second check never finds a cycle.
    pub new_change_graph-succeeds :
        (required_pass v allocated.changes allocated.memory).0 ≡ ok tt
        → check_cycles (record {
          changes = allocated.changes;
          memory = (required_pass v allocated.changes allocated.memory).1;
        })
          ≡ ok tt
        → (optional_pass v allocated.changes allocated.memory
            (required_pass v allocated.changes allocated.memory).1).0
          ≡ ok tt
        → run.0 ≡ ok tt
    unfolding new_change_graph
    new_change_graph-succeeds =
        calculate_deps-succeeds v allocated.changes allocated.memory
          (alloc-empty group_bindings rule_bindings 0 cs initial)
