-- ===== src/DiffGraph/Passes.antt =====
-- About change_graph.go, the passes of `NewChangeGraph` one after the other.
use kapp.Prelude.{
  ℕ, suc, ◌≤◌, List, [], ◌≡◌, sym, ◌∙◌, ap, subst, inl, inr, Bool, true, not, elem, count, length,
  Result, ok, err, panic, out_of_fuel, wrap_err,
}
use kapp.DiffGraph.Errors.{Error, Vendored, calculating_required_deps, calculating_optional_deps}
use kapp.DiffGraph.Rule.{ChangeRule}
use kapp.DiffGraph.Change.{ActualChange, Change}
use kapp.DiffGraph.Graph.{Memory, ChangeGraph, waiting_for, dedup_each, dedup, check_cycles}
use kapp.DiffGraph.Paths.{IsAcyclic, IsClosed}
use kapp.DiffGraph.Cycles.{check_cycles_decides}
use kapp.DiffGraph.Matching.{is_active}
use kapp.DiffGraph.Edges.{Adds, IsEnd, Adds-edge, build_edges-Adds}
use kapp.DiffGraph.Optional.{Adds-IsClosed, Adds-IsAcyclic}
use kapp.DiffGraph.Extends.{Extends, Extends-trans, build_edges-Extends}
use kapp.DiffGraph.Required.{lift_build-ok, then_build-ok}
use kapp.DiffGraph.Dedup.{dedup_each-elem, dedup_each-count, dedup_each-same, WaitsFor-same}
use kapp.DiffGraph.Build.{
  Build, then_build, lift_build, any_change, no_new_cycle, build_edges, calculate_deps,
}

wrap_err-ok :
    {A : Type 0} (f : Error → Error) (r : Result Error A) (a : A) → wrap_err f r ≡ ok a → r ≡ ok a
wrap_err-ok f (ok b) a h = h
wrap_err-ok f (err e) a h = cc
wrap_err-ok f (panic s) a h = cc
wrap_err-ok f out_of_fuel a h = cc

-- The order that a graph imposes on the changes of the list.
pub record IsOrder (changes : List ℕ) (m : Memory) : Type 0 where
  pub closed : IsClosed (waiting_for m) changes
  pub acyclic : IsAcyclic (waiting_for m) changes
  pub ends :
      (a b : ℕ)
      → elem a changes ≡ true
      → elem b (waiting_for m a) ≡ true
      → (is_active (m a).change.op ≡ true) × (is_active (m b).change.op ≡ true)
  pub distinct : (a b : ℕ) → elem a changes ≡ true → count b (waiting_for m a) ≤ 1

abbrev pub is_required : ChangeRule → Bool
is_required r = not r.ignore_if_cyclical

abbrev pub is_optional : ChangeRule → Bool
is_optional r = r.ignore_if_cyclical

module _ (v : Vendored) (changes : List ℕ) (start : Memory) where
  abbrev pub graph_of : Memory → ChangeGraph
  graph_of m = record { changes = changes; memory = m }

  abbrev pub required_pass : Build
  required_pass = build_edges v is_required any_change changes start

  abbrev pub optional_pass : Memory → Build
  optional_pass = build_edges v is_optional (no_new_cycle (suc (length changes))) changes

  -- The passes of a successful run, one after the other.
  pub record Passes (m5 : Memory) : Type 0 where
    pub required : required_pass.0 ≡ ok tt
    pub checked : check_cycles (graph_of required_pass.1) ≡ ok tt
    pub optional : (optional_pass required_pass.1).0 ≡ ok tt
    pub last : m5 ≡ dedup_each changes (optional_pass required_pass.1).1

  pub calculate_deps-Passes :
      (calculate_deps v changes start).0 ≡ ok tt → Passes (calculate_deps v changes start).1
  unfolding calculate_deps dedup
  calculate_deps-Passes h =
      let (e1, e2) =
        then_build-ok (wrap_err calculating_required_deps required_pass.0, required_pass.1) _ h in
      let (_, e3, e4) =
        lift_build-ok (check_cycles (graph_of required_pass.1)) required_pass.1 _
          (ap (λ (b : Build). b.0) (sym e2) ∙ h) in
      let pass = optional_pass required_pass.1 in
      let (e5, e6) =
        then_build-ok (wrap_err calculating_optional_deps pass.0, pass.1) _
          (ap (λ (b : Build). b.0) (sym (e2 ∙ e4)) ∙ h) in
      record {
        required = wrap_err-ok calculating_required_deps required_pass.0 tt e1;
        checked = e3;
        optional = wrap_err-ok calculating_optional_deps pass.0 tt e5;
        last = ap (λ (b : Build). b.1) (e2 ∙ e4 ∙ e6);
      }

  module _ (empty : (p : ℕ) → elem p changes ≡ true → waiting_for start p ≡ []) where
    start-IsClosed : IsClosed (waiting_for start) changes
    start-IsClosed a b known h = cc (ap (elem b) (empty a known))

    required-Adds : Adds changes any_change start required_pass.1
    required-Adds = build_edges-Adds changes any_change start v is_required

    pub required-IsClosed : IsClosed (waiting_for required_pass.1) changes
    required-IsClosed = Adds-IsClosed changes start start-IsClosed required-Adds

    optional-Adds :
        Adds changes
          (no_new_cycle (suc (length changes)))
          required_pass.1
          (optional_pass required_pass.1).1
    optional-Adds =
        build_edges-Adds changes (no_new_cycle (suc (length changes))) required_pass.1 v is_optional

    pub checked-IsAcyclic :
        check_cycles (graph_of required_pass.1) ≡ ok tt
        → IsAcyclic (waiting_for (optional_pass required_pass.1).1) changes
    checked-IsAcyclic h =
        Adds-IsAcyclic changes required_pass.1 required-IsClosed optional-Adds
          (elim (check_cycles_decides (graph_of required_pass.1) required-IsClosed) [
            | inl (_, acyclic) ↦ acyclic
            | inr (e, found, _) ↦ cc
          ])

    abbrev pub final : Memory
    final = dedup_each changes (optional_pass required_pass.1).1

    final-IsClosed : IsClosed (waiting_for final) changes
    final-IsClosed a b known h =
        Adds-IsClosed changes required_pass.1 required-IsClosed optional-Adds a b known
          (sym (dedup_each-elem changes (optional_pass required_pass.1).1 a b) ∙ h)

    final-IsAcyclic :
        check_cycles (graph_of required_pass.1) ≡ ok tt → IsAcyclic (waiting_for final) changes
    final-IsAcyclic h p known cycle =
        checked-IsAcyclic h p known
          (WaitsFor-same (dedup_each-elem changes (optional_pass required_pass.1).1) cycle)

    required-Extends : Extends required_pass.1 final
    required-Extends =
        Extends-trans required_pass.1 (optional_pass required_pass.1).1 final
          (build_edges-Extends (no_new_cycle (suc (length changes))) v changes is_optional
            required_pass.1)
          (record {
            same = dedup_each-same changes (optional_pass required_pass.1).1;
            grown = λ a b h. dedup_each-elem changes (optional_pass required_pass.1).1 a b ∙ h;
          })

    final-Extends : Extends start final
    final-Extends =
        Extends-trans start required_pass.1 final
          (build_edges-Extends any_change v changes is_required start) required-Extends

    required-change : (p : ℕ) → (required_pass.1 p).change ≡ (start p).change
    required-change p =
        ap (λ (c : Change). c.change)
          ((build_edges-Extends any_change v changes is_required start).same p)

    final-change : (p : ℕ) → (final p).change ≡ (start p).change
    final-change p = ap (λ (c : Change). c.change) (final-Extends.same p)

    final-active :
        (p : ℕ) → is_active (start p).change.op ≡ true → is_active (final p).change.op ≡ true
    final-active p h = ap (λ (c : ActualChange). is_active c.op) (final-change p) ∙ h

    required-active :
        (p : ℕ)
        → IsEnd changes (no_new_cycle (suc (length changes))) required_pass.1 p
        → is_active (start p).change.op ≡ true
    required-active p h =
        ap (λ (c : ActualChange). is_active c.op) (sym (required-change p)) ∙ h.active

    final-ends :
        (a b : ℕ)
        → elem a changes ≡ true
        → elem b (waiting_for final a) ≡ true
        → (is_active (final a).change.op ≡ true) × (is_active (final b).change.op ≡ true)
    final-ends a b known h =
        elim (Adds-edge changes (no_new_cycle (suc (length changes))) required_pass.1 a b
          optional-Adds (sym (dedup_each-elem changes (optional_pass required_pass.1).1 a b) ∙ h)) [
            | inr (f, t) ↦
                (final-active a (required-active a f), final-active b (required-active b t))
            | inl old ↦ elim (Adds-edge changes any_change start a b required-Adds old) [
              | inr (f, t) ↦ (final-active a f.active, final-active b t.active)
              | inl older ↦ cc (ap (elem b) (empty a known))
            ]
          ]

    pub calculate_deps-IsOrder :
        (calculate_deps v changes start).0 ≡ ok tt
        → IsOrder changes (calculate_deps v changes start).1
    calculate_deps-IsOrder h =
        let passes = calculate_deps-Passes h in
        rw (passes.last) (record {
          closed = final-IsClosed;
          acyclic = final-IsAcyclic passes.checked;
          ends = final-ends;
          distinct = dedup_each-count changes (optional_pass required_pass.1).1;
        })

    pub calculate_deps-Extends :
        (calculate_deps v changes start).0 ≡ ok tt
        → Extends start (calculate_deps v changes start).1
    calculate_deps-Extends h =
        subst (Extends start) (sym (calculate_deps-Passes h).last) final-Extends

    pub calculate_deps-Extends_required :
        (calculate_deps v changes start).0 ≡ ok tt
        → Extends required_pass.1 (calculate_deps v changes start).1
    calculate_deps-Extends_required h =
        subst (Extends required_pass.1) (sym (calculate_deps-Passes h).last) required-Extends

    -- Where the first pass succeeds and leaves no cycle, and the optional rules can be read, the
    -- second `checkCycles` never fails: the whole run succeeds.
    pub calculate_deps-succeeds :
        required_pass.0 ≡ ok tt
        → check_cycles (graph_of required_pass.1) ≡ ok tt
        → (optional_pass required_pass.1).0 ≡ ok tt
        → (calculate_deps v changes start).0 ≡ ok tt
    unfolding calculate_deps dedup
    calculate_deps-succeeds e1 e2 e3 =
        rw (e1, e2, e3, wrap_err, then_build, lift_build)
          (elim (check_cycles_decides (graph_of final) final-IsClosed) [
            | inl (e, _) ↦ e
            | inr (e, _, (p, known, cycle)) ↦ absurd (final-IsAcyclic e2 p known cycle)
          ])
