-- ===== src/DiffGraph/Linearize.antt =====
-- About change_graph.go, `Linearized`: the progress of its rounds.
use kapp.Prelude.{
  ℕ, zero, suc, ◌≤◌, ◌<◌, List, [], ◌∷◌, ◌++◌, ◌≡◌, refl, sym, ◌∙◌, ap, inl, inr, ◌≢◌, true, false,
  not, ◌==◌, elem, elem-cons, length, length-select, concat, Bool-cases, arith, ok,
}
use kapp.DiffGraph.Graph.{ChangeGraph, waiting_for, all_matching}
use kapp.DiffGraph.Paths.{WaitsFor, direct, IsAcyclic, IsClosed}
use kapp.DiffGraph.PathLaws.{WaitsFor-snoc, missing, missing-cons, missing-le-length}
use kapp.DiffGraph.Blocked.{
  none_blocked, is_unblocked, unblocked_changes, blocked_changes, Round, Linearization, linearize,
  linearized,
}
use kapp.DiffGraph.Rounds.{
  elem-record_changes, elem-count, some_blocked, none_blocked_mono, length-select-lt, select-nil,
  select-some, length-nil,
}
use kapp.DiffGraph.Layers.{
  Between, Last, first, later, IsLinearized, round, unblocked_changes-elem, Between-round,
}

module _ (g : ChangeGraph) (closed : IsClosed (waiting_for g.memory) g.changes)
    (acyclic : IsAcyclic (waiting_for g.memory) g.changes) where
  abbrev waiting : ℕ → List ℕ
  waiting = waiting_for g.memory

  -- From a change that is not unblocked a walk along what blocks it ends at one that can be.
  pub find_free :
      (s : List ℕ) (fuel x : ℕ) (walked : List ℕ)
      → elem x g.changes ≡ true
      → elem x s ≡ false
      → ((t : ℕ) → elem t walked ≡ true → WaitsFor waiting t x)
      → missing g.changes walked < fuel
      → (y : ℕ) × (elem y g.changes ≡ true) × (elem y s ≡ false) × (is_unblocked g s y ≡ true)
  unfolding is_unblocked
  find_free s zero x walked known free leads room = absurd (omega arith)
  find_free s (suc fuel) x walked known free leads room =
      elim (Bool-cases (none_blocked s (waiting x))) [
        | inl done ↦ (x, known, free, done)
        | inr stuck ↦
            let (b, waited, blocked) = some_blocked s (waiting x) stuck in
            find_free s fuel b (x ∷ walked) (closed x b known waited) blocked
              (λ t h. elim (elem-cons t x walked h) [
                | inl e ↦ direct (rw e waited)
                | inr old ↦ WaitsFor-snoc (leads t old) waited
              ])
              (omega (arith, missing-cons g.changes x walked known (new_here x walked known leads)))
      ]
    where
      new_here :
          (x : ℕ) (walked : List ℕ)
          → elem x g.changes ≡ true
          → ((t : ℕ) → elem t walked ≡ true → WaitsFor waiting t x)
          → elem x walked ≡ false
      new_here x walked known leads = elim (Bool-cases (elem x walked)) [
        | inl again ↦ absurd (acyclic x known (leads x again))
        | inr new ↦ new
      ]

  -- While a change is blocked, fewer are than in any round g whose unblocked changes are recorded.
  progress :
      (s unblocked : List ℕ) (x : ℕ)
      → elem x g.changes ≡ true
      → is_unblocked g unblocked x ≡ false
      → ((y : ℕ) → elem y s ≡ true → elem y unblocked ≡ true)
      → ((y : ℕ) → elem y (unblocked_changes g s) ≡ true → elem y unblocked ≡ true)
      → length (blocked_changes g unblocked) < length (blocked_changes g s)
  unfolding blocked_changes is_unblocked all_matching
  progress s unblocked x known stuck sub recorded =
      let (b, waited, blocked) = some_blocked unblocked (waiting x) stuck in
      let (y, y_known, y_new, y_free) =
        find_free unblocked (suc (length g.changes)) b [] (closed x b known waited) blocked
          (λ t h. cc) (omega (arith, missing-le-length g.changes [])) in
      length-select-lt (λ p. not (is_unblocked g s p)) (λ p. not (is_unblocked g unblocked p))
        g.changes y (λ p h. mono p h) y_known (was_stuck y y_known y_new) (ap not y_free)
    where
      mono : (p : ℕ) → not (is_unblocked g unblocked p) ≡ true → not (is_unblocked g s p) ≡ true
      mono p h = ground (arith, none_blocked_mono s unblocked (waiting p) sub)

      was_stuck :
          (y : ℕ)
          → elem y g.changes ≡ true
          → elem y unblocked ≡ false
          → not (is_unblocked g s y) ≡ true
      was_stuck y k n = ground (arith, recorded y, unblocked_changes-elem g s y k)

  linearize_done :
      (recorded unblocked : List ℕ) (result : List (List ℕ))
      → Between g recorded unblocked result
      → length (blocked_changes g unblocked) ≡ 0
      → IsLinearized g (record {
        sections = result ++ (round g recorded unblocked).section ∷ [];
        blocked = blocked_changes g unblocked;
      })
  linearize_done recorded unblocked result h none =
      let r = round g recorded unblocked in
      let next = Between-round g recorded unblocked result h in
      let sections = result ++ r.section ∷ [] in
      record {
        blocked = length-nil (blocked_changes g unblocked) none;
        once = λ p known. ground (
          arith,
          next.once p,
          elem-record_changes p (unblocked_changes g unblocked)
              (record { recorded = recorded; unblocked = unblocked; section = [] }),
          unblocked_changes-elem g unblocked p known (all_free p known),
        );
        only =
            λ p m. next.known p (ground (arith, next.once p, (elem-count p (concat sections)).0 m));
        layered = next.layered;
      }
    where
      all_free : (p : ℕ) → elem p g.changes ≡ true → is_unblocked g unblocked p ≡ true
      all_free p known = ground (
        arith,
        select-nil (λ q. not (is_unblocked g unblocked q)) g.changes p
            (unfold blocked_changes all_matching in none) known,
      )

  Last-round :
      (fuel : ℕ) (recorded unblocked : List ℕ) (last : ℕ) (result : List (List ℕ))
      → Between g recorded unblocked result
      → Last g (suc fuel) recorded last
      → length (blocked_changes g unblocked) ≢ 0
      → (length (blocked_changes g unblocked) ≢ last)
        × Last g fuel (round g recorded unblocked).recorded (length (blocked_changes g unblocked))
  Last-round fuel recorded unblocked last result h prev some = elim prev [
    | first e room ↦ (λ x. some (x ∙ e), later unblocked refl (omega (arith, at_most)) kept added)
    | later s e room sub done ↦
        let less : length (blocked_changes g unblocked) < last = rw e (
          progress s unblocked stuck.0 stuck.1 (ground (arith, stuck.2))
            (λ y k. to_unblocked y (sub y k)) (λ y k. to_unblocked y (done y k))) in
        (λ x. omega arith, later unblocked refl (omega arith) kept added)
  ]
    where
      before : Round
      before = record { recorded = recorded; unblocked = unblocked; section = [] }

      stuck : (x : ℕ) × (elem x g.changes ≡ true) × (not (is_unblocked g unblocked x) ≡ true)
      stuck =
          select-some (λ q. not (is_unblocked g unblocked q)) g.changes
            (unfold blocked_changes all_matching in some)

      at_most : length (blocked_changes g unblocked) ≤ length g.changes
      at_most =
          unfold blocked_changes all_matching in
          length-select (λ q. not (is_unblocked g unblocked q)) g.changes

      to_unblocked : (y : ℕ) → elem y recorded ≡ true → elem y unblocked ≡ true
      to_unblocked y k = ap (elem y) (sym h.same) ∙ k

      kept : (x : ℕ) → elem x unblocked ≡ true → elem x (round g recorded unblocked).recorded ≡ true
      kept x k =
          elem-record_changes x (unblocked_changes g unblocked) before
          ∙ ground (arith, ap (elem x) h.same)

      added :
          (x : ℕ)
          → elem x (unblocked_changes g unblocked) ≡ true
          → elem x (round g recorded unblocked).recorded ≡ true
      added x k = elem-record_changes x (unblocked_changes g unblocked) before ∙ ground arith

  linearize_returns :
      (fuel : ℕ) (recorded unblocked : List ℕ) (last : ℕ) (result : List (List ℕ))
      → Between g recorded unblocked result
      → Last g fuel recorded last
      → (l : Linearization) × (linearize g fuel recorded unblocked last result ≡ ok l)
        × IsLinearized g l
  unfolding linearize
  linearize_returns zero recorded unblocked last result h prev =
      absurd (elim prev [ first e room ↦ omega arith | later s e room sub done ↦ omega arith ])
  linearize_returns (suc fuel) recorded unblocked last result h prev =
      let blocked = blocked_changes g unblocked in
      let r = round g recorded unblocked in
      let sections = result ++ r.section ∷ [] in
      elim (Bool-cases (length blocked == 0)) [
        | inl none ↦ (
          record { sections = sections; blocked = blocked },
          rw none,
          linearize_done recorded unblocked result h (ground arith),
        )
        | inr some ↦
            let (other, next) =
              Last-round fuel recorded unblocked last result h prev (λ e. ground arith) in
            let (l, e, p) =
              linearize_returns fuel r.recorded r.unblocked (length blocked) sections
                (Between-round g recorded unblocked result h) next in
            (l, rw (some, differ (length blocked) other) e, p)
      ]
    where
      differ : (n : ℕ) → n ≢ last → (n == last) ≡ false
      differ n h = ground arith

-- On a graph without cycles whose changes wait only for changes of the graph, `Linearized` returns,
-- nothing stays blocked, every change of the graph stands in exactly one section and nothing else
-- does, and each change waits only for changes of earlier sections.
pub linearized_returns :
    (g : ChangeGraph) (closed : IsClosed (waiting_for g.memory) g.changes)
    (acyclic : IsAcyclic (waiting_for g.memory) g.changes)
    → (l : Linearization) × (linearized g ≡ ok l) × IsLinearized g l
unfolding linearized
linearized_returns g closed acyclic =
    linearize_returns g closed acyclic (suc (suc (length g.changes))) [] [] 0 []
      (record { same = refl; known = λ x h. cc; once = λ x. refl; layered = tt })
      (first refl (omega arith))
