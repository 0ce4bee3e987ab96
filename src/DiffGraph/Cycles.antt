-- ===== src/DiffGraph/Cycles.antt =====
-- About change_graph.go, `checkCycles` and `checkCyclesVisit`.
use kapp.Prelude.{
  String, ℕ, zero, suc, ◌<◌, List, [], ◌∷◌, ◌≡◌, refl, sym, ◌∙◌, ◌⊎◌, inl, inr, true, false, not,
  ◌==◌, elem, elem-cons, elem-select, length, Result, ok, err, panic, out_of_fuel, ◌>>=◌, wrap_err,
  Holds, Holds->>=, Holds-map, Holds-wrap_err, Bool-cases, arith,
}
use kapp.DiffGraph.Errors.{Error, through, detected_cycle}
use kapp.DiffGraph.Graph.{
  ChangeGraph, waiting_for, resource_description, remove, Marks, unmarked, visit_each,
  check_cycles_visit, check_each, check_cycles,
}
use kapp.DiffGraph.Paths.{WaitsFor, direct, IsAcyclic, Cycle, IsClosed}
use kapp.DiffGraph.Paths
use kapp.DiffGraph.PathLaws.{
  WaitsFor-snoc, WaitsFor-closed, missing, missing-cons, missing_mono, missing-le-length,
}

module _ (waiting : ℕ → List ℕ) where
  -- Each pointer waits only for pointers behind it.
  abbrev IsOrdered : List ℕ → Type 0
  IsOrdered [] = Unit
  IsOrdered (x ∷ xs) = ((b : ℕ) → elem b (waiting x) ≡ true → elem b xs ≡ true) × IsOrdered xs

  IsOrdered-IsClosed : (l : List ℕ) → IsOrdered l → IsClosed waiting l
  IsOrdered-IsClosed [] o a b m e = cc
  IsOrdered-IsClosed (x ∷ xs) o a b m e = ground (arith, o.0 b, IsOrdered-IsClosed xs o.1 a b)

  path_into :
      (xs : List ℕ) (a c : ℕ)
      → IsOrdered xs
      → ((b : ℕ) → elem b (waiting a) ≡ true → elem b xs ≡ true)
      → WaitsFor waiting a c
      → elem c xs ≡ true
  path_into xs a c o h (direct e) = h c e
  path_into xs a c o h (Paths.through {b = b} e p) =
      WaitsFor-closed xs (IsOrdered-IsClosed xs o) p (h b e)

  IsOrdered-acyclic : (l : List ℕ) (p : ℕ) → IsOrdered l → elem p l ≡ true → ¬ WaitsFor waiting p p
  IsOrdered-acyclic [] p o m w = cc
  IsOrdered-acyclic (x ∷ xs) p o m w = elim (Bool-cases (elem p xs)) [
    | inl in_tail ↦ IsOrdered-acyclic xs p o.1 in_tail w
    | inr not_tail ↦
        let e : p ≡ x = ground arith in
        let back = path_into xs p p o.1 (λ b h. o.0 b (ground arith)) w in cc
  ]

  module _ (describe : ℕ → String) (changes : List ℕ) (closed : IsClosed waiting changes) where
    -- What a call for `n` may rely on, with `fuel` left.
    record Ready (fuel n : ℕ) (marks : Marks) : Type 0 where
      known : elem n changes ≡ true
      ordered : IsOrdered marks.marked_perm
      leads : (t : ℕ) → elem t marks.marked_temp ≡ true → WaitsFor waiting t n
      room : missing changes marks.marked_temp < fuel

    -- What a call leaves: the temporary marks as they were, and `ns` marked for good.
    record Done (ns : List ℕ) (before after : Marks) : Type 0 where
      same : (x : ℕ) → elem x after.marked_temp ≡ elem x before.marked_temp
      ordered : IsOrdered after.marked_perm
      grown : (x : ℕ) → elem x before.marked_perm ≡ true → elem x after.marked_perm ≡ true
      marked : (x : ℕ) → elem x ns ≡ true → elem x after.marked_perm ≡ true

    Done-then :
        (m : ℕ) (ms : List ℕ) (before after last : Marks)
        → Done (m ∷ []) before after
        → Done ms after last
        → Done (m ∷ ms) before last
    Done-then m ms before after last d e = record {
      same = λ x. e.same x ∙ d.same x;
      ordered = e.ordered;
      grown = λ x h. e.grown x (d.grown x h);
      marked = λ x h. ground (arith, e.marked x, d.marked x, e.grown x);
    }

    abbrev Good : List ℕ → Marks → Result Error Marks → Type 0
    Good ns marks = Holds (Done ns marks) (λ _. Cycle waiting changes)

    abbrev Step : Type 0
    Step = ℕ → Marks → Result Error Marks

    -- The loop over the successors of `n`, by what the recursive call does.
    visit_each-Good :
        (step : Step) (fuel n : ℕ)
        → ((m : ℕ) (marks : Marks) → Ready fuel m marks → Good (m ∷ []) marks (step m marks))
        → (ms : List ℕ) (marks : Marks) → ((m : ℕ) → elem m ms ≡ true → elem m changes ≡ true)
        → IsOrdered marks.marked_perm
        → ((t m : ℕ) → elem t marks.marked_temp ≡ true → elem m ms ≡ true → WaitsFor waiting t m)
        → missing changes marks.marked_temp < fuel
        → Good ms marks (visit_each waiting describe step ms marks)
    unfolding visit_each
    visit_each-Good step fuel n call [] marks known ordered leads room = record {
      same = λ x. refl;
      ordered = ordered;
      grown = λ x h. h;
      marked = λ x h. cc;
    }
    visit_each-Good step fuel n call (m ∷ ms) marks known ordered leads room =
        Holds->>= (Done (m ∷ []) marks) (Done (m ∷ ms) marks) (λ _. Cycle waiting changes)
          (wrap_err (through (describe m)) (step m marks)) (visit_each waiting describe step ms)
          (Holds-wrap_err (Done (m ∷ []) marks) (Cycle waiting changes) (through (describe m))
            (step m marks)
            (call m marks (record {
              known = known m (ground arith);
              ordered = ordered;
              leads = λ t h. leads t m h (ground arith);
              room = room;
            })))
          (λ after d.
            Holds-map (Done ms after) (Done (m ∷ ms) marks) (λ _. Cycle waiting changes)
              (visit_each waiting describe step ms after)
              (visit_each-Good step fuel n call ms after (λ k h. known k (ground arith)) d.ordered
                (λ t k h e. leads t k (sym (d.same t) ∙ h) (ground arith))
                (omega (
                  arith,
                  missing_mono changes marks.marked_temp after.marked_temp (λ x h. d.same x ∙ h),
                )))
              (λ last e. Done-then m ms marks after last d e))

    abbrev entered : ℕ → Marks → Marks
    entered n marks = record marks { marked_temp = n ∷ marks.marked_temp }

    abbrev left : ℕ → Marks → Marks
    left n after = record {
      marked_temp = remove n after.marked_temp;
      marked_perm = n ∷ after.marked_perm;
    }

    -- Leaving `n` restores the temporary marks, since `n` was not among them.
    remove_entered :
        (n x : ℕ) (temp after : List ℕ)
        → elem n temp ≡ false
        → elem x after ≡ elem x (n ∷ temp)
        → elem x (remove n after) ≡ elem x temp
    remove_entered n x temp after f e = ground (arith, elem-select x (λ q. not (q == n)) after)

    Done-left :
        (n : ℕ) (marks after : Marks)
        → elem n marks.marked_temp ≡ false
        → Done (waiting n) (entered n marks) after
        → Done (n ∷ []) marks (left n after)
    Done-left n marks after f d = record {
      same = λ x. remove_entered n x marks.marked_temp after.marked_temp f (d.same x);
      ordered = (d.marked, d.ordered);
      grown = λ x h. ground (arith, d.grown x);
      marked = λ x h. ground arith;
    }

    visit-Good :
        (fuel n : ℕ) (marks : Marks)
        → Ready fuel n marks
        → Good (n ∷ []) marks (check_cycles_visit waiting describe fuel n marks)
    unfolding check_cycles_visit
    visit-Good zero n marks r = absurd (omega (arith, r.room))
    visit-Good (suc fuel) n marks r = elim (Bool-cases (elem n marks.marked_perm)) [
      | inl perm ↦ rw perm (record {
        same = λ x. refl;
        ordered = r.ordered;
        grown = λ x h. h;
        marked = λ x h. ground arith;
      })
      | inr not_perm ↦ elim (Bool-cases (elem n marks.marked_temp)) [
        | inl temp ↦ rw (not_perm, temp) (n, r.known, r.leads n temp)
        | inr not_temp ↦
            rw (not_perm, not_temp)
              (Holds->>= (Done (waiting n) (entered n marks)) (Done (n ∷ []) marks)
                (λ _. Cycle waiting changes)
                (visit_each waiting describe (check_cycles_visit waiting describe fuel) (waiting n)
                  (entered n marks))
                (λ after. ok (left n after))
                (visit_each-Good (check_cycles_visit waiting describe fuel) fuel n (visit-Good fuel)
                  (waiting n) (entered n marks) (λ m h. closed n m r.known h) r.ordered
                  (λ t m h k. elim (elem-cons t n marks.marked_temp h) [
                    | inl e ↦ direct (rw e k)
                    | inr old ↦ WaitsFor-snoc (r.leads t old) k
                  ])
                  (omega
                    (arith, r.room, missing-cons changes n marks.marked_temp r.known not_temp)))
                (λ after d. Done-left n marks after not_temp d))
      ]
    ]

    check_each-Good :
        (ns : List ℕ) (marks : Marks)
        → ((n : ℕ) → elem n ns ≡ true → elem n changes ≡ true)
        → IsOrdered marks.marked_perm
        → ((x : ℕ) → elem x marks.marked_temp ≡ false)
        → Good ns marks (check_each waiting describe (suc (length changes)) ns marks)
    unfolding check_each
    check_each-Good [] marks known ordered none = record {
      same = λ x. refl;
      ordered = ordered;
      grown = λ x h. h;
      marked = λ x h. cc;
    }
    check_each-Good (n ∷ ns) marks known ordered none =
        let fuel = suc (length changes) in
        let visit = check_cycles_visit waiting describe fuel n marks in
        Holds->>= (Done (n ∷ []) marks) (Done (n ∷ ns) marks) (λ _. Cycle waiting changes)
          (wrap_err (detected_cycle (describe n)) visit) (check_each waiting describe fuel ns)
          (Holds-wrap_err (Done (n ∷ []) marks) (Cycle waiting changes)
            (detected_cycle (describe n)) visit
            (visit-Good fuel n marks (record {
              known = known n (ground arith);
              ordered = ordered;
              leads = λ t h. cc (none t);
              room = omega (arith, missing-le-length changes marks.marked_temp);
            })))
          (λ after d.
            Holds-map (Done ns after) (Done (n ∷ ns) marks) (λ _. Cycle waiting changes)
              (check_each waiting describe fuel ns after)
              (check_each-Good ns after (λ k h. known k (ground arith)) d.ordered
                (λ x. d.same x ∙ none x))
              (λ last e. Done-then n ns marks after last d e))

    check_each-decides :
        Holds
          (λ _. IsAcyclic waiting changes)
          (λ _. Cycle waiting changes)
          (check_each waiting describe (suc (length changes)) changes unmarked)
    check_each-decides =
        Holds-map (Done changes unmarked) (λ _. IsAcyclic waiting changes)
          (λ _. Cycle waiting changes)
          (check_each waiting describe (suc (length changes)) changes unmarked)
          (check_each-Good changes unmarked (λ n h. h) tt (λ x. refl))
          (λ after d p h. IsOrdered-acyclic after.marked_perm p d.ordered (d.marked p h))

-- `checkCycles` never panics and never runs out of fuel on a graph whose changes wait only for
-- changes of the graph, and it returns no error exactly when no change waits for itself through
-- others.
pub check_cycles_decides :
    (g : ChangeGraph)
    → IsClosed (waiting_for g.memory) g.changes
    → (check_cycles g ≡ ok tt) × IsAcyclic (waiting_for g.memory) g.changes
      ⊎ ((e : Error) × (check_cycles g ≡ err e) × Cycle (waiting_for g.memory) g.changes)
unfolding check_cycles
check_cycles_decides g closed =
    go
      (check_each (waiting_for g.memory) (resource_description g.memory) (suc (length g.changes))
        g.changes unmarked)
      (check_each-decides (waiting_for g.memory) (resource_description g.memory) g.changes closed)
  where
    go :
        (r : Result Error Marks)
        → Holds
            (λ _. IsAcyclic (waiting_for g.memory) g.changes)
            (λ _. Cycle (waiting_for g.memory) g.changes)
            r
        → ((r >>= λ _. ok tt) ≡ ok tt) × IsAcyclic (waiting_for g.memory) g.changes
          ⊎ ((e : Error) × ((r >>= λ _. ok tt) ≡ err e) × Cycle (waiting_for g.memory) g.changes)
    go (ok marks) h = inl (refl, h)
    go (err e) h = inr (e, refl, h)
    go (panic m) h = absurd h
    go out_of_fuel h = absurd h
