-- ===== src/DiffGraph/Layers.antt =====
-- About change_graph.go, `Linearized` between two rounds.
use kapp.Prelude.{
  ℕ, suc, ◌+◌, ◌<◌, List, [], ◌∷◌, ◌++◌, ◌≡◌, ◌∙◌, ap, true, ◌||◌, elem, elem-append, elem-select,
  count, count-append, length, concat, if◌then◌else◌, arith,
}
use kapp.DiffGraph.Graph.{ChangeGraph, waiting_for, all_matching}
use kapp.DiffGraph.Blocked.{
  is_unblocked, unblocked_changes, blocked_changes, Round, record_changes, Linearization,
}
use kapp.DiffGraph.Rounds.{
  record_changes-same, elem-record_changes, count-record_changes, elem-count, none_blocked-elem,
}

module _ (g : ChangeGraph) where
  abbrev waiting : ℕ → List ℕ
  waiting = waiting_for g.memory

  -- Each change of a section waits only for changes of the sections before it.
  abbrev pub IsLayered : List ℕ → List (List ℕ) → Type 0
  IsLayered seen [] = Unit {0}
  IsLayered seen (section ∷ sections) =
      ((p b : ℕ) → elem p section ≡ true → elem b (waiting p) ≡ true → elem b seen ≡ true)
      × IsLayered (seen ++ section) sections

  pub IsLayered-snoc :
      (seen : List ℕ) (sections : List (List ℕ)) (last : List ℕ)
      → IsLayered seen sections
      → ((p b : ℕ)
          → elem p last ≡ true
          → elem b (waiting p) ≡ true
          → (elem b seen || elem b (concat sections)) ≡ true)
      → IsLayered seen (sections ++ last ∷ [])
  IsLayered-snoc seen [] last h k = (λ p b m e. ground (arith, k p b), tt)
  IsLayered-snoc seen (s ∷ ss) last h k = (
    h.0,
    IsLayered-snoc (seen ++ s) ss last h.1
        (λ p b m e. ground (arith, k p b, elem-append b seen s, elem-append b s (concat ss))),
  )

  pub concat-snoc-count :
      (x : ℕ) (sections : List (List ℕ)) (last : List ℕ)
      → count x (concat (sections ++ last ∷ [])) ≡ count x (concat sections) + count x last
  concat-snoc-count x [] last = ground (arith, count-append x last [])
  concat-snoc-count x (s ∷ ss) last = omega (
    arith,
    count-append x s (concat (ss ++ last ∷ [])),
    count-append x s (concat ss),
    concat-snoc-count x ss last,
  )

  -- What holds between two rounds.
  pub record Between (recorded unblocked : List ℕ) (result : List (List ℕ)) : Type 0 where
    pub same : recorded ≡ unblocked
    pub known : (x : ℕ) → elem x recorded ≡ true → elem x g.changes ≡ true
    pub once : (x : ℕ) → count x (concat result) ≡ (if elem x recorded then 1 else 0)
    pub layered : IsLayered [] result

  -- The number that the loop compares with: none yet, or the blocked ones of an earlier round whose
  -- unblocked changes are all recorded.
  pub data Last (fuel : ℕ) (recorded : List ℕ) (last : ℕ) : Type 0 where
    first : last ≡ 0 → suc (length g.changes) < fuel → Last fuel recorded last
    later :
        (s : List ℕ)
        → last ≡ length (blocked_changes g s)
        → last < fuel
        → ((x : ℕ) → elem x s ≡ true → elem x recorded ≡ true)
        → ((x : ℕ) → elem x (unblocked_changes g s) ≡ true → elem x recorded ≡ true)
        → Last fuel recorded last

  pub record IsLinearized (l : Linearization) : Type 0 where
    pub blocked : l.blocked ≡ []
    pub once : (p : ℕ) → elem p g.changes ≡ true → count p (concat l.sections) ≡ 1
    pub only : (p : ℕ) → elem p (concat l.sections) ≡ true → elem p g.changes ≡ true
    pub layered : IsLayered [] l.sections

  abbrev pub round : List ℕ → List ℕ → Round
  round recorded unblocked =
      record_changes (unblocked_changes g unblocked)
        (record { recorded = recorded; unblocked = unblocked; section = [] })

  pub elem-unblocked_changes :
      (s : List ℕ) (x : ℕ)
      → elem x (unblocked_changes g s) ≡ true
      → (elem x g.changes ≡ true) × (is_unblocked g s x ≡ true)
  unfolding unblocked_changes all_matching
  elem-unblocked_changes s x h = (elem-select x (is_unblocked g s) g.changes).0 h

  pub unblocked_changes-elem :
      (s : List ℕ) (x : ℕ)
      → elem x g.changes ≡ true
      → is_unblocked g s x ≡ true
      → elem x (unblocked_changes g s) ≡ true
  unfolding unblocked_changes all_matching
  unblocked_changes-elem s x m h = (elem-select x (is_unblocked g s) g.changes).1 (m, h)

  section-waits :
      (recorded unblocked : List ℕ) (result : List (List ℕ)) (p b : ℕ)
      → Between recorded unblocked result
      → elem p (round recorded unblocked).section ≡ true
      → elem b (waiting p) ≡ true
      → elem b (concat result) ≡ true
  section-waits recorded unblocked result p b h m e =
      (elem-count b (concat result)).1 (ground (arith, h.once b, b_recorded))
    where
      p_free : elem p (unblocked_changes g unblocked) ≡ true
      p_free = ground (
        arith,
        (elem-count p (round recorded unblocked).section).0 m,
        count-record_changes p (unblocked_changes g unblocked)
            (record { recorded = recorded; unblocked = unblocked; section = [] }),
      )

      b_unblocked : elem b unblocked ≡ true
      b_unblocked =
          none_blocked-elem unblocked (waiting p) b
            (unfold is_unblocked in (elem-unblocked_changes unblocked p p_free).1) e

      b_recorded : elem b recorded ≡ true
      b_recorded = ap (elem b) h.same ∙ b_unblocked

  pub Between-round :
      (recorded unblocked : List ℕ) (result : List (List ℕ))
      → Between recorded unblocked result
      → let r = round recorded unblocked in
        Between r.recorded r.unblocked (result ++ r.section ∷ [])
  Between-round recorded unblocked result h =
      let free = unblocked_changes g unblocked in
      let before : Round = record { recorded = recorded; unblocked = unblocked; section = [] } in
      record {
        same = record_changes-same free before h.same;
        known = λ x m. ground (
          arith,
          elem-record_changes x free before,
          h.known x,
          elem-unblocked_changes unblocked x,
        );
        once = λ x. ground (
          arith,
          concat-snoc-count x result (record_changes free before).section,
          h.once x,
          count-record_changes x free before,
          elem-record_changes x free before,
        );
        layered =
            IsLayered-snoc [] result (record_changes free before).section h.layered
              (λ p b m e. section-waits recorded unblocked result p b h m e);
      }
