-- ===== src/DiffGraph/Optional.antt =====
-- About change_graph.go, the condition on optional dependencies in `NewChangeGraph`.
use kapp.Prelude.{
  ℕ, suc, List, ◌≡◌, sym, ◌∙◌, ◌⊎◌, inl, inr, ◌≢◌, true, ◌==◌, elem, length, ok, Bool-cases, arith,
}
use kapp.DiffGraph.Graph.{Memory, waiting_for, add_waiting_for, is_directly_waiting_for}
use kapp.DiffGraph.Build.{AllowChange, no_new_cycle}
use kapp.DiffGraph.Paths.{WaitsFor, direct, through, IsAcyclic, IsClosed}
use kapp.DiffGraph.PathLaws.{WaitsFor-trans}
use kapp.DiffGraph.Search.{is_transitively_waiting_for_decides}
use kapp.DiffGraph.Edges.{Adds, none, more, Adds-edge, elem-add_waiting_for}

-- The edges of the new memory: the old ones and the one that was added.
edge_cases :
    (from to : ℕ) (m : Memory) (a b : ℕ)
    → elem b (waiting_for (add_waiting_for from to m) a) ≡ true
    → (elem b (waiting_for m a) ≡ true) ⊎ (a ≡ from) × (b ≡ to)
edge_cases from to m a b h =
    let now = sym (elem-add_waiting_for from to m a b) ∙ h in
    elim (Bool-cases (elem b (waiting_for m a))) [
      | inl old ↦ inl old
      | inr new ↦ inr (ground arith, ground arith)
    ]

module _ (from to : ℕ) (m : Memory) where
  abbrev before : ℕ → List ℕ
  before = waiting_for m

  -- `a` is `b`, or waits for it.
  abbrev Upto : ℕ → ℕ → Type 0
  Upto a b = (a ≡ b) ⊎ WaitsFor before a b

  Upto-cons : (a b c : ℕ) → elem b (before a) ≡ true → Upto b c → WaitsFor before a c
  Upto-cons a b c h (inl e) = direct (rw (← e) h)
  Upto-cons a b c h (inr p) = through h p

  path_cases :
      {a c : ℕ}
      → WaitsFor (waiting_for (add_waiting_for from to m)) a c
      → WaitsFor before a c ⊎ Upto a from × Upto to c
  path_cases {a} {c} (direct h) = elim (edge_cases from to m a c h) [
    | inl old ↦ inl (direct old)
    | inr (e, f) ↦ inr (inl e, inl (sym f))
  ]
  path_cases {a} {c} (through {b = b} h p) = go (edge_cases from to m a b h) (path_cases p)
    where
      go :
          (elem b (before a) ≡ true) ⊎ (a ≡ from) × (b ≡ to)
          → WaitsFor before b c ⊎ Upto b from × Upto to c
          → WaitsFor before a c ⊎ Upto a from × Upto to c
      go (inl old) (inl path) = inl (through old path)
      go (inl old) (inr (first, last)) = inr (inr (Upto-cons a b from old first), last)
      go (inr (e, f)) (inl path) = inr (inl e, inr (rw f at path))
      go (inr (e, f)) (inr (first, last)) = inr (inl e, last)

  no_new_cycle_at : (p : ℕ) → to ≢ from → ¬ WaitsFor before to from → Upto p from × Upto to p → ⊥
  no_new_cycle_at p ne no_path (inl e, inl f) = ne (f ∙ e)
  no_new_cycle_at p ne no_path (inl e, inr q) = no_path (rw e at q)
  no_new_cycle_at p ne no_path (inr q, inl f) = no_path (rw (← f) at q)
  no_new_cycle_at p ne no_path (inr q, inr r) = no_path (WaitsFor-trans r q)

  add_waiting_for-IsAcyclic :
      (changes : List ℕ)
      → to ≢ from
      → ¬ WaitsFor before to from
      → IsAcyclic before changes
      → IsAcyclic (waiting_for (add_waiting_for from to m)) changes
  add_waiting_for-IsAcyclic changes ne no_path acyclic p known cycle = elim (path_cases cycle) [
    | inl old ↦ acyclic p known old
    | inr parts ↦ no_new_cycle_at p ne no_path parts
  ]

module _ (changes : List ℕ) (start : Memory) (closed : IsClosed (waiting_for start) changes) where
  pub Adds-IsClosed :
      {allow : AllowChange} {m : Memory}
      → Adds changes allow start m
      → IsClosed (waiting_for m) changes
  Adds-IsClosed {allow} {m} s a b known h = elim (Adds-edge changes allow start a b s h) [
    | inl old ↦ closed a b known old
    | inr (_, t) ↦ t.known
  ]

  -- What the condition on an optional dependency guarantees.
  no_new_cycle-allows :
      (m : Memory) (from to : ℕ)
      → IsClosed (waiting_for m) changes
      → elem to changes ≡ true
      → no_new_cycle (suc (length changes)) m from to ≡ ok true
      → (to ≢ from) × ¬ WaitsFor (waiting_for m) to from
  unfolding no_new_cycle
  no_new_cycle-allows m from to closed_m known h = elim (Bool-cases (from == to)) [
    | inl same ↦ cc (rw same at h)
    | inr differ ↦ elim (Bool-cases (is_directly_waiting_for (waiting_for m) from to)) [
      | inl now ↦ cc (rw (differ, now) at h)
      | inr later ↦
          elim (is_transitively_waiting_for_decides (waiting_for m) changes to from closed_m
            known) [
              | inl (e, _) ↦ cc (rw (differ, later, e) at h)
              | inr (_, no_path) ↦ (λ e. ground arith, no_path)
            ]
    ]
  ]

  pub Adds-IsAcyclic :
      {m : Memory}
      → Adds changes (no_new_cycle (suc (length changes))) start m
      → IsAcyclic (waiting_for start) changes
      → IsAcyclic (waiting_for m) changes
  Adds-IsAcyclic none acyclic = acyclic
  Adds-IsAcyclic (more {m} from to s f t allowed e) acyclic =
      let (ne, no_path) = no_new_cycle-allows m from to (Adds-IsClosed s) t.known allowed in
      rw e (add_waiting_for-IsAcyclic from to m changes ne no_path (Adds-IsAcyclic s acyclic))
