-- ===== src/DiffGraph/Edges.antt =====
-- About change_graph.go, `buildEdges`: the edges that it adds to the memory.
use kapp.Prelude.{
  ℕ, List, [], ◌∷◌, ◌≡◌, refl, sym, ◌∙◌, ◌⊎◌, inl, inr, Bool, true, false, ◌&&◌, ◌||◌, ◌==◌, str_eq,
  elem, elem-append, All, if◌then◌else◌, Result, ok, err, panic, out_of_fuel, Bool-cases, arith,
}
use kapp.DiffGraph.Errors.{Error, Vendored}
use kapp.DiffGraph.Rule.{ChangeRule, order_before, order_after}
use kapp.DiffGraph.Change.{ActualChangeOp, upsert, delete, is_applicable}
use kapp.DiffGraph.Graph.{Memory, waiting_for, add_waiting_for}
use kapp.DiffGraph.Matching.{is_active, target_op_active, matched, elem-matches_rule}
use kapp.DiffGraph.Collecting.{IsCollected, collect_rules-IsCollected, All-sort_rules}
use kapp.DiffGraph.Build.{
  SortedRule, sort_rules, AllowChange, Build, then_build, lift_build, add_edge, add_after,
  add_before, add_edges, matches_rule, collect_rules, add_rules, build_edges,
}

pub elem-add_waiting_for :
    (from to : ℕ) (memory : Memory) (c x : ℕ)
    → elem x (waiting_for (add_waiting_for from to memory) c)
      ≡ (elem x (waiting_for memory c) || (c == from && x == to))
unfolding add_waiting_for
elem-add_waiting_for from to memory c x = elim (Bool-cases (c == from)) [
  | inl e ↦
      let c_from : c ≡ from = ground arith in
      rw c_from (ground (arith, elem-append x (waiting_for memory from) (to ∷ [])))
  | inr n ↦ ground arith
]

module _ (changes : List ℕ) (allow : AllowChange) (start : Memory) where
  -- A change of the graph that is applied.
  pub record IsEnd (p : ℕ) : Type 0 where
    pub known : elem p changes ≡ true
    pub active : is_active (start p).change.op ≡ true

  pub data Adds : Memory → Type 0 where
    none : Adds start
    more :
        {m m' : Memory} (from to : ℕ)
        → Adds m
        → IsEnd from
        → IsEnd to
        → allow m from to ≡ ok true
        → m' ≡ add_waiting_for from to m
        → Adds m'

  pub Adds-change : {m : Memory} → Adds m → (p : ℕ) → (m p).change ≡ (start p).change
  unfolding add_waiting_for
  Adds-change none p = refl
  Adds-change (more {m} from to a f t h e) p = rw e (ground (arith, Adds-change a p))

  lift_build-Adds :
      {A : Type 0} (r : Result Error A) (m : Memory) (f : A → Build)
      → Adds m
      → ((a : A) → r ≡ ok a → Adds (f a).1)
      → Adds (lift_build r m f).1
  lift_build-Adds (ok a) m f h k = k a refl
  lift_build-Adds (err e) m f h k = h
  lift_build-Adds (panic s) m f h k = h
  lift_build-Adds out_of_fuel m f h k = h

  then_build-Adds :
      (b : Build) (f : Memory → Build)
      → Adds b.1
      → ((m : Memory) → Adds m → Adds (f m).1)
      → Adds (then_build b f).1
  then_build-Adds (ok _, m) f h k = k m h
  then_build-Adds (err e, m) f h k = h
  then_build-Adds (panic s, m) f h k = h
  then_build-Adds (out_of_fuel, m) f h k = h

  add_edge-Adds :
      (from to : ℕ) (m : Memory)
      → Adds m
      → IsEnd from
      → IsEnd to
      → Adds (add_edge allow from to m).1
  unfolding add_edge
  add_edge-Adds from to m a f t = lift_build-Adds (allow m from to) m _ a (λ b e. go b e)
    where
      go : (b : Bool) → allow m from to ≡ ok b → Adds (if b then add_waiting_for from to m else m)
      go true e = more from to a f t e refl
      go false e = a

  add_after-Adds :
      (c : ℕ) (ms : List ℕ) (m : Memory)
      → Adds m
      → IsEnd c
      → ((p : ℕ) → elem p ms ≡ true → IsEnd p)
      → Adds (add_after allow c ms m).1
  unfolding add_after
  add_after-Adds c [] m a h k = a
  add_after-Adds c (p ∷ ps) m a h k =
      then_build-Adds (add_edge allow c p m) _ (add_edge-Adds c p m a h (k p (ground arith)))
        (λ m' a'. add_after-Adds c ps m' a' h (λ q e. k q (ground arith)))

  add_before-Adds :
      (c : ℕ) (ms : List ℕ) (m : Memory)
      → Adds m
      → IsEnd c
      → ((p : ℕ) → elem p ms ≡ true → IsEnd p)
      → Adds (add_before allow c ms m).1
  unfolding add_before
  add_before-Adds c [] m a h k = a
  add_before-Adds c (p ∷ ps) m a h k =
      then_build-Adds (add_edge allow p c m) _ (add_edge-Adds p c m a (k p (ground arith)) h)
        (λ m' a'. add_before-Adds c ps m' a' h (λ q e. k q (ground arith)))

  add_edges-Adds :
      (sr : SortedRule) (ms : List ℕ) (m : Memory)
      → Adds m
      → IsEnd sr.change
      → ((p : ℕ) → elem p ms ≡ true → IsEnd p)
      → Adds (add_edges allow sr ms m).1
  unfolding add_edges
  add_edges-Adds sr ms m a h k = elim (Bool-cases (str_eq sr.rule.order order_after)) [
    | inl e ↦ rw e (add_after-Adds sr.change ms m a h k)
    | inr n ↦ elim (Bool-cases (str_eq sr.rule.order order_before)) [
      | inl e ↦ rw (n, e) (add_before-Adds sr.change ms m a h k)
      | inr o ↦ rw (n, o) a
    ]
  ]

  applicable_active :
      (op : ActualChangeOp) (r : ChangeRule) → is_applicable op r ≡ true → is_active op ≡ true
  unfolding is_applicable
  applicable_active upsert r h = refl
  applicable_active delete r h = refl
  applicable_active _ r h = cc

  module _ (v : Vendored) where
    matched-IsEnd :
        (m : Memory) (rule : ChangeRule) (ms : List ℕ)
        → Adds m
        → matches_rule v m rule changes ≡ ok ms
        → (p : ℕ) → elem p ms ≡ true
        → IsEnd p
    matched-IsEnd m rule ms a e p h =
        let is_matched : elem p changes && matched v rule (m p) ≡ true =
          sym (elem-matches_rule v m rule changes p ms e) ∙ h in
        record {
          known = ground arith;
          active = rw (← Adds-change a p) (target_op_active (m p).change.op rule (ground arith));
        }

    add_rules-Adds :
        (allow_rule : ChangeRule → Bool) (srs : List SortedRule) (m : Memory)
        → Adds m
        → All (IsCollected allow_rule start changes) srs
        → Adds (add_rules v allow changes srs m).1
    unfolding add_rules
    add_rules-Adds allow_rule [] m a c = a
    add_rules-Adds allow_rule (sr ∷ srs) m a (c, cs) =
        lift_build-Adds (matches_rule v m sr.rule changes) m _ a (λ ms e.
          then_build-Adds (add_edges allow sr ms m) _
            (add_edges-Adds sr ms m a
              (record {
                known = c.known;
                active = applicable_active (start sr.change).change.op sr.rule c.applicable;
              })
              (matched-IsEnd m sr.rule ms a e))
            (λ m' a'. add_rules-Adds allow_rule srs m' a' cs))

    -- Whatever the outcome, the edges that `buildEdges` leaves were added one by one.
    pub build_edges-Adds :
        (allow_rule : ChangeRule → Bool) → Adds (build_edges v allow_rule allow changes start).1
    unfolding build_edges
    build_edges-Adds allow_rule =
        lift_build-Adds (collect_rules v allow_rule start changes) start _ none (λ srs e.
          add_rules-Adds allow_rule (sort_rules srs) start none (
            All-sort_rules (IsCollected allow_rule start changes) srs
              (collect_rules-IsCollected v allow_rule start changes srs e)))

  pub Adds-edge :
      {m : Memory} (a b : ℕ)
      → Adds m
      → elem b (waiting_for m a) ≡ true
      → (elem b (waiting_for start a) ≡ true) ⊎ IsEnd a × IsEnd b
  Adds-edge a b none h = inl h
  Adds-edge a b (more {m} from to s f t allowed e) h =
      elim (Bool-cases (elem b (waiting_for m a))) [
        | inl old ↦ Adds-edge a b s old
        | inr new ↦
            let now = sym (elem-add_waiting_for from to m a b) ∙ rw e at h in
            let a_from : a ≡ from = ground arith in
            let b_to : b ≡ to = ground arith in inr (rw a_from f, rw b_to t)
      ]

  pub Adds-grown :
      {m : Memory} (a b : ℕ)
      → Adds m
      → elem b (waiting_for start a) ≡ true
      → elem b (waiting_for m a) ≡ true
  Adds-grown a b none h = h
  Adds-grown a b (more {m} from to s f t allowed e) h =
      rw e (elem-add_waiting_for from to m a b ∙ ground (arith, Adds-grown a b s h))
