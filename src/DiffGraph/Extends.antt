-- ===== src/DiffGraph/Extends.antt =====
-- About change_graph.go, `buildEdges`: how the memory grows, and what a pass has added.
use kapp.Prelude.{
  ℕ, List, [], ◌∷◌, ◌++◌, ◌≡◌, refl, ◌∙◌, ap, inl, inr, Bool, true, false, ◌==◌, str_eq, elem,
  if◌then◌else◌, Result, ok, err, panic, out_of_fuel, Bool-cases, arith,
}
use kapp.DiffGraph.Errors.{Error, Vendored}
use kapp.DiffGraph.Rule.{ChangeRule, order_before, order_after}
use kapp.DiffGraph.Change.{Change, groups}
use kapp.DiffGraph.Graph.{Memory, waiting_for, add_waiting_for}
use kapp.DiffGraph.Matching.{matched}
use kapp.DiffGraph.Edges.{elem-add_waiting_for}
use kapp.DiffGraph.Build.{
  SortedRule, sort_rules, AllowChange, Build, then_build, lift_build, add_edge, add_after,
  add_before, add_edges, matches_rule, collect_rules, add_rules, build_edges,
}

pub record Extends (m m' : Memory) : Type 0 where
  pub same : (p : ℕ) → m' p ≡ record (m p) { waiting_for = waiting_for m' p }
  pub grown : (a b : ℕ) → elem b (waiting_for m a) ≡ true → elem b (waiting_for m' a) ≡ true

pub Extends-refl : (m : Memory) → Extends m m
Extends-refl m = record { same = λ p. refl; grown = λ a b h. h }

pub Extends-trans : (m m' m'' : Memory) → Extends m m' → Extends m' m'' → Extends m m''
Extends-trans m m' m'' e f = record {
  same =
      λ p. f.same p ∙ ap (λ (c : Change). record c { waiting_for = waiting_for m'' p }) (e.same p);
  grown = λ a b h. f.grown a b (e.grown a b h);
}

pub if_same :
    (b : Bool) (c : Change) (w : List ℕ)
    → (if b then record c { waiting_for = w } else c)
      ≡ record c { waiting_for = (if b then record c { waiting_for = w } else c).waiting_for }
if_same true c w = refl
if_same false c w = refl

add_waiting_for-same :
    (from to : ℕ) (m : Memory) (p : ℕ)
    → add_waiting_for from to m p
      ≡ record (m p) { waiting_for = waiting_for (add_waiting_for from to m) p }
unfolding add_waiting_for
add_waiting_for-same from to m p = if_same (p == from) (m p) (waiting_for m from ++ to ∷ [])

add_waiting_for-Extends : (from to : ℕ) (m : Memory) → Extends m (add_waiting_for from to m)
add_waiting_for-Extends from to m = record {
  same = add_waiting_for-same from to m;
  grown = λ a b h. elem-add_waiting_for from to m a b ∙ ground arith;
}

then_build-Extends :
    (m : Memory) (b : Build) (f : Memory → Build)
    → Extends m b.1
    → ((m' : Memory) → Extends m' (f m').1)
    → Extends m (then_build b f).1
then_build-Extends m (ok _, m') f h k = Extends-trans m m' (f m').1 h (k m')
then_build-Extends m (err e, m') f h k = h
then_build-Extends m (panic s, m') f h k = h
then_build-Extends m (out_of_fuel, m') f h k = h

lift_build-Extends :
    {A : Type 0} (r : Result Error A) (m : Memory) (f : A → Build)
    → ((a : A) → Extends m (f a).1)
    → Extends m (lift_build r m f).1
lift_build-Extends (ok a) m f k = k a
lift_build-Extends (err e) m f k = Extends-refl m
lift_build-Extends (panic s) m f k = Extends-refl m
lift_build-Extends out_of_fuel m f k = Extends-refl m

module _ (allow : AllowChange) where
  pub add_edge-Extends : (from to : ℕ) (m : Memory) → Extends m (add_edge allow from to m).1
  unfolding add_edge
  add_edge-Extends from to m = lift_build-Extends (allow m from to) m _ go
    where
      go : (b : Bool) → Extends m (if b then add_waiting_for from to m else m)
      go true = add_waiting_for-Extends from to m
      go false = Extends-refl m

  pub add_after-Extends : (c : ℕ) (ms : List ℕ) (m : Memory) → Extends m (add_after allow c ms m).1
  unfolding add_after
  add_after-Extends c [] m = Extends-refl m
  add_after-Extends c (p ∷ ps) m =
      then_build-Extends m (add_edge allow c p m) _ (add_edge-Extends c p m)
        (add_after-Extends c ps)

  pub add_before-Extends :
      (c : ℕ) (ms : List ℕ) (m : Memory) → Extends m (add_before allow c ms m).1
  unfolding add_before
  add_before-Extends c [] m = Extends-refl m
  add_before-Extends c (p ∷ ps) m =
      then_build-Extends m (add_edge allow p c m) _ (add_edge-Extends p c m)
        (add_before-Extends c ps)

  pub add_edges-Extends :
      (sr : SortedRule) (ms : List ℕ) (m : Memory) → Extends m (add_edges allow sr ms m).1
  unfolding add_edges
  add_edges-Extends sr ms m = elim (Bool-cases (str_eq sr.rule.order order_after)) [
    | inl e ↦ rw e (add_after-Extends sr.change ms m)
    | inr n ↦ elim (Bool-cases (str_eq sr.rule.order order_before)) [
      | inl e ↦ rw (n, e) (add_before-Extends sr.change ms m)
      | inr o ↦ rw (n, o) (Extends-refl m)
    ]
  ]

  module _ (v : Vendored) (changes : List ℕ) where
    pub add_rules-Extends :
        (srs : List SortedRule) (m : Memory) → Extends m (add_rules v allow changes srs m).1
    unfolding add_rules
    add_rules-Extends [] m = Extends-refl m
    add_rules-Extends (sr ∷ srs) m =
        lift_build-Extends (matches_rule v m sr.rule changes) m _ (λ ms.
          then_build-Extends m (add_edges allow sr ms m) _ (add_edges-Extends sr ms m)
            (add_rules-Extends srs))

    pub build_edges-Extends :
        (allow_rule : ChangeRule → Bool) (m : Memory)
        → Extends m (build_edges v allow_rule allow changes m).1
    unfolding build_edges
    build_edges-Extends allow_rule m =
        lift_build-Extends (collect_rules v allow_rule m changes) m _
          (λ srs. add_rules-Extends (sort_rules srs) m)

pub matched_same :
    (v : Vendored) (rule : ChangeRule) (m m' : Memory) (p : ℕ)
    → Extends m m'
    → matched v rule (m' p) ≡ matched v rule (m p)
unfolding groups
matched_same v rule m m' p e = ap (matched v rule) (e.same p)
