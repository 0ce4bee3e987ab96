-- ===== src/DiffGraph/Required.antt =====
-- About change_graph.go, the pass of `buildEdges` for the required rules.
use kapp.Prelude.{
  String, ℕ, List, [], ◌∷◌, ◌≡◌, refl, sym, ◌∙◌, ap, inl, inr, Bool, true, false, subst, str_eq,
  str_eq_iff, elem, elem-cons, Result, ok, err, panic, out_of_fuel, arith,
}
use mathlib.Core.List.{Memᴰ}
use mathlib.Core.List.Memᴰ
use kapp.DiffGraph.Errors.{Error, Vendored}
use kapp.DiffGraph.Rule.{ChangeRule, order_before, order_after}
use kapp.DiffGraph.Change.{applicable_rules}
use kapp.DiffGraph.Graph.{Memory, waiting_for, add_waiting_for}
use kapp.DiffGraph.Matching.{matched, elem-matches_rule}
use kapp.DiffGraph.Collecting.{collect_rules-complete, mem-sort_rules}
use kapp.DiffGraph.Edges.{elem-add_waiting_for}
use kapp.DiffGraph.Extends.{
  Extends, add_after-Extends, add_before-Extends, add_edges-Extends, add_rules-Extends,
  matched_same,
}
use kapp.DiffGraph.Build.{
  SortedRule, sort_rules, any_change, Build, then_build, lift_build, add_edge, add_after,
  add_before, add_edges, matches_rule, collect_rules, add_rules, build_edges,
}

-- The dependency that a rule of `c` asks for with respect to `q`.
pub record IsHonoured (order : String) (c q : ℕ) (m : Memory) : Type 0 where
  pub after : order ≡ order_after → elem q (waiting_for m c) ≡ true
  pub before : order ≡ order_before → elem c (waiting_for m q) ≡ true

pub IsHonoured-Extends :
    (order : String) (c q : ℕ) (m m' : Memory)
    → Extends m m'
    → IsHonoured order c q m
    → IsHonoured order c q m'
IsHonoured-Extends order c q m m' e h = record {
  after = λ o. e.grown c q (h.after o);
  before = λ o. e.grown q c (h.before o);
}

add_after-edge :
    (c q : ℕ) (ms : List ℕ) (m : Memory)
    → elem q ms ≡ true
    → elem q (waiting_for (add_after any_change c ms m).1 c) ≡ true
unfolding add_after add_edge
add_after-edge c q [] m h = cc
add_after-edge c q (p ∷ ps) m h = elim (elem-cons q p ps h) [
  | inl e ↦
      (add_after-Extends any_change c ps (add_waiting_for c p m)).grown c q
        (elem-add_waiting_for c p m c q ∙ ground arith)
  | inr later ↦ add_after-edge c q ps (add_waiting_for c p m) later
]

add_before-edge :
    (c q : ℕ) (ms : List ℕ) (m : Memory)
    → elem q ms ≡ true
    → elem c (waiting_for (add_before any_change c ms m).1 q) ≡ true
unfolding add_before add_edge
add_before-edge c q [] m h = cc
add_before-edge c q (p ∷ ps) m h = elim (elem-cons q p ps h) [
  | inl e ↦
      (add_before-Extends any_change c ps (add_waiting_for p c m)).grown q c
        (elem-add_waiting_for p c m q c ∙ ground arith)
  | inr later ↦ add_before-edge c q ps (add_waiting_for p c m) later
]

before_not_after : str_eq order_before order_after ≡ false
before_not_after = refl

add_edges-IsHonoured :
    (sr : SortedRule) (q : ℕ) (ms : List ℕ) (m : Memory)
    → elem q ms ≡ true
    → IsHonoured sr.rule.order sr.change q (add_edges any_change sr ms m).1
unfolding add_edges
add_edges-IsHonoured sr q ms m h = record {
  after = λ o. rw ((str_eq_iff sr.rule.order order_after).1 o) (add_after-edge sr.change q ms m h);
  before = λ o.
      rw
        (
          ap (λ s. str_eq s order_after) o ∙ before_not_after,
          (str_eq_iff sr.rule.order order_before).1 o,
        )
        (add_before-edge sr.change q ms m h);
}

pub lift_build-ok :
    {A : Type 0} (r : Result Error A) (m : Memory) (f : A → Build)
    → (lift_build r m f).0 ≡ ok tt
    → (a : A) × (r ≡ ok a) × (lift_build r m f ≡ f a)
lift_build-ok (ok a) m f h = (a, refl, refl)
lift_build-ok (err e) m f h = cc
lift_build-ok (panic s) m f h = cc
lift_build-ok out_of_fuel m f h = cc

pub then_build-ok :
    (b : Build) (f : Memory → Build)
    → (then_build b f).0 ≡ ok tt
    → (b.0 ≡ ok tt) × (then_build b f ≡ f b.1)
then_build-ok (ok _, m') f h = (refl, refl)
then_build-ok (err e, m') f h = cc
then_build-ok (panic s, m') f h = cc
then_build-ok (out_of_fuel, m') f h = cc

module _ (v : Vendored) (changes : List ℕ) where
  IsHonoured-first :
      (sr s : SortedRule) (srs : List SortedRule) (q : ℕ) (ms : List ℕ) (m : Memory)
      → sr ≡ s
      → elem q changes ≡ true
      → matched v sr.rule (m q) ≡ true
      → matches_rule v m s.rule changes ≡ ok ms
      → IsHonoured sr.rule.order sr.change q
          (add_rules v any_change changes srs (add_edges any_change s ms m).1).1
  IsHonoured-first sr s srs q ms m first known is_matched e =
      let after = (add_edges any_change s ms m).1 in
      let matched_s : matched v s.rule (m q) ≡ true =
        ap (λ (x : SortedRule). matched v x.rule (m q)) (sym first) ∙ is_matched in
      subst
        (λ (x : SortedRule).
          IsHonoured x.rule.order x.change q (add_rules v any_change changes srs after).1)
        (sym first)
        (IsHonoured-Extends s.rule.order s.change q after _
          (add_rules-Extends any_change v changes srs after)
          (add_edges-IsHonoured s q ms m
            (elem-matches_rule v m s.rule changes q ms e ∙ ground arith)))

  add_rules-IsHonoured :
      (srs : List SortedRule) (m : Memory) (sr : SortedRule) (q : ℕ)
      → (add_rules v any_change changes srs m).0 ≡ ok tt
      → Memᴰ sr srs
      → elem q changes ≡ true
      → matched v sr.rule (m q) ≡ true
      → IsHonoured sr.rule.order sr.change q (add_rules v any_change changes srs m).1
  unfolding add_rules
  add_rules-IsHonoured [] m sr q done mem known is_matched = absurd (Memᴰ.not-nil mem)
  add_rules-IsHonoured (s ∷ srs) m sr q done mem known is_matched =
      let (ms, e1, e2) = lift_build-ok (matches_rule v m s.rule changes) m _ done in
      let edges = add_edges any_change s ms m in
      let (_, e3) =
        then_build-ok edges (add_rules v any_change changes srs)
          (ap (λ (b : Build). b.0) (sym e2) ∙ done) in
      let whole = e2 ∙ e3 in
      rw whole (elim (Memᴰ.cases_cons mem) [
        | inl first ↦ IsHonoured-first sr s srs q ms m first known is_matched e1
        | inr later ↦
            add_rules-IsHonoured srs edges.1 sr q (ap (λ (b : Build). b.0) (sym whole) ∙ done) later
              known
              (matched_same v sr.rule m edges.1 q (add_edges-Extends any_change s ms m)
                ∙ is_matched)
      ])

  -- A rule that the pass allows is honoured between its change and every change that it is about.
  pub build_edges-IsHonoured :
      (allow_rule : ChangeRule → Bool) (m : Memory) (p q : ℕ) (rules : List ChangeRule)
      (r : ChangeRule)
      → (build_edges v allow_rule any_change changes m).0 ≡ ok tt
      → elem p changes ≡ true
      → applicable_rules v (m p) ≡ ok rules
      → Memᴰ r rules
      → allow_rule r ≡ true
      → elem q changes ≡ true
      → matched v r (m q) ≡ true
      → IsHonoured r.order p q (build_edges v allow_rule any_change changes m).1
  unfolding build_edges
  build_edges-IsHonoured allow_rule m p q rules r done known e mem allowed known_q is_matched =
      let (srs, e1, e2) =
        lift_build-ok (collect_rules v allow_rule m changes) m
          (λ rules'. add_rules v any_change changes (sort_rules rules') m) done in
      let sr : SortedRule = record { change = p; rule = r } in
      rw e2 (
        add_rules-IsHonoured (sort_rules srs) m sr q (ap (λ (b : Build). b.0) (sym e2) ∙ done)
          (mem-sort_rules sr srs
            (collect_rules-complete v allow_rule m changes srs p rules r e1 known e mem allowed))
          known_q is_matched)
