-- ===== src/DiffGraph/Collecting.antt =====
-- About change_graph.go, the rules that `buildEdges` collects, and their sorting.
use mathlib.Core.List.{Memᴰ}
use mathlib.Core.List.Memᴰ
use mathlib.Core.Logic.{⊎_elim}
use kapp.Prelude.{
  ok-injective, subst, ℕ, List, [], ◌∷◌, ◌++◌, ◌≡◌, refl, sym, ◌∙◌, ap, ◌⊎◌, inl, inr, Bool, true,
  ltb, elem, elem-cons, All, select, ok, >>=-eq-ok, Bool-cases, arith,
}
use kapp.DiffGraph.Errors.{Vendored}
use kapp.DiffGraph.Rule.{ChangeRule}
use kapp.DiffGraph.Change.{
  ActualChangeOp, Change, applicable_rules, is_applicable, all_rules, known_op,
}
use kapp.DiffGraph.Graph.{Memory}
use kapp.DiffGraph.Build.{SortedRule, insert_rule, sort_rules, rules_of, collect_rules}

-- The rules that the first loop of `buildEdges` collects: those that their change applies.
pub record IsCollected (allow_rule : ChangeRule → Bool) (m : Memory) (changes : List ℕ)
    (sr : SortedRule) : Type 0 where
  pub known : elem sr.change changes ≡ true
  pub applicable : is_applicable (m sr.change).change.op sr.rule ≡ true
  pub allowed : allow_rule sr.rule ≡ true

module _ {A : Type 0} where
  All-append : (P : A → Type 0) (xs ys : List A) → All P xs → All P ys → All P (xs ++ ys)
  All-append P [] ys h k = k
  All-append P (x ∷ xs) ys h k = (h.0, All-append P xs ys h.1 k)

  All-map : (P Q : A → Type 0) (xs : List A) → ((a : A) → P a → Q a) → All P xs → All Q xs
  All-map P Q [] f h = tt
  All-map P Q (x ∷ xs) f h = (f x h.0, All-map P Q xs f h.1)

module _ (v : Vendored) (allow_rule : ChangeRule → Bool) (m : Memory) where
  rules_of-IsCollected :
      (op : ActualChangeOp) (p : ℕ) (ps : List ℕ) (rules : List ChangeRule)
      → op ≡ (m p).change.op
      → elem p ps ≡ true
      → All
          (IsCollected allow_rule m ps)
          (rules_of p (select allow_rule (select (is_applicable op) rules)))
  rules_of-IsCollected op p ps [] e h = tt
  rules_of-IsCollected op p ps (r ∷ rs) e h =
      let rest = rules_of-IsCollected op p ps rs e h in
      elim (Bool-cases (is_applicable op r)) [
        | inr no_app ↦ rw no_app rest
        | inl app ↦ elim (Bool-cases (allow_rule r)) [
          | inr not_allowed ↦ rw (app, not_allowed) rest
          | inl allowed ↦
              rw (app, allowed)
                (record { known = h; applicable = rw (← e) app; allowed = allowed }, rest)
        ]
      ]

  applicable_rules-select :
      (c : Change) (rules : List ChangeRule)
      → applicable_rules v c ≡ ok rules
      → (every : List ChangeRule) × (all_rules v c ≡ ok every)
        × (rules ≡ select (is_applicable c.change.op) every)
  unfolding applicable_rules
  applicable_rules-select c rules h =
      let (_, _, h1) = >>=-eq-ok (known_op c.change.op) _ h in
      let (every, e, h2) = >>=-eq-ok (all_rules v c) _ h1 in (every, e, sym (ok-injective h2))

  abbrev Collected : List ℕ → List SortedRule → Type 0
  Collected ps = All (IsCollected allow_rule m ps)

  Collected-cons :
      (p : ℕ) (ps : List ℕ) (srs : List SortedRule) → Collected ps srs → Collected (p ∷ ps) srs
  Collected-cons p ps srs =
      All-map (IsCollected allow_rule m ps) (IsCollected allow_rule m (p ∷ ps)) srs (λ sr c.
        record { known = ground (arith, c.known); applicable = c.applicable; allowed = c.allowed })

  pub collect_rules-IsCollected :
      (ps : List ℕ) (srs : List SortedRule)
      → collect_rules v allow_rule m ps ≡ ok srs
      → Collected ps srs
  unfolding collect_rules
  collect_rules-IsCollected [] srs h = subst (Collected []) (ok-injective h) tt
  collect_rules-IsCollected (p ∷ ps) srs h =
      let (rules, e1, h1) = >>=-eq-ok (applicable_rules v (m p)) _ h in
      let (more, e2, h2) = >>=-eq-ok (collect_rules v allow_rule m ps) _ h1 in
      let (every, _, e3) = applicable_rules-select (m p) rules e1 in
      subst (Collected (p ∷ ps)) (ok-injective h2) (
        All-append (IsCollected allow_rule m (p ∷ ps)) (rules_of p (select allow_rule rules)) more
          (rw e3 (rules_of-IsCollected (m p).change.op p (p ∷ ps) every refl (ground arith)))
          (Collected-cons p ps more (collect_rules-IsCollected ps more e2)))

  mem-select :
      (r : ChangeRule) (rs : List ChangeRule)
      → Memᴰ r rs
      → allow_rule r ≡ true
      → Memᴰ r (select allow_rule rs)
  mem-select r [] h k = absurd (Memᴰ.not-nil h)
  mem-select r (s ∷ rs) h k = elim (Memᴰ.cases_cons h) [
    | inl e ↦ rw (ap allow_rule (sym e) ∙ k) (Memᴰ.head e)
    | inr later ↦ elim (Bool-cases (allow_rule s)) [
      | inl y ↦ rw y (Memᴰ.tail (mem-select r rs later k))
      | inr n ↦ rw n (mem-select r rs later k)
    ]
  ]

  mem-rules_of :
      (p : ℕ) (r : ChangeRule) (rs : List ChangeRule)
      → Memᴰ r rs
      → Memᴰ (record { change = p; rule = r }) (rules_of p rs)
  mem-rules_of p r [] h = absurd (Memᴰ.not-nil h)
  mem-rules_of p r (s ∷ rs) h = elim (Memᴰ.cases_cons h) [
    | inl e ↦ Memᴰ.head (ap (λ x. record { change = p; rule = x }) e)
    | inr later ↦ Memᴰ.tail (mem-rules_of p r rs later)
  ]

  -- No rule is lost: an applicable rule of a change of the graph is collected.
  pub collect_rules-complete :
      (ps : List ℕ) (srs : List SortedRule) (p : ℕ) (rules : List ChangeRule) (r : ChangeRule)
      → collect_rules v allow_rule m ps ≡ ok srs
      → elem p ps ≡ true
      → applicable_rules v (m p) ≡ ok rules
      → Memᴰ r rules
      → allow_rule r ≡ true
      → Memᴰ (record { change = p; rule = r }) srs
  unfolding collect_rules
  collect_rules-complete [] srs p rules r h k e mem allowed = cc
  collect_rules-complete (q ∷ ps) srs p rules r h k e mem allowed =
      let (rules', e1, h1) = >>=-eq-ok (applicable_rules v (m q)) _ h in
      let (more, e2, h2) = >>=-eq-ok (collect_rules v allow_rule m ps) _ h1 in
      subst (Memᴰ (record { change = p; rule = r })) (ok-injective h2) (elim (elem-cons p q ps k) [
        | inl is_q ↦
            let same : rules ≡ rules' = ok-injective (sym e ∙ rw is_q e1) in
            Memᴰ.append_left more (
              subst
                (λ x.
                  Memᴰ (record { change = p; rule = r }) (rules_of x (select allow_rule rules')))
                is_q
                (mem-rules_of p r (select allow_rule rules')
                  (mem-select r rules' (rw same at mem) allowed)))
        | inr later ↦
            Memᴰ.append_right (rules_of q (select allow_rule rules'))
              (collect_rules-complete ps more p rules r e2 later e mem allowed)
      ])

All-insert_rule :
    (P : SortedRule → Type 0) (sr : SortedRule) (srs : List SortedRule)
    → P sr
    → All P srs
    → All P (insert_rule sr srs)
unfolding insert_rule
All-insert_rule P sr [] h k = (h, tt)
All-insert_rule P sr (o ∷ srs) h k = elim (Bool-cases (ltb sr.rule.weight o.rule.weight)) [
  | inl e ↦ rw e (k.0, All-insert_rule P sr srs h k.1)
  | inr n ↦ rw n (h, k)
]

pub All-sort_rules :
    (P : SortedRule → Type 0) (srs : List SortedRule) → All P srs → All P (sort_rules srs)
unfolding sort_rules
All-sort_rules P [] h = tt
All-sort_rules P (sr ∷ srs) h = All-insert_rule P sr (sort_rules srs) h.0 (All-sort_rules P srs h.1)

mem-insert_rule :
    (x sr : SortedRule) (srs : List SortedRule)
    → (x ≡ sr) ⊎ Memᴰ x srs
    → Memᴰ x (insert_rule sr srs)
unfolding insert_rule
mem-insert_rule x sr [] (inl e) = Memᴰ.head e
mem-insert_rule x sr [] (inr h) = absurd (Memᴰ.not-nil h)
mem-insert_rule x sr (o ∷ srs) h = elim (Bool-cases (ltb sr.rule.weight o.rule.weight)) [
  | inr n ↦ rw n (⊎_elim Memᴰ.head Memᴰ.tail h)
  | inl y ↦ rw y (
      ⊎_elim (λ e. Memᴰ.tail (mem-insert_rule x sr srs (inl e)))
        (λ k.
          ⊎_elim Memᴰ.head (λ later. Memᴰ.tail (mem-insert_rule x sr srs (inr later)))
            (Memᴰ.cases_cons k))
        h)
]

pub mem-sort_rules : (x : SortedRule) (srs : List SortedRule) → Memᴰ x srs → Memᴰ x (sort_rules srs)
unfolding sort_rules
mem-sort_rules x [] h = absurd (Memᴰ.not-nil h)
mem-sort_rules x (sr ∷ srs) h =
    mem-insert_rule x sr (sort_rules srs)
      (elim (Memᴰ.cases_cons h) [ inl e ↦ inl e | inr later ↦ inr (mem-sort_rules x srs later) ])
