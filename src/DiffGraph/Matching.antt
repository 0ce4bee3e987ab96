-- ===== src/DiffGraph/Matching.antt =====
-- About change.go, `MatchesRule`, said without its loops.
use kapp.Prelude.{
  ℕ, List, [], ◌∷◌, ◌++◌, ◌≡◌, refl, inl, inr, Bool, true, false, ◌&&◌, ◌==◌, str_eq, elem,
  elem-append, any, Result, ok, err, panic, out_of_fuel, >>=-eq-ok, Bool-cases, arith,
}
use kapp.DiffGraph.Errors.{Error, Vendored}
use kapp.DiffGraph.Group.{ChangeGroup, is_equal}
use kapp.DiffGraph.Rule.{ChangeRule, target_action_upserting, target_action_deleting}
use kapp.DiffGraph.Change.{ActualChangeOp, upsert, delete, noop, unknown, op_panics, Change, groups}
use kapp.DiffGraph.Graph.{Memory}
use kapp.DiffGraph.Build.{match_op, match_groups, matches_rule}

abbrev pub is_active : ActualChangeOp → Bool
is_active upsert = true
is_active delete = true
is_active _ = false

abbrev pub target_op : ActualChangeOp → ChangeRule → Bool
target_op upsert rule = str_eq rule.target_action target_action_upserting
target_op delete rule = str_eq rule.target_action target_action_deleting
target_op _ rule = false

pub target_op_active :
    (op : ActualChangeOp) (rule : ChangeRule) → target_op op rule ≡ true → is_active op ≡ true
target_op_active upsert rule h = refl
target_op_active delete rule h = refl
target_op_active _ rule h = cc

elem-match_op :
    (op : ActualChangeOp) (rule : ChangeRule) (q p : ℕ) (ms : List ℕ)
    → match_op op rule q ≡ ok ms
    → elem p ms ≡ (p == q && target_op op rule)
unfolding match_op
elem-match_op upsert rule q p ms h = ground arith
elem-match_op delete rule q p ms h = ground arith
elem-match_op noop rule q p ms h = ground arith
elem-match_op (unknown s) rule q p ms h = ground arith
elem-match_op (op_panics s) rule q p ms h = ground arith

abbrev pub in_groups : ChangeRule → List ChangeGroup → Bool
in_groups rule = any (λ g. is_equal g rule.target_group)

elem-match_groups :
    (op : ActualChangeOp) (rule : ChangeRule) (q p : ℕ) (gs : List ChangeGroup) (ms : List ℕ)
    → match_groups op rule q gs ≡ ok ms
    → elem p ms ≡ (p == q && (target_op op rule && in_groups rule gs))
unfolding match_groups
elem-match_groups op rule q p [] ms h = ground arith
elem-match_groups op rule q p (g ∷ gs) ms h = elim (Bool-cases (is_equal g rule.target_group)) [
  | inl e ↦
      let (found, e1, h1) = >>=-eq-ok (match_op op rule q) _ (rw e at h) in
      let (more, e2, h2) = >>=-eq-ok (match_groups op rule q gs) _ h1 in
      ground (
        arith,
        elem-match_op op rule q p found e1,
        elem-match_groups op rule q p gs more e2,
        elem-append p found more,
      )
  | inr n ↦
      let (more, e2, h2) = >>=-eq-ok (match_groups op rule q gs) _ (rw n at h) in
      ground (arith, elem-match_groups op rule q p gs more e2)
]

module _ (v : Vendored) where
  -- The change belongs to the group that the rule names.
  abbrev pub in_target_group : ChangeRule → Change → Bool
  in_target_group rule c = elim (groups v c) [
    | ok gs ↦ in_groups rule gs
    | err _ ↦ false
    | panic _ ↦ false
    | out_of_fuel ↦ false
  ]

  abbrev pub matched : ChangeRule → Change → Bool
  matched rule c = target_op c.change.op rule && in_target_group rule c

  matched_at :
      (m : Memory) (rule : ChangeRule) (q p : ℕ) (gs : List ChangeGroup)
      → groups v (m q) ≡ ok gs
      → p ≡ q
      → matched rule (m p) ≡ (target_op (m q).change.op rule && in_groups rule gs)
  matched_at m rule q p gs e h = rw h (rw (e, in_target_group))

  elem-cons_matched :
      (m : Memory) (rule : ChangeRule) (q : ℕ) (qs : List ℕ) (p : ℕ) (gs : List ChangeGroup)
      (found more ms : List ℕ)
      → groups v (m q) ≡ ok gs
      → elem p found ≡ (p == q && (target_op (m q).change.op rule && in_groups rule gs))
      → elem p more ≡ (elem p qs && matched rule (m p))
      → ◌≡◌ {A = Result Error (List ℕ)} (ok (found ++ more)) (ok ms)
      → elem p ms ≡ (elem p (q ∷ qs) && matched rule (m p))
  elem-cons_matched m rule q qs p gs found more ms e f g h =
      ground (arith, matched_at m rule q p gs e, elem-append p found more)

  -- The changes that `MatchesRule` returns are those of the list that the rule is about.
  pub elem-matches_rule :
      (m : Memory) (rule : ChangeRule) (ps : List ℕ) (p : ℕ) (ms : List ℕ)
      → matches_rule v m rule ps ≡ ok ms
      → elem p ms ≡ (elem p ps && matched rule (m p))
  unfolding matches_rule
  elem-matches_rule m rule [] p ms h = ground arith
  elem-matches_rule m rule (q ∷ qs) p ms h =
      let (gs, e1, h1) = >>=-eq-ok (groups v (m q)) _ h in
      let (found, e2, h2) = >>=-eq-ok (match_groups (m q).change.op rule q gs) _ h1 in
      let (more, e3, h3) = >>=-eq-ok (matches_rule v m rule qs) _ h2 in
      elem-cons_matched m rule q qs p gs found more ms e1
        (elem-match_groups (m q).change.op rule q p gs found e2)
        (elem-matches_rule m rule qs p more e3) h3
