-- ===== src/DiffGraph/RuleText.antt =====
-- About change_rule.go, `NewChangeRuleFromAnnString` and `Validate`.
use Prim.Native.Char.{Char}
use kapp.Prelude.{
  String, List, [], ◌∷◌, ◌≡◌, ◌⊎◌, inl, inr, refl, ap, ◌∙◌, Bool, true, false, not, ◌&&◌, char_eq,
  cons_head, split, sym, subst, if◌then◌else◌, str_eq, str_eq_iff, ok, >>=-eq-ok, ok-injective,
  Bool-cases, arith,
}
use kapp.DiffGraph.Errors.{Vendored}
use kapp.DiffGraph.Group.{ChangeGroup, new_change_group_from_ann_string}
use kapp.DiffGraph.Rule.{
  ChangeRule, action_upsert, action_delete, order_before, order_after, target_action_upserting,
  target_action_deleting, validate, of_pieces, new_change_rule_from_ann_string, space,
}

-- The text of the one before the text of the other.
infixr 5 ◌<+>◌
abbrev pub ◌<+>◌ : String → String → String
String.[] <+> t = t
(String.◌∷◌ c s) <+> t = String.◌∷◌ c (s <+> t)

-- The text has no separator in it.
abbrev pub lacks : Char → String → Bool
lacks sep String.[] = true
lacks sep (String.◌∷◌ c s) = not (char_eq c sep) && lacks sep s

lacks-cons :
    (c : Char) (s : String) (sep : Char)
    → lacks sep (String.◌∷◌ c s) ≡ true
    → (char_eq c sep ≡ false) × (lacks sep s ≡ true)
lacks-cons c s sep h = elim (Bool-cases (char_eq c sep)) [
  | inl e ↦ absurd (cc (rw e at h))
  | inr n ↦ (n, rw n at h)
]

split-word :
    (sep : Char) (word rest : String)
    → lacks sep word ≡ true
    → split sep (word <+> String.◌∷◌ sep rest) ≡ word ∷ split sep rest
unfolding split
split-word sep String.[] rest h =
    let same : char_eq sep sep ≡ true = ground arith in
    subst
      (λ b.
        (if b then "" ∷ split sep rest else cons_head sep (split sep rest)) ≡ "" ∷ split sep rest)
      (sym same) refl
split-word sep (String.◌∷◌ c s) rest h =
    let (differs, later) = lacks-cons c s sep h in
    rw differs (ap (cons_head c) (split-word sep s rest later))

split-last : (sep : Char) (word : String) → lacks sep word ≡ true → split sep word ≡ word ∷ []
unfolding split
split-last sep String.[] h = refl
split-last sep (String.◌∷◌ c s) h =
    let (differs, later) = lacks-cons c s sep h in
    rw differs (ap (cons_head c) (split-last sep s later))

-- The words that `validate` accepts.
abbrev pub OneOf : String → String → String → Type 0
OneOf a b s = (s ≡ a) ⊎ (s ≡ b)

OneOf-lacks :
    (a b s : String)
    → lacks space a ≡ true
    → lacks space b ≡ true
    → OneOf a b s
    → lacks space s ≡ true
OneOf-lacks a b s h k (inl e) = ap (lacks space) e ∙ h
OneOf-lacks a b s h k (inr e) = ap (lacks space) e ∙ k

abbrev pub rule_text : String → String → String → String → String
rule_text action order target_action group =
    action
    <+> String.◌∷◌ space (order <+> String.◌∷◌ space (target_action <+> String.◌∷◌ space group))

abbrev pub plain_rule : String → String → String → ChangeGroup → ChangeRule
plain_rule action order target_action group = record {
  action = action;
  order = order;
  target_action = target_action;
  target_group = group;
  ignore_if_cyclical = false;
  weight = 0;
}

split-rule_text :
    (action order target_action group : String)
    → lacks space action ≡ true
    → lacks space order ≡ true
    → lacks space target_action ≡ true
    → lacks space group ≡ true
    → split space (rule_text action order target_action group)
      ≡ action ∷ order ∷ target_action ∷ group ∷ []
split-rule_text a o t g ha ho ht hg =
    split-word space a _ ha
    ∙ ap (λ r. a ∷ r)
        (split-word space o _ ho
          ∙ ap (λ r. o ∷ r) (split-word space t g ht ∙ ap (λ r. t ∷ r) (split-last space g hg)))

OneOf-test : (x y s : String) → OneOf x y s → (not (str_eq s x) && not (str_eq s y)) ≡ false
OneOf-test x y s (inl e) = rw ((str_eq_iff s x).1 e) refl
OneOf-test x y s (inr e) = elim (Bool-cases (str_eq s x)) [
  | inl h ↦ rw h refl
  | inr h ↦ rw (h, (str_eq_iff s y).1 e) refl
]

validate-words :
    (a o t : String) (g : ChangeGroup)
    → OneOf action_upsert action_delete a
    → OneOf order_before order_after o
    → OneOf target_action_upserting target_action_deleting t
    → validate (plain_rule a o t g) ≡ ok tt
unfolding validate
validate-words a o t g ha ho ht =
    rw
      (
        OneOf-test action_upsert action_delete a ha,
        OneOf-test order_before order_after o ho,
        OneOf-test target_action_upserting target_action_deleting t ht,
      )
      refl

-- A rule of three words that are allowed and a group that is a valid name without spaces, written
-- with single spaces between, is read as the rule with these words and this group.
pub new_change_rule_from_ann_string-rule_text :
    (v : Vendored) (a o t name : String) (g : ChangeGroup)
    → OneOf action_upsert action_delete a
    → OneOf order_before order_after o
    → OneOf target_action_upserting target_action_deleting t
    → lacks space name ≡ true
    → new_change_group_from_ann_string v name ≡ ok g
    → new_change_rule_from_ann_string v (rule_text a o t name) ≡ ok (plain_rule a o t g)
unfolding new_change_rule_from_ann_string of_pieces
new_change_rule_from_ann_string-rule_text v a o t name g ha ho ht plain valid =
    ap (of_pieces v (rule_text a o t name)) (
      split-rule_text a o t name (OneOf-lacks action_upsert action_delete a refl refl ha)
        (OneOf-lacks order_before order_after o refl refl ho)
        (OneOf-lacks target_action_upserting target_action_deleting t refl refl ht) plain)
    ∙ rw (valid, validate-words a o t g ha ho ht) refl

OneOf-sound : (x y s : String) → (not (str_eq s x) && not (str_eq s y)) ≡ false → OneOf x y s
OneOf-sound x y s h = elim (Bool-cases (str_eq s x)) [
  | inl e ↦ inl ((str_eq_iff s x).0 e)
  | inr n ↦ inr ((str_eq_iff s y).0 (ground arith))
]

-- The three words of a rule are allowed.
pub record IsAllowed (r : ChangeRule) : Type 0 where
  pub action : OneOf action_upsert action_delete r.action
  pub order : OneOf order_before order_after r.order
  pub target_action : OneOf target_action_upserting target_action_deleting r.target_action

validate-IsAllowed : (r : ChangeRule) → validate r ≡ ok tt → IsAllowed r
unfolding validate
validate-IsAllowed r h =
    elim (Bool-cases (not (str_eq r.action action_upsert) && not (str_eq r.action action_delete))) [
      | inl bad ↦ absurd (cc (rw (bad, validate) at h))
      | inr a ↦
          elim (Bool-cases
            (not (str_eq r.order order_before) && not (str_eq r.order order_after))) [
              | inl bad ↦ absurd (cc (rw (a, bad, validate) at h))
              | inr o ↦
                  elim (Bool-cases (
                    not (str_eq r.target_action target_action_upserting)
                    && not (str_eq r.target_action target_action_deleting))) [
                      | inl bad ↦ absurd (cc (rw (a, o, bad, validate) at h))
                      | inr t ↦ record {
                        action = OneOf-sound action_upsert action_delete r.action a;
                        order = OneOf-sound order_before order_after r.order o;
                        target_action =
                            OneOf-sound target_action_upserting target_action_deleting
                              r.target_action t;
                      }
                    ]
            ]
    ]

-- A rule that is read without error has an action, an order and a target action that are allowed.
pub new_change_rule_from_ann_string-IsAllowed :
    (v : Vendored) (ann : String) (r : ChangeRule)
    → new_change_rule_from_ann_string v ann ≡ ok r
    → IsAllowed r
unfolding new_change_rule_from_ann_string of_pieces
new_change_rule_from_ann_string-IsAllowed v ann r h = go (split space ann) h
  where
    go : (pieces : List String) → of_pieces v ann pieces ≡ ok r → IsAllowed r
    go [] h = cc
    go (a ∷ []) h = cc
    go (a ∷ o ∷ []) h = cc
    go (a ∷ o ∷ t ∷ []) h = cc
    go (a ∷ o ∷ t ∷ name ∷ x ∷ xs) h = cc
    go (a ∷ o ∷ t ∷ name ∷ []) h =
        let (g, e1, h1) = >>=-eq-ok (new_change_group_from_ann_string v name) _ h in
        let (_, e2, h2) = >>=-eq-ok (validate (plain_rule a o t g)) _ h1 in
        subst IsAllowed (ok-injective h2) (validate-IsAllowed (plain_rule a o t g) e2)
