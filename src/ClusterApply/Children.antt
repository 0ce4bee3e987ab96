-- ===== src/ClusterApply/Children.antt =====
-- About converged_resource.go: what the states of the associated resources say together.
use kapp.Prelude.{
  some-injective, true, false, List, [], ◌∷◌, none, some, ◌≡◌, refl, Bool-cases, Option-cases, inl,
  inr, arith, ◌↔◌, ◌⊎◌, All, ap, subst, sym,
}
use kapp.Resources.Resource.{Resource}
use kapp.Waiters.State.{DoneApplyState, terminally_failed, succeeded, IsSuccess}
use kapp.ClusterApply.Converged.{of_children, first_failed, first_not_done}

abbrev pub IsFailure : DoneApplyState → Type 0
IsFailure s = terminally_failed s ≡ true

abbrev pub Children : Type 0
Children = List (Resource × DoneApplyState)

abbrev pub Some : (DoneApplyState → Type 0) → Children → Type 0
Some P [] = ⊥
Some P ((res, s) ∷ cs) = P s ⊎ Some P cs

Some-All :
    (P Q : DoneApplyState → Type 0) (cs : Children)
    → ((s : DoneApplyState) → P s → Q s → ⊥)
    → Some P cs
    → All (λ c. Q c.1) cs
    → ⊥
Some-All P Q [] clash x all = elim x [ ]
Some-All P Q ((res, s) ∷ cs) clash (inl p) (q, qs) = clash s p q
Some-All P Q ((res, s) ∷ cs) clash (inr p) (q, qs) = Some-All P Q cs clash p qs

IsSettled : DoneApplyState → Type 0
IsSettled s = terminally_failed s ≡ false

first_failed-none : (cs : Children) → first_failed cs ≡ none → All (λ c. IsSettled c.1) cs
unfolding first_failed IsSettled
first_failed-none [] h = tt
first_failed-none ((res, s) ∷ cs) h = elim (Bool-cases (terminally_failed s)) [
  | inl t ↦ cc (rw t at h)
  | inr t ↦ (t, first_failed-none cs (rw t at h))
]

first_failed-some :
    (cs : Children) (f : DoneApplyState)
    → first_failed cs ≡ some f
    → IsFailure f × Some IsFailure cs
unfolding first_failed
first_failed-some [] f h = cc
first_failed-some ((res, s) ∷ cs) f h = elim (Bool-cases (terminally_failed s)) [
  | inl t ↦ (subst IsFailure (some-injective (rw t at h)) t, inl t)
  | inr t ↦ let (p, q) = first_failed-some cs f (rw t at h) in (p, inr q)
]

first_not_done-none : (cs : Children) → first_not_done cs ≡ none → All (λ c. c.1.done ≡ true) cs
unfolding first_not_done
first_not_done-none [] h = tt
first_not_done-none ((res, s) ∷ cs) h = elim (Bool-cases s.done) [
  | inl t ↦ (t, first_not_done-none cs (rw t at h))
  | inr t ↦ cc (rw t at h)
]

first_not_done-some :
    (cs : Children) (f : DoneApplyState)
    → first_not_done cs ≡ some f
    → (f.done ≡ false) × Some (λ s. s.done ≡ false) cs
unfolding first_not_done
first_not_done-some [] f h = cc
first_not_done-some ((res, s) ∷ cs) f h = elim (Bool-cases s.done) [
  | inl t ↦ let (p, q) = first_not_done-some cs f (rw t at h) in (p, inr q)
  | inr t ↦ (ap (λ s. s.done) (sym (some-injective (rw t at h))), inl t)
]

-- A state that is done and has not failed for good is a success.
All-IsSuccess :
    (cs : Children)
    → All (λ c. IsSettled c.1) cs
    → All (λ c. c.1.done ≡ true) cs
    → All (λ c. IsSuccess c.1) cs
unfolding IsSettled terminally_failed
All-IsSuccess [] p q = tt
All-IsSuccess ((res, s) ∷ cs) (p, ps) (q, qs) = (ground arith, All-IsSuccess cs ps qs)

not_both : (s : DoneApplyState) → IsFailure s → IsSuccess s → ⊥
unfolding terminally_failed
not_both s f g = ground arith

not_settled : (s : DoneApplyState) → IsFailure s → IsSettled s → ⊥
unfolding IsSettled
not_settled s f g = cc

not_done : (s : DoneApplyState) → s.done ≡ false → IsSuccess s → ⊥
not_done s f g = ground arith

no_failure : (s : DoneApplyState) → s.done ≡ false → IsFailure s → ⊥
unfolding terminally_failed
no_failure s f g = ground arith

-- The state that the associated resources give together is a success exactly when each of them is a
-- success, and a failure exactly when one of them has failed for good.
pub of_children_decides :
    (cs : Children)
    → (IsSuccess (of_children cs) ↔ All (λ c. IsSuccess c.1) cs)
      × (IsFailure (of_children cs) ↔ Some IsFailure cs)
unfolding of_children
of_children_decides cs = elim (Option-cases (first_failed cs)) [
  | inr (s, e) ↦
      let (f, fs) = first_failed-some cs s e in
      rw (e, of_children)
        (
          (λ g. absurd (not_both s f g), λ all. absurd (Some-All _ _ cs not_both fs all)),
          (λ _. fs, λ _. f),
        )
  | inl e ↦ elim (Option-cases (first_not_done cs)) [
    | inr (s, d) ↦
        let (n, ns) = first_not_done-some cs s d in
        rw (e, d, of_children)
          (
            (λ g. absurd (not_done s n g), λ all. absurd (Some-All _ _ cs not_done ns all)),
            (
              λ f. absurd (no_failure s n f),
              λ fs. absurd (Some-All _ _ cs not_settled fs (first_failed-none cs e)),
            ),
          )
    | inl d ↦
        rw (e, d, of_children)
          (
            (λ _. All-IsSuccess cs (first_failed-none cs e) (first_not_done-none cs d), λ _. refl),
            (
              λ f. absurd (not_both (succeeded "") f refl),
              λ fs. absurd (Some-All _ _ cs not_settled fs (first_failed-none cs e)),
            ),
          )
  ]
]
