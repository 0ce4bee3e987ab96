-- ===== src/ClusterApply/Deleted.antt =====
-- About converged_resource.go and converged_resource_factory.go, on resources that are being deleted.
use kapp.Prelude.{
  if-false, Bool, true, List, ◌∷◌, Option, none, some, inl, inr, ◌≡◌, refl, Bool-cases, Result, ok,
  err, panic, out_of_fuel, ok-injective, ap, sym, String, ◌⊎◌, >>=-eq-ok, ◌&&◌, Option-cases, subst,
  lookup, false, is_empty, ◌∙◌,
}
use kapp.Resources.Resource.{Resource}
use kapp.Waiters.State.{IsUnsuccessful, DoneApplyState}
use kapp.Waiters.Custom.{CustomEnv, WaitRule, Timeouts, rule_for}
use kapp.Waiters.Unsuccessful.{
  deleting-IsUnsuccessful, custom_done-IsUnsuccessful, reconciled_done-IsUnsuccessful,
}
use kapp.ClusterApply.Converged.{
  ResourceRef, SpecificResFactory, resource_state, is_done_applying, ConvergedResource, with_parent,
  with_associated, wait_for_children, after_parent, parent_or, Reply, child_states, associated_rs,
  disable_arw_ann_key,
}
use kapp.ClusterApply.Factories.{
  simple, custom_factory, of_deleting, deleting_factory, WaitingEnv, new_converged_resource,
  ConvergedResourceFactory, specific_res_factories, reconciled_factories,
}

module _ {E : Type 0} where
  -- Whatever state of the resource itself the factories give, there is one and it is no success.
  GivesUnsuccessful : List (SpecificResFactory E) → Resource → List Resource → Timeouts → Type 0
  GivesUnsuccessful fs res rs timers =
      (end : Option DoneApplyState × Timeouts)
      → resource_state fs res rs timers ≡ ok end
      → (s : DoneApplyState) × (end.0 ≡ some s) × IsUnsuccessful s

  -- The state in a result that is known.
  state_in :
      {s : DoneApplyState} {timers : Timeouts} {end : Option DoneApplyState × Timeouts}
      → ◌≡◌ {A = Result E (Option DoneApplyState × Timeouts)} (ok (some s, timers)) (ok end)
      → end.0 ≡ some s
  state_in h = ap (λ r. r.0) (sym (ok-injective h))

  simple-GivesUnsuccessful :
      (refs : List ResourceRef) (test : Resource → Bool)
      (waiter : Resource → List Resource → DoneApplyState) (fs : List (SpecificResFactory E))
      (res : Resource) (rs : List Resource) (timers : Timeouts)
      → IsUnsuccessful (waiter res rs)
      → GivesUnsuccessful fs res rs timers
      → GivesUnsuccessful (simple refs test waiter ∷ fs) res rs timers
  unfolding resource_state simple GivesUnsuccessful
  simple-GivesUnsuccessful refs test waiter fs res rs timers u k end h =
      elim (Bool-cases (test res)) [
        | inl t ↦ (waiter res rs, state_in (rw t at h), u)
        | inr t ↦ k end (rw t at h)
      ]

  deleting_factory-GivesUnsuccessful :
      (fs : List (SpecificResFactory E)) (res : Resource) (rs : List Resource) (timers : Timeouts)
      → res.is_deleting ≡ true
      → GivesUnsuccessful (deleting_factory ∷ fs) res rs timers
  unfolding resource_state deleting_factory of_deleting GivesUnsuccessful
  deleting_factory-GivesUnsuccessful fs res rs timers h end r =
      let (d, e, u) = deleting-IsUnsuccessful res h in (d, state_in (rw e at r), u)

  custom_factory-GivesUnsuccessful :
      (env : CustomEnv) (rules : List WaitRule) (fs : List (SpecificResFactory E)) (res : Resource)
      (rs : List Resource) (timers : Timeouts)
      → res.is_deleting ≡ true
      → GivesUnsuccessful fs res rs timers
      → GivesUnsuccessful (custom_factory env rules ∷ fs) res rs timers
  unfolding resource_state custom_factory GivesUnsuccessful
  custom_factory-GivesUnsuccessful env rules fs res rs timers h k end r =
      by_rule (rule_for res rules) refl
    where
      by_rule :
          (found : Result E (Option WaitRule))
          → rule_for res rules ≡ found
          → (s : DoneApplyState) × (end.0 ≡ some s) × IsUnsuccessful s
      by_rule (ok none) e = k end (rw e at r)
      by_rule (ok (some rule)) e =
          let (s, c, u) = custom_done-IsUnsuccessful {E = E} env res rule timers h in
          (s, state_in (rw (e, c) at r), u)
      by_rule (err x) e = cc (rw e at r)
      by_rule (panic m) e = cc (rw e at r)
      by_rule out_of_fuel e = cc (rw e at r)

module _ (E : Type 0) (env : WaitingEnv) (f : ConvergedResourceFactory) where
  specific_res_factories-GivesUnsuccessful :
      (res : Resource) (rs : List Resource) (timers : Timeouts)
      → res.is_deleting ≡ true
      → GivesUnsuccessful {E = E} (specific_res_factories env f) res rs timers
  unfolding specific_res_factories reconciled_factories
  specific_res_factories-GivesUnsuccessful res rs timers h =
      custom_factory-GivesUnsuccessful env.custom f.wait_rules _ res rs timers h (
        simple-GivesUnsuccessful _ _ _ _ res rs timers
          (reconciled_done-IsUnsuccessful res (env.typed.app res) h)
          (simple-GivesUnsuccessful _ _ _ _ res rs timers
            (reconciled_done-IsUnsuccessful res (env.typed.package_install res) h)
            (simple-GivesUnsuccessful _ _ _ _ res rs timers
              (reconciled_done-IsUnsuccessful res (env.typed.package_repository res) h)
              (deleting_factory-GivesUnsuccessful _ res rs timers h))))

module _ {E : Type 0} (faint : String → String) (c : ConvergedResource E) where
  wait_for_children-state :
      (rs : List Resource) (msgs : List String) (s : DoneApplyState) (timers : Timeouts)
      (end : Reply × Timeouts)
      → wait_for_children faint c rs msgs (some s) timers ≡ ok end
      → end.0.state ≡ s
  unfolding wait_for_children parent_or
  wait_for_children-state rs msgs s timers end h =
      let (states, e, k) = >>=-eq-ok (child_states c.factories rs rs timers) _ h in
      ap (λ (r : Reply × Timeouts). r.0.state) (sym (ok-injective k))

  after_parent-IsUnsuccessful :
      (rs : List Resource) (msgs : List String) (s : DoneApplyState) (timers : Timeouts)
      (end : Reply × Timeouts)
      → after_parent faint c rs msgs (some s) timers ≡ ok end
      → IsUnsuccessful s
      → IsUnsuccessful end.0.state
  unfolding after_parent parent_or
  after_parent-IsUnsuccessful rs msgs s timers end h u =
      elim (Option-cases (lookup disable_arw_ann_key c.res.annotations)) [
        | inl n ↦ rw (wait_for_children-state rs msgs s timers end (rw (n, after_parent) at h)) u
        | inr (value, n) ↦ elim (Bool-cases (is_empty value)) [
          | inl e ↦
              subst (λ r. IsUnsuccessful r.0.state) (ok-injective (rw (n, e, after_parent) at h)) u
          | inr e ↦
              subst (λ r. IsUnsuccessful r.0.state) (ok-injective (rw (n, e, after_parent) at h))
                refl
        ]
      ]

  with_parent-IsUnsuccessful :
      (rs : List Resource) (s : DoneApplyState) (timers : Timeouts) (end : Reply × Timeouts)
      → with_parent faint c rs (some s) timers ≡ ok end
      → IsUnsuccessful s
      → IsUnsuccessful end.0.state
  unfolding with_parent
  with_parent-IsUnsuccessful rs s timers end h u = elim (Bool-cases s.done) [
    | inl d ↦ subst (λ r. IsUnsuccessful r.0.state) (ok-injective (rw d at h)) (rw d at u)
    | inr d ↦ after_parent-IsUnsuccessful rs _ s timers end (sym (if-false s.done _ _ d) ∙ h) u
  ]

-- A resource that is being deleted is never reported as done and successful: whatever its kind, the
-- waiting rules, its associated resources and the answers of the cluster, the state that IsDoneApplying
-- returns for the converged resource that the factory makes of it is no success.
pub is_done_applying-deleting :
    {E : Type 0} (env : WaitingEnv) (f : ConvergedResourceFactory) (faint : String → String)
    (res : Resource) (func : Option (Resource → List ResourceRef → String ⊎ List Resource))
    (timers : Timeouts) (end : Reply × Timeouts)
    → res.is_deleting ≡ true
    → is_done_applying {E = E} faint (new_converged_resource env f res func) timers ≡ ok end
    → (end.0.state.done && end.0.state.successful) ≡ false
unfolding is_done_applying new_converged_resource with_associated GivesUnsuccessful
is_done_applying-deleting {E = E} env f faint res func timers end h r =
    let (found, e, k) = >>=-eq-ok (associated_rs (new_converged_resource env f res func)) _ r in
    by_found found k
  where
    by_found :
        (found : String ⊎ List Resource)
        → with_associated {E = E} faint (new_converged_resource env f res func) found timers
          ≡ ok end
        → IsUnsuccessful end.0.state
    by_found (inl x) k = subst (λ r. IsUnsuccessful r.0.state) (ok-injective k) refl
    by_found (inr rs) k =
        let (first, e, k') =
          >>=-eq-ok (resource_state (specific_res_factories env f) res rs timers) _ k in
        let (s, p, u) = specific_res_factories-GivesUnsuccessful E env f res rs timers h first e in
        with_parent-IsUnsuccessful faint (new_converged_resource env f res func) rs s first.1 end
          (rw p at k') u
