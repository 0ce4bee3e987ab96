-- ===== src/ClusterApply/Needs.antt =====
-- About cluster_change_set.go, `markChangesToWait`: its loop, and the test after it.
use kapp.Prelude.{
  ℕ, List, [], ◌∷◌, ◌≡◌, refl, sym, ap, ◌∙◌, subst, Bool, true, false, not, ◌==◌, elem, elem-cons,
  arith, inl, inr, ok, ◌>>=◌, ok-injective, Bool-cases, ◌⊎◌,
}
use kapp.DiffGraph.Errors.{Error}
use kapp.DiffGraph.Paths.{WaitsFor, direct, through}
use kapp.ClusterApply.Ops.{wait_op, mark_needs_waiting}
use kapp.ClusterApply.Calculate.{Clusters, put_cluster, is_wait_noop, Marking, mark_each}
use kapp.ClusterApply.WaitOps.{IsKnown, IsWaited, wait_op-known, IsWaited-marked}

module _ (waiting : ℕ → List ℕ) (clusters : Clusters) where
  -- The change is waited for, or one that it waits for through others.
  abbrev pub Needs : ℕ → Type 0
  Needs p = (q : ℕ) × ((q ≡ p) ⊎ WaitsFor waiting p q) × IsWaited (clusters q)

  -- Only changes that need waiting are marked.
  abbrev pub IsMarking : Clusters → Type 0
  IsMarking after =
      (q : ℕ) → (after q ≡ clusters q) ⊎ ((after q ≡ mark_needs_waiting (clusters q)) × Needs q)

  -- What a call returns for a property of what it looked at.
  pub record Found (IsFound : Type 0) (m : Marking) : Type 0 where
    pub needs : Bool
    pub after : Clusters
    pub returns : m ≡ ok (needs, after)
    pub marking : IsMarking after
    pub found : needs ≡ true → IsFound
    pub missed : needs ≡ false → ¬ IsFound

  abbrev pub Any : List ℕ → Type 0
  Any ps = (p : ℕ) × (elem p ps ≡ true) × Needs p

  pub mark_each-Found :
      (mark : ℕ → Clusters → Marking) (ps : List ℕ) (c : Clusters)
      → IsMarking c
      → ((p : ℕ) (c : Clusters) → elem p ps ≡ true → IsMarking c → Found (Needs p) (mark p c))
      → Found (Any ps) (mark_each waiting mark ps c)
  unfolding mark_each
  mark_each-Found mark [] c m h = record {
    needs = false;
    after = c;
    returns = refl;
    marking = m;
    found = λ e. cc;
    missed = λ e (p, k, n). cc;
  }
  mark_each-Found mark (p ∷ ps) c m h =
      let first = h p c (ground arith) m in
      elim (Bool-cases first.needs) [
        | inl yes_needs ↦ record {
          needs = true;
          after = first.after;
          returns = rw (first.returns, yes_needs) refl;
          marking = first.marking;
          found = λ e. (p, ground arith, first.found yes_needs);
          missed = λ e. cc;
        }
        | inr no_needs ↦
            let rest =
              mark_each-Found mark ps first.after first.marking (λ q d k. h q d (ground arith)) in
            record {
              needs = rest.needs;
              after = rest.after;
              returns = rw (first.returns, no_needs) rest.returns;
              marking = rest.marking;
              found = λ e. let (q, k, n) = rest.found e in (q, ground arith, n);
              missed = λ e (q, k, n). elim (elem-cons q p ps k) [
                | inl same ↦ first.missed no_needs (subst Needs same n)
                | inr later ↦ rest.missed e (q, later, n)
              ];
            }
      ]

  -- What a change waits for needs waiting, so it does.
  pub Needs-up : (p : ℕ) → Any (waiting p) → Needs p
  Needs-up p (b, k, (q, inl e, waited)) =
      (q, inr (direct (subst (λ x. elem x (waiting p) ≡ true) (sym e) k)), waited)
  Needs-up p (b, k, (q, inr path, waited)) = (q, inr (through k path), waited)

  Needs-down : (p q : ℕ) → WaitsFor waiting p q → IsWaited (clusters q) → Any (waiting p)
  Needs-down p q (direct k) waited = (q, k, (q, inl refl, waited))
  Needs-down p q (through {b = b} k path) waited = (b, k, (q, inr path, waited))

  marked-twice :
      (p : ℕ) (after : Clusters)
      → IsMarking after
      → mark_needs_waiting (after p) ≡ mark_needs_waiting (clusters p)
  unfolding mark_needs_waiting
  marked-twice p after m = elim (m p) [
    | inl e ↦ ap mark_needs_waiting e
    | inr (e, n) ↦ ap mark_needs_waiting e
  ]

  pub put-IsMarking :
      (p : ℕ) (after : Clusters)
      → IsMarking after
      → Needs p
      → IsMarking (put_cluster p (mark_needs_waiting (after p)) after)
  put-IsMarking p after m n q = elim (Bool-cases (q == p)) [
    | inl e ↦
        let same : q ≡ p = ground arith in
        inr (
          rw e (marked-twice p after m ∙ ap (λ x. mark_needs_waiting (clusters x)) (sym same)),
          subst Needs (sym same) n,
        )
    | inr other ↦ rw other (m q)
  ]

  module _ (known : (q : ℕ) → IsKnown (clusters q).change.op) where
    -- The end of a call that found nothing among what the change waits for.
    pub own-Found :
        (p : ℕ) (after : Clusters)
        → IsMarking after
        → ¬ Any (waiting p)
        → Found (Needs p) (wait_op (after p) >>= λ op. ok (not (is_wait_noop op), after))
    own-Found p after m none_below = elim (m p) [
      | inl e ↦
          let (w, ew) = wait_op-known (clusters p) (known p) in
          record {
            needs = not (is_wait_noop w);
            after = after;
            returns = rw (e, ew) refl;
            marking = m;
            found = λ busy. (p, inl refl, (w, ew, ground arith));
            missed = λ idle (q, rel, (w', ew', busy)). elim rel [
              | inr path ↦ none_below (Needs-down p q path (w', ew', busy))
              | inl same ↦
                  let of_p : wait_op {E = Error} (clusters p) ≡ ok w' =
                    subst (λ x. wait_op {E = Error} (clusters x) ≡ ok w') same ew' in
                  let equal : w ≡ w' = ok-injective (sym ew ∙ of_p) in
                  ground (arith, ap is_wait_noop equal)
            ];
          }
      | inr (e, (q, rel, waited)) ↦ elim rel [
        | inr path ↦ absurd (none_below (Needs-down p q path waited))
        | inl same ↦
            let (w, ew, busy) =
              IsWaited-marked (clusters p) (subst (λ x. IsWaited (clusters x)) same waited) in
            record {
              needs = true;
              after = after;
              returns = rw (e, ew, busy) refl;
              marking = m;
              found = λ _. (q, inl same, waited);
              missed = λ idle. cc;
            }
      ]
    ]
