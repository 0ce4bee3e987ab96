-- ===== src/ClusterApply/Receiving.antt =====
-- About applying_changes.go, the loop of `Apply` that receives results.
use kapp.Prelude.{
  String, ℕ, ◌≤◌, List, [], ◌∷◌, ◌++◌, ◌≡◌, ◌≢◌, ap, Bool, true, ◌||◌, ◌==◌, elem, elem-append,
  count, arith, inl, inr, Bool-cases, Option-cases, inr-injective, subst,
}
use kapp.DiffGraph.Rounds.{elem-count}
use kapp.ClusterApply.Applying.{
  ApplyResult, mark_applied, Received, receive, receive_applied, receive_retryable, receive_failed,
  apply_failed,
}
use kapp.ClusterApply.Steps.{applied_of}

pub elem-mark_applied :
    (x p : ℕ) (applied : List ℕ)
    → (elem x (mark_applied p applied) ≡ true)
    → (elem x applied || x == p) ≡ true
unfolding mark_applied
elem-mark_applied x p applied h = ground arith

count-mark_applied :
    (x p : ℕ) (applied : List ℕ) → count x applied ≤ 1 → count x (mark_applied p applied) ≤ 1
unfolding mark_applied
count-mark_applied x p applied h = elim (Bool-cases (elem p applied)) [
  | inl old ↦ ground arith
  | inr new ↦ elim (Bool-cases (x == p)) [
    | inl e ↦
        let same : x ≡ p = ground arith in
        ground (arith, elem-count p applied, ap (λ n. count n applied) same)
    | inr n ↦ ground arith
  ]
]

pub snoc_nonempty : {A : Type 0} (xs : List A) (x : A) → (xs ++ x ∷ []) ≢ []
snoc_nonempty [] x h = cc
snoc_nonempty (y ∷ ys) x h = cc

-- How two stages of the loop differ, between which `results` were received.
pub record Receives (results : List ℕ) (r r' : Received) : Type 0 where
  pub from : (x : ℕ) → elem x r'.applied ≡ true → (elem x r.applied || elem x results) ≡ true
  pub distinct : ((x : ℕ) → count x r.applied ≤ 1) → (x : ℕ) → count x r'.applied ≤ 1
  pub well : r'.unsuccessful ≡ [] → r.unsuccessful ≡ []
  pub grown : (x : ℕ) → elem x r.applied_changes ≡ true → elem x r'.applied_changes ≡ true
  pub kept :
      r'.unsuccessful ≡ []
      → (x : ℕ) → elem x r'.applied ≡ true
      → (elem x r.applied || elem x r'.applied_changes) ≡ true

module _ (result : ApplyResult) (r : Received) where
  applied-Receives : Receives (result.change ∷ []) r (receive_applied result r)
  applied-Receives = record {
    from = λ x h. ground (arith, elem-mark_applied x result.change r.applied);
    distinct = λ h x. count-mark_applied x result.change r.applied (h x);
    well = λ h. h;
    grown = λ x h. ground (arith, elem-append x r.applied_changes (result.change ∷ []));
    kept = λ e x h. ground (
      arith,
      elem-mark_applied x result.change r.applied,
      elem-append x r.applied_changes (result.change ∷ []),
    );
  }

  retryable-Receives : (e : String) → Receives (result.change ∷ []) r (receive_retryable e r)
  retryable-Receives e = record {
    from = λ x h. ground arith;
    distinct = λ h x. h x;
    well = λ h. h;
    grown = λ x h. h;
    kept = λ w x h. ground arith;
  }

  failed-Receives : (e : String) → Receives (result.change ∷ []) r (receive_failed result e r)
  failed-Receives e = record {
    from = λ x h. ground (arith, elem-mark_applied x result.change r.applied);
    distinct = λ h x. count-mark_applied x result.change r.applied (h x);
    well = λ h. absurd (snoc_nonempty r.unsuccessful (apply_failed e) h);
    grown = λ x h. h;
    kept = λ w x h. absurd (snoc_nonempty r.unsuccessful (apply_failed e) w);
  }

Receives-then :
    {p : ℕ} {ps : List ℕ} {r r1 r2 : Received}
    → Receives (p ∷ []) r r1
    → Receives ps r1 r2
    → Receives (p ∷ ps) r r2
Receives-then {p = p} {ps = ps} {r = r} {r1 = r1} {r2 = r2} h k = record {
  from = λ x m. ground (arith, k.from x, h.from x);
  distinct = λ d. k.distinct (h.distinct d);
  well = λ w. h.well (k.well w);
  grown = λ x m. k.grown x (h.grown x m);
  kept = λ w x m. ground (arith, k.kept w x m, h.kept (k.well w) x, k.grown x);
}

pub receive-Receives :
    (exit_on_error : Bool) (results : List ApplyResult) (r r' : Received)
    → receive exit_on_error results r ≡ inr r'
    → Receives (applied_of results) r r'
unfolding receive
receive-Receives exit [] r r' h = subst (Receives [] r) (inr-injective h) (record {
  from = λ x m. ground arith;
  distinct = λ d. d;
  well = λ w. w;
  grown = λ x m. m;
  kept = λ w x m. ground arith;
})
receive-Receives exit (result ∷ results) r r' h = elim (Option-cases result.error) [
  | inl none_e ↦
      Receives-then (applied-Receives result r)
        (receive-Receives exit results (receive_applied result r) r' (rw none_e at h))
  | inr (e, some_e) ↦ elim (Bool-cases result.retryable) [
    | inl may ↦
        Receives-then (retryable-Receives result r e)
          (receive-Receives exit results (receive_retryable e r) r' (rw (some_e, may) at h))
    | inr not_retryable ↦ elim (Bool-cases exit) [
      | inl stop ↦ absurd (cc (rw (some_e, not_retryable, stop) at h))
      | inr go_on ↦ Receives-then (failed-Receives result r e) (
          receive-Receives exit results (receive_failed result e r) r'
            (rw (some_e, not_retryable, go_on) at h))
    ]
  ]
]
