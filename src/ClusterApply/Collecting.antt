-- ===== src/ClusterApply/Collecting.antt =====
-- About waiting_changes.go, the loop of `WaitForAny` that receives results.
use kapp.Prelude.{
  String, ℕ, List, [], ◌∷◌, ◌++◌, ◌≡◌, refl, sym, ◌∙◌, subst, Bool, true, false, ◌||◌, none, some,
  elem, elem-append, inr-injective, arith, inl, inr, Bool-cases, Option-cases,
}
use kapp.ClusterApply.Applying.{Unsuccessful, wait_errored, finished_unsuccessfully}
use kapp.ClusterApply.Waiting.{
  WaitResult, wait_error, Collected, collect, collect_in_progress, collect_done,
  collect_unsuccessful,
}
use kapp.ClusterApply.Receiving.{snoc_nonempty}
use kapp.ClusterApply.Steps.{
  Event, attempted, finished, let_go, event_of, wait_events, waited_of, was_finished, was_released,
}

pub was_released-append :
    (x : ℕ) (s t : List Event) → was_released x (s ++ t) ≡ (was_released x s || was_released x t)
was_released-append x [] t = refl
was_released-append x (attempted q ∷ s) t = was_released-append x s t
was_released-append x (finished q ∷ s) t = ground (arith, was_released-append x s t)
was_released-append x (let_go q ∷ s) t = ground (arith, was_released-append x s t)

pub was_finished-append :
    (x : ℕ) (s t : List Event) → was_finished x (s ++ t) ≡ (was_finished x s || was_finished x t)
was_finished-append x [] t = refl
was_finished-append x (attempted q ∷ s) t = was_finished-append x s t
was_finished-append x (finished q ∷ s) t = ground (arith, was_finished-append x s t)
was_finished-append x (let_go q ∷ s) t = was_finished-append x s t

-- What is done and successful is released.
pub finished-released : (x : ℕ) (t : List Event) → was_finished x t ≡ true → was_released x t ≡ true
finished-released x [] h = h
finished-released x (attempted q ∷ t) h = finished-released x t h
finished-released x (finished q ∷ t) h = ground (arith, finished-released x t)
finished-released x (let_go q ∷ t) h = ground (arith, finished-released x t)

-- How two stages of the loop differ, between which results with these changes and events arrived.
pub record Collects (changes : List ℕ) (es : List Event) (w w' : Collected) : Type 0 where
  pub released : (x : ℕ) → elem x w'.done_changes ≡ (elem x w.done_changes || was_released x es)
  pub well : w'.unsuccessful ≡ [] → w.unsuccessful ≡ []
  pub grown : (x : ℕ) → elem x w.in_progress ≡ true → elem x w'.in_progress ≡ true
  pub kept :
      w'.unsuccessful ≡ []
      → (x : ℕ) → elem x changes ≡ true
      → (elem x w'.in_progress || was_finished x es) ≡ true

module _ (result : WaitResult) (w : Collected) where
  in_progress-Collects :
      (es : List Event)
      → es ≡ elim result.state.unblock_changes [ true ↦ let_go result.change ∷ [] | false ↦ [] ]
      → Collects (result.change ∷ []) es w (collect_in_progress result w)
  in_progress-Collects es e = record {
    released = λ x. ground (arith, elem-append x w.done_changes (result.change ∷ []));
    well = λ h. h;
    grown = λ x h. ground (arith, elem-append x w.in_progress (result.change ∷ []));
    kept = λ h x m. ground (arith, elem-append x w.in_progress (result.change ∷ []));
  }

  done-Collects :
      Collects (result.change ∷ []) (finished result.change ∷ []) w (collect_done result w)
  done-Collects = record {
    released = λ x. ground (arith, elem-append x w.done_changes (result.change ∷ []));
    well = λ h. h;
    grown = λ x h. h;
    kept = λ h x m. ground arith;
  }

  unsuccessful-Collects :
      (u : Unsuccessful) → Collects (result.change ∷ []) [] w (collect_unsuccessful u w)
  unsuccessful-Collects u = record {
    released = λ x. ground arith;
    well = λ h. absurd (snoc_nonempty w.unsuccessful u h);
    grown = λ x h. h;
    kept = λ h x m. absurd (snoc_nonempty w.unsuccessful u h);
  }

Collects-then :
    {p : ℕ} {ps : List ℕ} {es fs : List Event} {w w1 w2 : Collected}
    → Collects (p ∷ []) es w w1
    → Collects ps fs w1 w2
    → Collects (p ∷ ps) (es ++ fs) w w2
Collects-then {p = p} {ps = ps} {es = es} {fs = fs} {w = w} {w1 = w1} {w2 = w2} h k = record {
  released = λ x. ground (arith, k.released x, h.released x, was_released-append x es fs);
  well = λ u. h.well (k.well u);
  grown = λ x m. k.grown x (h.grown x m);
  kept = λ u x m.
      ground (arith, k.kept u x, h.kept (k.well u) x, k.grown x, was_finished-append x es fs);
}

module _ (result : WaitResult) where
  pub event_of-errored : {e : String} → wait_error result ≡ some e → event_of result ≡ []
  unfolding event_of
  event_of-errored h = rw (h, event_of) refl

  pub event_of-done :
      wait_error result ≡ none
      → result.state.done ≡ true
      → event_of result
        ≡ elim result.state.successful [ true ↦ finished result.change ∷ [] | false ↦ [] ]
  unfolding event_of
  event_of-done h d = rw (h, d, event_of) refl

  pub event_of-in_progress :
      wait_error result ≡ none
      → result.state.done ≡ false
      → event_of result
        ≡ elim result.state.unblock_changes [ true ↦ let_go result.change ∷ [] | false ↦ [] ]
  unfolding event_of
  event_of-in_progress h d = rw (h, d, event_of) refl

Collects-with :
    (result : WaitResult) (results : List WaitResult) {es : List Event} {w w1 w2 : Collected}
    → event_of result ≡ es
    → Collects (result.change ∷ []) es w w1
    → Collects (waited_of results) (wait_events results) w1 w2
    → Collects (waited_of (result ∷ results)) (wait_events (result ∷ results)) w w2
unfolding wait_events
Collects-with result results {w = w} {w1 = w1} e h k =
    Collects-then (subst (λ es. Collects (result.change ∷ []) es w w1) (sym e) h) k

pub collect-Collects :
    (exit_on_error : Bool) (results : List WaitResult) (w w' : Collected)
    → collect exit_on_error results w ≡ inr w'
    → Collects (waited_of results) (wait_events results) w w'
unfolding collect wait_events
collect-Collects exit [] w w' h = subst (Collects [] [] w) (inr-injective h) (record {
  released = λ x. ground arith;
  well = λ u. u;
  grown = λ x m. m;
  kept = λ u x m. ground arith;
})
collect-Collects exit (result ∷ results) w w' h = elim (Option-cases (wait_error result)) [
  | inr (e, some_e) ↦ elim (Bool-cases exit) [
    | inl stop ↦ absurd (cc (rw (some_e, stop, collect) at h))
    | inr go_on ↦
        Collects-with result results (event_of-errored result some_e)
          (unsuccessful-Collects result w (wait_errored result.change e))
          (collect-Collects exit results _ w' (rw (some_e, go_on, collect) at h))
  ]
  | inl none_e ↦ elim (Bool-cases result.state.done) [
    | inr not_done ↦
        Collects-with result results (event_of-in_progress result none_e not_done)
          (in_progress-Collects result w _ refl)
          (collect-Collects exit results _ w' (rw (none_e, not_done, collect) at h))
    | inl done ↦ elim (Bool-cases result.state.successful) [
      | inl well ↦
          Collects-with result results (event_of-done result none_e done ∙ rw well refl)
            (done-Collects result w)
            (collect-Collects exit results _ w' (rw (none_e, done, well, collect) at h))
      | inr badly ↦ elim (Bool-cases exit) [
        | inl stop ↦ absurd (cc (rw (none_e, done, badly, stop, collect) at h))
        | inr go_on ↦
            Collects-with result results (event_of-done result none_e done ∙ rw badly refl)
              (unsuccessful-Collects result w
                (finished_unsuccessfully result.change result.state.message))
              (collect-Collects exit results _ w' (rw (none_e, done, badly, go_on, collect) at h))
      ]
    ]
  ]
]
