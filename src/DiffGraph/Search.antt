-- ===== src/DiffGraph/Search.antt =====
-- About change.go, `IsTransitivelyWaitingFor`.
use kapp.Prelude.{
  ℕ, zero, suc, ◌<◌, List, [], ◌∷◌, ◌≡◌, refl, ◌⊎◌, inl, inr, Bool, true, false, not, ◌==◌, elem,
  elem-select, length, Result, ok, err, panic, out_of_fuel, ◌>>=◌, Holds, Holds->>=, Holds-map,
  Bool-cases, arith,
}
use kapp.DiffGraph.Errors.{Error}
use kapp.DiffGraph.Graph.{
  Seen, nothing_seen, remove, search_each, search_from, is_transitively_waiting_for,
  is_directly_waiting_for,
}
use kapp.DiffGraph.Paths.{WaitsFor, direct, through, IsClosed}
use kapp.DiffGraph.PathLaws.{missing, missing-cons, missing_mono, missing-le-length}

module _ (waiting : ℕ → List ℕ) (target : ℕ) where
  -- `x` does not wait for the target, and all that it waits for has been checked.
  record IsClean (after : Seen) (x : ℕ) : Type 0 where
    misses : elem target (waiting x) ≡ false
    covered : (m : ℕ) → elem m (waiting x) ≡ true → elem m after.already_checked ≡ true

  -- What a search that found nothing leaves.
  record IsSwept (seen after : Seen) : Type 0 where
    grown : (x : ℕ) → elem x seen.already_checked ≡ true → elem x after.already_checked ≡ true
    within : (x : ℕ) → elem x after.already_visited ≡ true → elem x after.already_checked ≡ true
    clean :
        (x : ℕ)
        → elem x after.already_checked ≡ true
        → elem x seen.already_checked ≡ false
        → IsClean after x

  abbrev FromPost : ℕ → Seen → Bool × Seen → Type 0
  FromPost c seen (true, after) = WaitsFor waiting c target
  FromPost c seen (false, after) = IsClean after c × IsSwept seen after

  abbrev EachPost : ℕ → List ℕ → Seen → Bool × Seen → Type 0
  EachPost c ps seen (true, after) = WaitsFor waiting c target
  EachPost c ps seen (false, after) =
      ((m : ℕ) → elem m ps ≡ true → elem m after.already_checked ≡ true) × IsSwept seen after

  IsClean-grown :
      (x : ℕ) (after last : Seen) → IsSwept after last → IsClean after x → IsClean last x
  IsClean-grown x after last s c = record {
    misses = c.misses;
    covered = λ m h. s.grown m (c.covered m h);
  }

  abbrev enter : ℕ → Seen → Seen
  enter p seen = record {
    already_checked = p ∷ seen.already_checked;
    already_visited = p ∷ seen.already_visited;
  }

  abbrev leave : ℕ → Seen → Seen
  leave p after = record after { already_visited = remove p after.already_visited }

  EachPost-after :
      (c p : ℕ) (ps : List ℕ) (seen after : Seen) (b : Bool) (last : Seen)
      → IsClean after p
      → IsSwept (enter p seen) after
      → EachPost c ps (leave p after) (b, last)
      → EachPost c (p ∷ ps) seen (b, last)
  EachPost-after c p ps seen after true last cl s e = e
  EachPost-after c p ps seen after false last cl s (covers, t) = (
    λ m h. ground (arith, covers m, t.grown m, s.grown m),
    record {
      grown = λ x h. t.grown x (s.grown x (ground arith));
      within = t.within;
      clean = λ x h n. elim (Bool-cases (elem x after.already_checked)) [
        | inl old ↦ elim (Bool-cases (x == p)) [
          | inl is_p ↦
              let e : x ≡ p = ground arith in rw e (IsClean-grown p (leave p after) last t cl')
          | inr not_p ↦
              IsClean-grown x (leave p after) last t (stay x (s.clean x old (ground arith)))
        ]
        | inr new ↦ t.clean x h new
      ];
    },
  )
    where
      stay : (x : ℕ) → IsClean after x → IsClean (leave p after) x
      stay x k = record { misses = k.misses; covered = k.covered }

      cl' : IsClean (leave p after) p
      cl' = stay p cl

  module _ (changes : List ℕ) (closed : IsClosed waiting changes) where
    record Ready (fuel : ℕ) (seen : Seen) : Type 0 where
      within : (x : ℕ) → elem x seen.already_visited ≡ true → elem x seen.already_checked ≡ true
      room : missing changes seen.already_checked < fuel

    abbrev Call : ℕ → (ℕ → Seen → Result Error (Bool × Seen)) → Type 0
    Call fuel step =
        (p : ℕ) (seen : Seen)
        → elem p changes ≡ true
        → Ready fuel seen
        → Holds (FromPost p seen) (λ _. ⊥) (step p seen)

    Ready-leave :
        (fuel p : ℕ) (seen after : Seen)
        → Ready fuel seen
        → IsSwept (enter p seen) after
        → Ready fuel (leave p after)
    Ready-leave fuel p seen after r s = record {
      within = λ x h. s.within x ((elem-select x (λ q. not (q == p)) after.already_visited).0 h).0;
      room = omega (
        arith,
        r.room,
        missing_mono changes seen.already_checked after.already_checked
            (λ x h. s.grown x (ground arith)),
      );
    }

    Ready-enter :
        (fuel p : ℕ) (seen : Seen)
        → elem p changes ≡ true
        → elem p seen.already_checked ≡ false
        → Ready (suc fuel) seen
        → Ready fuel (enter p seen)
    Ready-enter fuel p seen known new r = record {
      within = λ x h. ground (arith, r.within x);
      room = omega (arith, r.room, missing-cons changes p seen.already_checked known new);
    }

    search_each_lem :
        (step : ℕ → Seen → Result Error (Bool × Seen)) (fuel c : ℕ)
        → Call fuel step
        → elem c changes ≡ true
        → (ps : List ℕ) (seen : Seen) → ((m : ℕ) → elem m ps ≡ true → elem m (waiting c) ≡ true)
        → Ready (suc fuel) seen
        → Holds (EachPost c ps seen) (λ _. ⊥) (search_each waiting target step ps seen)
    unfolding search_each
    search_each_lem step fuel c call known [] seen sub r =
        (λ m h. cc, record { grown = λ x h. h; within = r.within; clean = λ x h n. cc })
    search_each_lem step fuel c call known (p ∷ ps) seen sub r =
        elim (Bool-cases (elem p seen.already_checked)) [
          | inl old ↦
              rw (old, search_each)
                (Holds-map (EachPost c ps seen) (EachPost c (p ∷ ps) seen) (λ _. ⊥)
                  (search_each waiting target step ps seen)
                  (search_each_lem step fuel c call known ps seen (λ m h. sub m (ground arith)) r)
                  (λ (b, after). skip b after old))
          | inr new ↦ elim (Bool-cases (elem p seen.already_visited)) [
            | inl odd ↦ cc (r.within p odd)
            | inr fresh ↦
                rw (new, fresh, search_each)
                  (Holds->>= (FromPost p (enter p seen)) (EachPost c (p ∷ ps) seen) (λ _. ⊥)
                    (step p (enter p seen)) _
                    (call p (enter p seen) p_known (Ready-enter fuel p seen p_known new r))
                    (λ (b, after). go (search_each_lem step fuel c call known ps) b after))
          ]
        ]
      where
        p_waited : elem p (waiting c) ≡ true
        p_waited = sub p (ground arith)

        p_known : elem p changes ≡ true
        p_known = closed c p known p_waited

        skip :
            (b : Bool) (after : Seen)
            → elem p seen.already_checked ≡ true
            → EachPost c ps seen (b, after)
            → EachPost c (p ∷ ps) seen (b, after)
        skip true after old e = e
        skip false after old (covers, s) = (λ m h. ground (arith, covers m, s.grown m), s)

        go :
            ((next : Seen)
              → ((m : ℕ) → elem m ps ≡ true → elem m (waiting c) ≡ true)
              → Ready (suc fuel) next
              → Holds (EachPost c ps next) (λ _. ⊥) (search_each waiting target step ps next))
            → (b : Bool) (after : Seen) → FromPost p (enter p seen) (b, after)
            → Holds
                (EachPost c (p ∷ ps) seen)
                (λ _. ⊥)
                (elim b [
                  | true ↦ ok (true, after)
                  | false ↦ search_each waiting target step ps (leave p after)
                ])
        go rest true after path = through p_waited path
        go rest false after (cl, s) =
            Holds-map (EachPost c ps (leave p after)) (EachPost c (p ∷ ps) seen) (λ _. ⊥)
              (search_each waiting target step ps (leave p after))
              (rest (leave p after) (λ m h. sub m (ground arith))
                (Ready-leave (suc fuel) p seen after r s))
              (λ (b, last) e. EachPost-after c p ps seen after b last cl s e)

    search_from_lem : (fuel : ℕ) → Call fuel (search_from waiting target fuel)
    unfolding search_from
    search_from_lem zero c seen known r = absurd (omega (arith, r.room))
    search_from_lem (suc fuel) c seen known r =
        elim (Bool-cases (is_directly_waiting_for waiting c target)) [
          | inl now ↦ rw now (direct now)
          | inr later ↦ rw later (
              Holds-map (EachPost c (waiting c) seen) (FromPost c seen) (λ _. ⊥)
                (search_each waiting target (search_from waiting target fuel) (waiting c) seen)
                (search_each_lem (search_from waiting target fuel) fuel c (search_from_lem fuel)
                  known (waiting c) seen (λ m h. h) r)
                (λ (b, after). found later b after))
        ]
      where
        found :
            elem target (waiting c) ≡ false
            → (b : Bool) (after : Seen) → EachPost c (waiting c) seen (b, after)
            → FromPost c seen (b, after)
        found later true after path = path
        found later false after (covers, s) = (record { misses = later; covered = covers }, s)

  -- What is checked is closed under waiting when the search started with nothing checked.
  no_path :
      (after : Seen) (c : ℕ)
      → IsSwept nothing_seen after
      → IsClean after c
      → ¬ WaitsFor waiting c target
  no_path after c s cl (direct h) = cc (cl.misses)
  no_path after c s cl (through {b = b} h p) = no_path after b s (s.clean b (cl.covered b h) refl) p

-- On a graph whose changes wait only for changes of the graph, the search returns: `true` when the
-- change waits for the other through some path, and `false` only when there is none.
pub is_transitively_waiting_for_decides :
    (waiting : ℕ → List ℕ) (changes : List ℕ) (c change_to_find : ℕ)
    → IsClosed waiting changes
    → elem c changes ≡ true
    → (is_transitively_waiting_for waiting (suc (length changes)) c change_to_find ≡ ok true)
        × WaitsFor waiting c change_to_find
      ⊎ (is_transitively_waiting_for waiting (suc (length changes)) c change_to_find ≡ ok false)
        × ¬ WaitsFor waiting c change_to_find
unfolding is_transitively_waiting_for
is_transitively_waiting_for_decides waiting changes c target closed known =
    go (search_from waiting target (suc (length changes)) c nothing_seen) (
      search_from_lem waiting target changes closed (suc (length changes)) c nothing_seen known
        (record { within = λ x h. cc; room = omega (arith, missing-le-length changes []) }))
  where
    go :
        (r : Result Error (Bool × Seen))
        → Holds (FromPost waiting target c nothing_seen) (λ _. ⊥) r
        → ((r >>= λ (found, _). ok found) ≡ ok true) × WaitsFor waiting c target
          ⊎ ((r >>= λ (found, _). ok found) ≡ ok false) × ¬ WaitsFor waiting c target
    go (ok (true, after)) h = inl (refl, h)
    go (ok (false, after)) h = inr (refl, no_path waiting target after c h.1 h.0)
    go (err e) h = absurd h
    go (panic m) h = absurd h
    go out_of_fuel h = absurd h
